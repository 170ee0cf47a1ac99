-- ===== src/Recovery/Settled.antt =====
-- What each operation keeps of what the controller knows.
use opensurge_fnos.Base.{Option, arith, false, none, refl, some, true, ◌≡◌, ◌≤◌}
use opensurge_fnos.Recovery.Controller.{
  Controller, Reason, begin, controller_refused, counted, failure, finish_automatic, finish_manual,
  is_failed, observe_failure, observe_healthy, observe_unknown, process_missing, same_reason,
  with_reason,
}
use opensurge_fnos.Recovery.Samples.{Verdict, failing, healthy, observe, unknown}
use opensurge_fnos.Text.{Text}

-- What the controller knows between two evaluations, where P says that the latest sample was a
-- refused controller.
unfoldable pub IsSettled : Type 0 → Controller → Type 0
IsSettled P c =
    (c.operation_active ≡ true → c.attempted ≡ true)
    × (c.attempted ≡ false → is_failed c.state ≡ false)
    × (c.attempted ≡ false
        → 1 ≤ c.refused_count
        → (same_reason c.reason controller_refused ≡ true) × P)

pub IsSettled-observe_healthy :
    (P Q : Type 0) (c : Controller) → IsSettled P c → IsSettled Q (observe_healthy c)
unfolding IsSettled observe_healthy is_failed
IsSettled-observe_healthy P Q c w = ground arith

pub IsSettled-observe_unknown :
    (P Q : Type 0) (c : Controller) → IsSettled P c → IsSettled Q (observe_unknown c)
unfolding IsSettled observe_unknown is_failed
IsSettled-observe_unknown P Q c w = ground arith

pub IsSettled-process_missing :
    (P Q : Type 0) (c : Controller)
    → IsSettled P c
    → IsSettled Q (observe_failure process_missing c).0
unfolding IsSettled observe_failure failure counted with_reason is_failed same_reason
IsSettled-process_missing P Q c w = ground arith

pub IsSettled-controller_refused :
    (P Q : Type 0) (c : Controller)
    → Q
    → IsSettled P c
    → IsSettled Q (observe_failure controller_refused c).0
unfolding IsSettled observe_failure failure counted with_reason is_failed same_reason
IsSettled-controller_refused P Q c q w = ground arith

-- A refused controller is restarted on the second sample in a row.
pub asked-refused :
    (P : Type 0) (c : Controller)
    → IsSettled P c
    → (observe_failure controller_refused c).1 ≡ true
    → P
unfolding IsSettled observe_failure failure counted with_reason is_failed same_reason
asked-refused P c w h = ground arith

pub IsSettled-attempted : (P : Type 0) (c : Controller) → c.attempted ≡ true → IsSettled P c
unfolding IsSettled
IsSettled-attempted P c h = ground arith

pub begun-active :
    (r : Reason) (c d : Controller)
    → begin r c ≡ (d, true)
    → (d.operation_active ≡ true) × (d.attempted ≡ true)
unfolding begin
begun-active r c d e = ground arith

pub finish_automatic-attempted :
    (result : Option Text) (c : Controller)
    → c.attempted ≡ true
    → (finish_automatic result c).attempted ≡ true
unfolding finish_automatic
finish_automatic-attempted none c h = h
finish_automatic-attempted (some e) c h = h

pub finish_manual-attempted :
    (result : Option Text) (c : Controller) → (finish_manual result c).attempted ≡ true
unfolding finish_manual
finish_manual-attempted none c = refl
finish_manual-attempted (some e) c = refl

-- While an operation is active an evaluation observes nothing.
pub observe-active :
    (v : Verdict) (c : Controller) → c.operation_active ≡ true → observe v c ≡ (c, false)
unfolding observe observe_healthy observe_unknown observe_failure
observe-active unknown c h = ground arith
observe-active healthy c h = ground arith
observe-active (failing r) c h = ground arith
