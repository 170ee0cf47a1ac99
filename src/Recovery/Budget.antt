-- ===== src/Recovery/Budget.antt =====
-- How often the engine is restarted automatically.
use opensurge_fnos.Base.{
  Bool, List, Option, [], arith, false, none, refl, some, subst, true, ℕ, ◌*◌, ◌+◌, ◌∷◌, ◌≡◌, ◌≤◌,
}
use opensurge_fnos.Recovery.Controller.{
  Controller, Reason, begin, begin_manual, controller_refused, counted, failure, finish_automatic,
  finish_manual, observe_failure, observe_healthy, observe_unknown, process_missing, with_reason,
}
use opensurge_fnos.Recovery.Monitor.{
  Holder, Monitor, Reachable, Step, attempt, begin_by_hand, begun, evaluate, finish, finish_by_hand,
  first_monitor, give_up, next, release_lock, restart_begun, sampled, start, take_lock, try_restart,
}
use opensurge_fnos.Recovery.Samples.{Sample, Verdict, classify, failing, healthy, observe, unknown}
use opensurge_fnos.Text.{Text}

tally : Verdict → ℕ → ℕ
tally healthy n = 1 + n
tally _ n = n

-- The healthy samples among those.
unfoldable pub healthy_samples : List Sample → ℕ
unfolding tally classify
healthy_samples [] = 0
healthy_samples (s ∷ ss) = tally (classify s) (healthy_samples ss)

-- What `a` restarts have left of `h` healthy samples.
Within : ℕ → ℕ → Controller → Type 0
Within h a c =
    (c.attempted ≡ false → 2 * a ≤ h) × (2 * a + c.healthy_count ≤ h + 2) × (c.healthy_count ≤ 1)

Within-observe_healthy :
    (h a : ℕ) (c : Controller) → Within h a c → Within (1 + h) a (observe_healthy c)
unfolding Within observe_healthy
Within-observe_healthy h a c w = ground arith

Within-observe_unknown : (h a : ℕ) (c : Controller) → Within h a c → Within h a (observe_unknown c)
unfolding Within observe_unknown
Within-observe_unknown h a c w = ground arith

Within-observe_failure :
    (h a : ℕ) (r : Reason) (c : Controller) → Within h a c → Within h a (observe_failure r c).0
unfolding Within observe_failure failure counted with_reason
Within-observe_failure h a process_missing c w = ground arith
Within-observe_failure h a controller_refused c w = ground arith

Within-begin :
    (h a : ℕ) (r : Reason) (c d : Controller)
    → Within h a c
    → begin r c ≡ (d, true)
    → Within h (a + 1) d
unfolding Within begin
Within-begin h a r c d w e = ground arith

-- A restart that is refused leaves the controller.
pub begin_refused : (r : Reason) (c d : Controller) → begin r c ≡ (d, false) → c ≡ d
unfolding begin
begin_refused r c d e = ground arith

Within-begin_manual : (h a : ℕ) (c : Controller) → Within h a c → Within h a (begin_manual c)
unfolding Within begin_manual
Within-begin_manual h a c w = ground arith

Within-finish_automatic :
    (h a : ℕ) (result : Option Text) (c : Controller)
    → Within h a c
    → Within h a (finish_automatic result c)
unfolding Within finish_automatic
Within-finish_automatic h a none c w = w
Within-finish_automatic h a (some e) c w = w

Within-finish_manual :
    (h a : ℕ) (result : Option Text) (c : Controller)
    → Within h a c
    → Within h a (finish_manual result c)
unfolding Within finish_manual
Within-finish_manual h a none c w = ground arith
Within-finish_manual h a (some e) c w = ground arith

abbrev IsWithin : Monitor → Type 0
IsWithin m = Within (healthy_samples m.samples) m.restarts m.controller

IsWithin-sampled : (s : Sample) (m : Monitor) → IsWithin m → IsWithin (sampled s m)
unfolding sampled healthy_samples tally observe
IsWithin-sampled s m w = by_verdict (classify s)
  where
    by_verdict :
        (v : Verdict)
        → Within (tally v (healthy_samples m.samples)) m.restarts (observe v m.controller).0
    by_verdict unknown = Within-observe_unknown _ _ m.controller w
    by_verdict healthy = Within-observe_healthy _ _ m.controller w
    by_verdict (failing r) = Within-observe_failure _ _ r m.controller w

IsWithin-attempt :
    (r : Reason) (created : Option Text) (m : Monitor) (l : Option Holder)
    → IsWithin m
    → IsWithin (attempt r created m l)
unfolding attempt begun restart_begun
IsWithin-attempt r created m (some l) w = w
IsWithin-attempt r created m none w = by_outcome created _ refl
  where
    by_outcome :
        (created : Option Text) (out : Controller × Bool)
        → begin r m.controller ≡ out
        → IsWithin (begun created out m)
    by_outcome none (c, true) e = Within-begin _ _ r m.controller c w e
    by_outcome (some x) (c, true) e = Within-begin _ _ r m.controller c w e
    by_outcome created (c, false) e =
        subst (Within (healthy_samples m.samples) m.restarts) (begin_refused r m.controller c e) w

IsWithin-Step : {m n : Monitor} → Step m n → IsWithin m → IsWithin n
IsWithin-Step (evaluate m s e) w = IsWithin-sampled s m w
IsWithin-Step (try_restart m r created e) w = IsWithin-attempt r created m m.lock w
IsWithin-Step (give_up m x e) w = Within-finish_automatic _ _ (some x) m.controller w
IsWithin-Step (finish m result e) w = Within-finish_automatic _ _ result m.controller w
IsWithin-Step (take_lock m e) w = w
IsWithin-Step (begin_by_hand m e) w = Within-begin_manual _ _ m.controller w
IsWithin-Step (finish_by_hand m result e) w = Within-finish_manual _ _ result m.controller w
IsWithin-Step (release_lock m e) w = w

Reachable-IsWithin : {m : Monitor} → Reachable m → IsWithin m
unfolding first_monitor Within healthy_samples
Reachable-IsWithin start = ground arith
Reachable-IsWithin (next r s) = IsWithin-Step s (Reachable-IsWithin r)

-- In every reachable monitor the automatic restarts are at most one more than half the samples
-- that were healthy: every restart after the first has two healthy samples of its own.
pub restart_budget : (m : Monitor) → Reachable m → 2 * m.restarts ≤ healthy_samples m.samples + 2
unfolding Within
restart_budget m r = let w = Reachable-IsWithin r in omega arith
