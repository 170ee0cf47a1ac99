-- ===== src/Recovery/Asked.antt =====
-- In every reachable monitor a restart is asked for with a reason only.
use opensurge_fnos.Base.{
  Bool, List, Option, [], arith, false, none, refl, some, subst, true, ◌∷◌, ◌≡◌,
}
use opensurge_fnos.Recovery.Budget.{begin_refused}
use opensurge_fnos.Recovery.Controller.{
  Controller, Reason, begin, begin_manual, controller_refused, finish_automatic, finish_manual,
  is_failed, new_controller, observe_failure, process_missing,
}
use opensurge_fnos.Recovery.Monitor.{
  Holder, Monitor, Reachable, Stand, Step, asked, attempt, begin_by_hand, begun, evaluate, finish,
  finish_by_hand, first_monitor, give_up, next, next_stand, release_lock, restart_begun,
  restarting_automatically, resting, sampled, start, take_lock, try_restart, uncreated,
}
use opensurge_fnos.Recovery.Samples.{Sample, Verdict, classify, failing, healthy, observe, unknown}
use opensurge_fnos.Recovery.Settled.{
  IsSettled, IsSettled-attempted, IsSettled-controller_refused, IsSettled-observe_healthy,
  IsSettled-observe_unknown, IsSettled-process_missing, asked-refused, begun-active,
  finish_automatic-attempted, finish_manual-attempted, observe-active,
}
use opensurge_fnos.Recovery.Warrant.{HasReason, IsWarranted, classify-IsWarranted}
use opensurge_fnos.Text.{Text}

LatestRefused : List Sample → Type 0
LatestRefused [] = ⊥
LatestRefused (s ∷ ss) = IsWarranted controller_refused s

HasStand : Controller → Option Holder → List Sample → Stand → Type 0
HasStand c l ss resting = Unit
HasStand c l ss (asked r) = HasReason r ss
HasStand c l ss (uncreated e) = (c.attempted ≡ true) × ¬ (l ≡ some restarting_automatically)

IsSound : Monitor → Type 0
IsSound m =
    IsSettled (LatestRefused m.samples) m.controller
    × HasStand m.controller m.lock m.samples m.stand
    × (m.lock ≡ some restarting_automatically → m.controller.operation_active ≡ true)

asked-HasReason :
    (r : Reason) (c : Controller) (s : Sample) (ss : List Sample)
    → IsSettled (LatestRefused ss) c
    → IsWarranted r s
    → (observe_failure r c).1 ≡ true
    → HasReason r (s ∷ ss)
unfolding HasReason LatestRefused
asked-HasReason process_missing c s ss w v h = v
asked-HasReason controller_refused c s [] w v h = absurd (asked-refused _ c w h)
asked-HasReason controller_refused c s (t ∷ ss) w v h = (v, asked-refused _ c w h)

-- The stand has what it needs under another controller and another holder of the lock.
HasStand-change :
    (c d : Controller) (l k : Option Holder) (ss : List Sample) (st : Stand)
    → (c.attempted ≡ true → d.attempted ≡ true)
    → ¬ (k ≡ some restarting_automatically)
    → HasStand c l ss st
    → HasStand d k ss st
unfolding HasStand
HasStand-change c d l k ss resting keeps free h = tt
HasStand-change c d l k ss (asked r) keeps free h = h
HasStand-change c d l k ss (uncreated e) keeps free h = (keeps h.0, free)

module _ (m : Monitor) (sound : IsSound m) (s : Sample) where
  IsSettled-next :
      (v : Verdict)
      → classify s ≡ v
      → IsSettled (LatestRefused (s ∷ m.samples)) (observe v m.controller).0
  unfolding IsSound observe LatestRefused
  IsSettled-next unknown e = IsSettled-observe_unknown _ _ m.controller sound.0
  IsSettled-next healthy e = IsSettled-observe_healthy _ _ m.controller sound.0
  IsSettled-next (failing process_missing) e = IsSettled-process_missing _ _ m.controller sound.0
  IsSettled-next (failing controller_refused) e =
      IsSettled-controller_refused _ _ m.controller (classify-IsWarranted _ s e) sound.0

  HasStand-next :
      (c : Controller) (v : Verdict) (asks : Bool)
      → classify s ≡ v
      → (observe v m.controller).1 ≡ asks
      → HasStand c m.lock (s ∷ m.samples) (next_stand v asks)
  unfolding IsSound observe HasStand next_stand
  HasStand-next c unknown asks e h = tt
  HasStand-next c healthy asks e h = tt
  HasStand-next c (failing r) false e h = tt
  HasStand-next c (failing r) true e h =
      asked-HasReason r m.controller s m.samples sound.0 (classify-IsWarranted r s e) h

  IsSound-sampled : IsSound (sampled s m)
  unfolding IsSound sampled
  IsSound-sampled = (
    IsSettled-next _ refl,
    HasStand-next _ _ _ refl refl,
    λ e. cc (observe-active (classify s) m.controller (sound.2 e), sound.2 e),
  )

IsSound-attempt :
    (m : Monitor) (sound : IsSound m) (r : Reason) (created : Option Text) (l : Option Holder)
    → m.lock ≡ l
    → IsSound (attempt r created m l)
unfolding IsSound attempt begun restart_begun HasStand
IsSound-attempt m sound r created (some l) e = (sound.0, tt, sound.2)
IsSound-attempt m sound r created none e = by_outcome created _ refl
  where
    by_outcome :
        (created : Option Text) (out : Controller × Bool)
        → begin r m.controller ≡ out
        → IsSound (begun created out m)
    by_outcome none (c, true) h =
        let (active, attempted) = begun-active r m.controller c h in
        (IsSettled-attempted _ c attempted, tt, λ _. active)
    by_outcome (some x) (c, true) h =
        let (active, attempted) = begun-active r m.controller c h in
        (IsSettled-attempted _ c attempted, (attempted, λ l. absurd cc), λ _. active)
    by_outcome created (c, false) h =
        let same = begin_refused r m.controller c h in
        (subst (IsSettled _) same sound.0, tt, λ l. absurd cc)

-- A change of the controller that leaves it attempted, with the lock at no automatic restart.
IsSound-attempted :
    (m : Monitor) (c : Controller) (l : Option Holder)
    → IsSound m
    → c.attempted ≡ true
    → ¬ (l ≡ some restarting_automatically)
    → IsSound (record m { controller = c; lock = l })
unfolding IsSound
IsSound-attempted m c l sound attempted free = (
  IsSettled-attempted _ c attempted,
  HasStand-change m.controller c m.lock l m.samples m.stand (λ _. attempted) free sound.1,
  λ e. absurd (free e),
)

IsSound-locked :
    (m : Monitor) (l : Option Holder)
    → IsSound m
    → ¬ (l ≡ some restarting_automatically)
    → IsSound (record m { lock = l })
unfolding IsSound
IsSound-locked m l sound free = (
  sound.0,
  HasStand-change m.controller m.controller m.lock l m.samples m.stand (λ e. e) free sound.1,
  λ e. absurd (free e),
)

IsSound-Step : {m n : Monitor} → Step m n → IsSound m → IsSound n
unfolding IsSound HasStand begin_manual IsSettled
IsSound-Step (evaluate m s e) w = IsSound-sampled m w s
IsSound-Step (try_restart m r created e) w = IsSound-attempt m w r created m.lock refl
IsSound-Step (give_up m x e) w =
    let h : HasStand m.controller m.lock m.samples (uncreated x) =
      subst (HasStand m.controller m.lock m.samples) e w.1 in
    (
      IsSettled-attempted _ (finish_automatic (some x) m.controller)
          (finish_automatic-attempted (some x) m.controller h.0),
      tt,
      λ l. absurd (h.1 l),
    )
IsSound-Step (finish m result e) w =
    IsSound-attempted m (finish_automatic result m.controller) _ w
      (finish_automatic-attempted result m.controller (w.0.0 (w.2 e))) (λ l. cc)
IsSound-Step (take_lock m e) w = IsSound-locked m _ w (λ l. cc)
IsSound-Step (begin_by_hand m e) w =
    IsSound-attempted m (begin_manual m.controller) _ w refl (λ l. cc)
IsSound-Step (finish_by_hand m result e) w =
    IsSound-attempted m (finish_manual result m.controller) _ w
      (finish_manual-attempted result m.controller) (λ l. cc)
IsSound-Step (release_lock m e) w = IsSound-locked m _ w (λ l. cc)

Reachable-IsSound : {m : Monitor} → Reachable m → IsSound m
unfolding IsSound first_monitor new_controller HasStand IsSettled is_failed
Reachable-IsSound start = ground arith
Reachable-IsSound (next r s) = IsSound-Step s (Reachable-IsSound r)

-- In every reachable monitor a restart that is asked for rests on the latest sample, which is a
-- failure for its reason of an active runtime that no operation holds, at a recovery stage that
-- allows the restart; where the reason is a refused controller, on the sample before it too.
pub asked_restart-HasReason :
    (m : Monitor) (r : Reason) → Reachable m → m.stand ≡ asked r → HasReason r m.samples
unfolding IsSound HasStand
asked_restart-HasReason m r reachable e =
    subst (HasStand m.controller m.lock m.samples) e (Reachable-IsSound reachable).1
