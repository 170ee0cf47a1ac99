-- ===== src/Gateway/Tracking/Rollback.antt =====
-- A rollback restores the host and removes the state file, or says that it could not.
use opensurge_fnos.Base.{Bool, Option, arith, none, refl, some, true, ◌≡◌}
use opensurge_fnos.Exec.{Result, err, ok, raise, ◌>>=◌}
use opensurge_fnos.Exec.Rules.{
  After, Ensures, Ensures-bind, Ensures-or_else, Ensures-weaken, Ensures-when,
}
use opensurge_fnos.Gateway.Rollback.{clear_runtime, raise_or, rollback, undo_takeover}
use opensurge_fnos.Gateway.Tracked.{collect}
use opensurge_fnos.Gateway.Tracking.{AllBack, AllBack-eq, IsFree}
use opensurge_fnos.Gateway.Tracking.Stops.{Kept, Never, Stage}
use opensurge_fnos.Gateway.Tracking.Undo.{
  Undone, begin-Stage, cleanup_missed, dns_back, observe-Kept, proxy_back, report-Kept,
  undo_takeover-Stage,
}
use opensurge_fnos.Gateway.Types.{
  Call, Config, Err, State, cleanup_failed, context_err, dns_retained, proxy_retained,
  rollback_failed, rolling_back,
}
use opensurge_fnos.Gateway.World.{Host, M, World, observe, report}

pub clear_runtime-Undone :
    (b : Host)
    → Ensures
        (λ w. w.host ≡ b)
        clear_runtime
        (λ acc w. (w.host ≡ b) × (acc ≡ none → w.file ≡ none))
        Never
unfolding clear_runtime ◌>>=◌
clear_runtime-Undone b = record { at = λ w h. ground arith }

module _ (b : Host) (free : IsFree b) (c : Config) (s : State) (t : Bool) (f : Option State) where
  raise_or-Undone :
      {A : Type 0} (cause : Err) (acc : Option Err)
      → Ensures
          (λ w. (w.host ≡ b) × (acc ≡ none → w.file ≡ none))
          (raise_or (cleanup_failed cause) acc (raise {A = A} cause))
          (λ a w. ⊥)
          (Undone b)
  unfolding raise_or
  raise_or-Undone cause none = record { at = λ w h r. (h.0, h.1 refl) }
  raise_or-Undone cause (some e) = record { at = λ w h r. cc }

  clear_and_raise :
      {A : Type 0} (cause : Err)
      → Ensures
          (λ w. w.host ≡ b)
          (do failed ← clear_runtime; raise_or (cleanup_failed cause) failed (raise {A = A} cause))
          (λ a w. ⊥)
          (Undone b)
  unfolding raise_or
  clear_and_raise cause =
      Ensures-bind
        (Ensures-weaken (clear_runtime-Undone b) (λ w h. h) (λ acc w h. h) (λ e w h. absurd h))
        λ acc. raise_or-Undone cause acc

  finish_rollback :
      {A : Type 0} (cause : Err) (acc : Option Err)
      → Ensures
          (Stage b s t f AllBack acc)
          (raise_or (rollback_failed cause) acc (do
            failed ← clear_runtime
            raise_or (cleanup_failed cause) failed (raise {A = A} cause)))
          (λ a w. ⊥)
          (Undone b)
  unfolding raise_or
  finish_rollback cause none =
      Ensures-weaken (clear_and_raise cause) (λ w h. AllBack-eq free (h.back refl)) (λ a w h. h)
        (λ e w h. h)
  finish_rollback cause (some e) = record { at = λ w h r. cc }

  abbrev Some : World → Type 0
  Some w = Unit

  -- Of a call of which nothing is known.
  any_After : {A : Type 0} (r : Result Err A) (w : World) → After (λ a. Some) (λ e. Some) r w
  any_After (ok a) w = tt
  any_After (err e) w = tt

  anything : {A : Type 0} (m : M A) → Ensures Some m (λ a. Some) (λ e. Some)
  anything m = record { at = λ w h. any_After (m w).0 (m w).1 }

  noted :
      {A : Type 0} (k : Call) (g : World → A) → Ensures Some (observe k g) (λ u. Some) (Undone b)
  unfolding observe
  noted k g = record { at = λ w h. tt }

  collects :
      {A : Type 0} (acc : Option Err) (m : M A) → Ensures Some (collect acc m) (λ a. Some) Never
  unfolding collect
  collects acc m = record { at = λ w h. tt }

  undo_takeover-ends : Ensures Some (undo_takeover c s) (λ a. Some) Never
  unfolding undo_takeover
  undo_takeover-ends = Ensures-bind (collects none _) λ acc. Ensures-bind (collects acc _) λ acc.
      Ensures-bind (collects acc _) λ acc.
        Ensures-bind
          (Ensures-when s.pf_anchor_loaded _ _ (λ on. collects acc _)
            (λ no. record { at = λ w h. tt }))
          λ acc. collects acc _

  raise_missed :
      {A : Type 0} (cause : Err)
      → cleanup_missed cause ≡ true
      → Ensures Some (raise {A = A} cause) (λ a w. ⊥) (Undone b)
  raise_missed cause missed = record { at = λ w h r. cc }

  raise_or_missed :
      {A : Type 0} (wrap : Err → Err) (acc : Option Err) (m : M A)
      → ((e : Err) → cleanup_missed (wrap e) ≡ true)
      → Ensures Some m (λ a w. ⊥) (Undone b)
      → Ensures Some (raise_or wrap acc m) (λ a w. ⊥) (Undone b)
  unfolding raise_or
  raise_or_missed wrap none m says k = k
  raise_or_missed wrap (some e) m says k = raise_missed (wrap e) (says e)

  -- After a missed cleanup, so is the error of the rollback.
  pub rollback_missed :
      {A : Type 0} (restore : Bool) (cause : Err)
      → cleanup_missed cause ≡ true
      → Ensures Some (rollback {A = A} c s restore cause) (λ a w. ⊥) (Undone b)
  unfolding rollback clear_runtime report
  rollback_missed restore cause missed = Ensures-bind (noted _ _) λ u. Ensures-bind (noted _ _) λ u.
      Ensures-bind
        (Ensures-or_else {h = λ e. raise (dns_retained cause e)} (anything _)
          (λ e. record { at = λ w h r. cc }))
        λ o.
          Ensures-bind
            (Ensures-or_else {h = λ e. raise (proxy_retained cause e)} (anything _)
              (λ e. record { at = λ w h r. cc }))
            λ u.
              Ensures-bind
                (Ensures-weaken undo_takeover-ends (λ w h. h) (λ a w h. h) (λ e w h. absurd h))
                λ acc.
                  raise_or_missed (rollback_failed cause) acc _ (λ e. refl)
                    (Ensures-bind
                      (Ensures-bind
                        (Ensures-weaken (collects none _) (λ w h. h) (λ a w h. h)
                          (λ e w h. absurd h))
                        λ acc.
                          Ensures-weaken (collects acc _) (λ w h. h) (λ a w h. h)
                            (λ e w h. absurd h))
                      λ acc.
                        raise_or_missed (cleanup_failed cause) acc _ (λ e. refl)
                          (raise_missed cause missed))

  -- Whatever the cleanup meets, a rollback returns an error; unless that error asks for recovery,
  -- the host is the one from before the start and the state file is gone.
  pub rollback-Undone :
      {A : Type 0} (restore : Bool) (cause : Err)
      → (t ≡ true → restore ≡ true)
      → Ensures (Kept b s t f) (rollback {A = A} c s restore cause) (λ a w. ⊥) (Undone b)
  unfolding rollback
  rollback-Undone restore cause enough =
      Ensures-bind (observe-Kept b s t f context_err (λ w. tt)) λ u.
        Ensures-bind (report-Kept b s t f rolling_back) λ u.
          Ensures-bind
            (Ensures-or_else {h = λ e. raise (dns_retained cause e)} (dns_back b s t f)
              (λ e. record { at = λ w h r. cc }))
            λ o.
              Ensures-bind
                (Ensures-or_else {h = λ e. raise (proxy_retained cause e)}
                  (proxy_back b s t f restore enough) (λ e. record { at = λ w h r. cc }))
                λ u.
                  Ensures-bind
                    (Ensures-weaken (undo_takeover-Stage b s t f c) (begin-Stage b s t f)
                      (λ acc w h. h) (λ e w h. absurd h))
                    (finish_rollback cause)
