-- ===== src/Gateway/Tracking/Stop.antt =====
-- A stop of a gateway of this boot.
use opensurge_fnos.Base.{Option, arith, inl, none, refl, some, true, ◌≡◌, ◌⊎◌}
use opensurge_fnos.Exec.{◌>>=◌}
use opensurge_fnos.Exec.Rules.{Ensures, Ensures-bind, Ensures-weaken}
use opensurge_fnos.Gateway.Rollback.{clear_runtime}
use opensurge_fnos.Gateway.Stop.{clear_stopped, stop_active}
use opensurge_fnos.Gateway.Tracked.{raise_some}
use opensurge_fnos.Gateway.Tracking.{AllBack, AllBack-eq, IsFree}
use opensurge_fnos.Gateway.Tracking.Stops.{Kept, Stage}
use opensurge_fnos.Gateway.Tracking.Undo.{begin-Stage, dns_back, given_back, stop_services-Stage}
use opensurge_fnos.Gateway.Types.{Config, Err, State}
use opensurge_fnos.Gateway.World.{Host, World}

module _ (b : Host) (free : IsFree b) (c : Config) (s : State) where
  -- The state file is kept until the host is restored.
  abbrev pub Retryable : Err → World → Type 0
  Retryable e w = Kept b s true (some s) w ⊎ (w.host ≡ b)

  clear_stopped-Ensures :
      Ensures (λ w. w.host ≡ b) clear_stopped (λ u w. (w.host ≡ b) × (w.file ≡ none)) Retryable
  unfolding clear_stopped clear_runtime ◌>>=◌
  clear_stopped-Ensures = record { at = λ w h. ground arith }

  restored_or_kept :
      (acc : Option Err)
      → Ensures (Stage b s true (some s) AllBack acc) (raise_some acc) (λ u w. w.host ≡ b) Retryable
  restored_or_kept none = record { at = λ w h. AllBack-eq free (h.back refl) }
  restored_or_kept (some e) = record { at = λ w h. inl (h.tracks, h.file) }

  -- A stop that succeeds leaves the host from before the start and no state file; one that fails
  -- has left the state file, which still records what is left of the gateway, or has restored
  -- the host.
  pub stop_active-Ensures :
      Ensures
        (Kept b s true (some s))
        (stop_active c s)
        (λ u w. (w.host ≡ b) × (w.file ≡ none))
        Retryable
  unfolding stop_active
  stop_active-Ensures =
      Ensures-bind
        (Ensures-weaken (dns_back b s true (some s)) (λ w h. h) (λ o w h. h) (λ e w h. inl h))
        λ o.
          Ensures-bind
            (Ensures-weaken (given_back b s true (some s)) (λ w h. h) (λ o w h. h) (λ e w h. inl h))
            λ u.
              Ensures-bind
                (Ensures-weaken (stop_services-Stage b s true (some s) c)
                  (begin-Stage b s true (some s)) (λ acc w h. h) (λ e w h. absurd h))
                λ acc. Ensures-bind (restored_or_kept acc) (λ u. clear_stopped-Ensures)
