-- ===== src/Gateway/Guarantees/Reboot.antt =====
-- A stop after a reboot of the host.
use opensurge_fnos.Base.{All, [], arith, false, refl, some, subst, sym, true, ◌≡◌}
use opensurge_fnos.Exec.{Result, err, ok, ◌>>=◌}
use opensurge_fnos.Exec.Rules.{After, Ensures, Ensures-bind, Ensures-given, Ensures-when}
use opensurge_fnos.Gateway.Calls.Interrupted.{cleanup_interrupted-Only, spares_runtime}
use opensurge_fnos.Gateway.Start.Plan.{require_root}
use opensurge_fnos.Gateway.Stop.{cleanup_interrupted, stop_existing, stop_gateway}
use opensurge_fnos.Gateway.Types.{Call, Config, Err, Phase, State, belongs_to_boot, current_boot}
use opensurge_fnos.Gateway.World.{Env, World, answer, ask, load, report}

abbrev Spared : State → Env → World → Type 0
Spared s e w = All (λ c. spares_runtime c ≡ true) w.trace × (w.file ≡ some s) × (w.env ≡ e)

abbrev AllSpared : World → Type 0
AllSpared w = All (λ c. spares_runtime c ≡ true) w.trace

module _ (s : State) (e : Env) where
  report-Spared : (p : Phase) → Ensures (Spared s e) (report p) (λ u. Spared s e) (λ x. AllSpared)
  unfolding report
  report-Spared p = record { at = λ w h. ((refl, h.0), h.1, h.2) }

  root-Spared : Ensures (Spared s e) require_root (λ u. Spared s e) (λ x. AllSpared)
  unfolding require_root ◌>>=◌
  root-Spared = record { at = λ w h. ground arith }

  ask-Spared :
      (k : Call)
      → spares_runtime k ≡ true
      → Ensures (Spared s e) (ask k) (λ u. Spared s e) (λ x. AllSpared)
  unfolding ask
  ask-Spared k a = record { at = λ w h. ground arith }

  load-Spared : Ensures (Spared s e) load (λ o w. Spared s e w × (o ≡ some s)) (λ x. AllSpared)
  unfolding load
  load-Spared = record { at = λ w h. ground arith }

  boot-Spared :
      Ensures
        (Spared s e)
        (answer current_boot (λ w. w.env.boot))
        (λ o w. Spared s e w × (o ≡ e.boot))
        (λ x. AllSpared)
  unfolding answer
  boot-Spared = record { at = λ w h. ground arith }

  cleanup-Ensures : Ensures (Spared s e) (cleanup_interrupted s) (λ u. AllSpared) (λ x. AllSpared)
  cleanup-Ensures = record {
    at = λ w h.
        after (cleanup_interrupted s w).0 (cleanup_interrupted s w).1
          ((cleanup_interrupted-Only s).at w h.0);
  }
    where
      after :
          (r : Result Err (Unit {0})) (w : World)
          → AllSpared w
          → After (λ u. AllSpared) (λ x. AllSpared) r w
      after (ok u) w h = h
      after (err x) w h = h

  stop-Spared :
      (c : Config)
      → belongs_to_boot s e.boot ≡ false
      → Ensures (Spared s e) (stop_gateway c) (λ u. AllSpared) (λ x. AllSpared)
  unfolding stop_gateway stop_existing
  stop-Spared c elsewhere = Ensures-bind (report-Spared _) λ u. Ensures-bind root-Spared λ u.
      Ensures-bind (ask-Spared _ refl) λ u. Ensures-bind load-Spared λ o. Ensures-given λ same.
        rw same (
          Ensures-bind boot-Spared λ session. Ensures-given λ at_boot.
            Ensures-when (belongs_to_boot s session) _ _ (λ here. record { at = λ w h. cc })
              (λ _. cleanup-Ensures))

-- A stop of a runtime that an earlier boot has recorded makes no call, other than StopPrepared, that
-- signals or inspects a process or changes the firewall, forwarding or the IPv6 path, whether or not
-- it returns an error.
pub stop_after_reboot :
    (c : Config) (s : State) (w : World)
    → w.trace ≡ []
    → w.file ≡ some s
    → belongs_to_boot s w.env.boot ≡ false
    → All (λ k. spares_runtime k ≡ true) (stop_gateway c w).1.trace
stop_after_reboot c s w fresh file elsewhere = either (stop_gateway c w).0 (stop_gateway c w).1 (
    (stop-Spared s w.env c elsewhere).at w
      (subst (λ t. All (λ k. spares_runtime k ≡ true) t) (sym fresh) tt, file, refl))
  where
    either :
        (r : Result Err (Unit {0})) (w : World)
        → After (λ u. AllSpared) (λ x. AllSpared) r w
        → AllSpared w
    either (ok u) w h = h
    either (err x) w h = h
