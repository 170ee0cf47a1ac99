-- ===== src/Gateway/Guarantees/Reloads.antt =====
-- A reload of a running gateway: checked first, then stopped and started anew.
use opensurge_fnos.Base.{
  Bool, Option, arith, false, inl, none, not, refl, some, subst, sym, true, ℕ, ◌∙◌, ◌≡◌, ◌⊎◌,
}
use opensurge_fnos.Exec.{Result, err, ok, ◌>>=◌}
use opensurge_fnos.Exec.Rules.{
  After, Ensures, Ensures-bind, Ensures-err, Ensures-given, Ensures-ok, Ensures-or_else,
  Ensures-pure, Ensures-raise, Ensures-weaken, Ensures-when,
}
use opensurge_fnos.Gateway.Guarantees.{KeptIn, stop_gateway-Ensures}
use opensurge_fnos.Gateway.Quiet.{Quiet, Quiet-keeps}
use opensurge_fnos.Gateway.Quiet.Checks.{Quiet-validate_candidate}
use opensurge_fnos.Gateway.Reload.{
  check_reload, reload_gateway, require_daemons, require_packet, require_running, wrapped,
}
use opensurge_fnos.Gateway.Start.{start_gateway}
use opensurge_fnos.Gateway.Start.Plan.{require_root}
use opensurge_fnos.Gateway.Tracked.{tracked_running}
use opensurge_fnos.Gateway.Tracking.{IsFree, Tracks}
use opensurge_fnos.Gateway.Tracking.Seen.{tracked_running-Kept}
use opensurge_fnos.Gateway.Tracking.Start.{IsStarted, Restored, start-IsStarted}
use opensurge_fnos.Gateway.Tracking.Stops.{Kept}
use opensurge_fnos.Gateway.Tracking.Undo.{cleanup_missed}
use opensurge_fnos.Gateway.Types.{
  Config, Daemon, Err, Fingerprint, Phase, State, belongs_to_boot, dnsmasq, mihomo, packet,
  reload_candidate, reload_start, reload_stop,
}
use opensurge_fnos.Gateway.World.{Env, Host, M, World, answer, load, report}

-- The error of a reload says how far it came, and what it has left.
abbrev pub ReloadFailed : Host → State → Err → World → Type 0
ReloadFailed b s (reload_stop x) w = Kept b s true (some s) w ⊎ (w.host ≡ b)
ReloadFailed b s (reload_start x) w = cleanup_missed x ≡ false → Restored b x w
ReloadFailed b s x w = Kept b s true (some s) w

-- Neither the stop nor the start of a reload has failed.
abbrev before_stop : Err → Bool
before_stop (reload_stop x) = false
before_stop (reload_start x) = false
before_stop x = true

-- The gateway has been started anew, from the world `before`.
pub record Restarted (b : Host) (c : Config) (w : World) : Type 0 where
  pub before : World
  pub result : start_gateway c before ≡ (ok tt, w)
  pub started : IsStarted b c before w

module _ (b : Host) (free : IsFree b) (c : Config) (s : State) (e : Env) where
  start_here :
      Ensures
        (λ w. (w.host ≡ b) × (w.file ≡ none))
        (start_gateway c)
        (λ u. Restarted b c)
        (λ x w. cleanup_missed x ≡ false → Restored b x w)
  start_here = record {
    at = λ v h.
        known v (start_gateway c v).0 (start_gateway c v).1 refl
          (unfold start_gateway in (start-IsStarted b free c false v).at v (h, refl));
  }
    where
      known :
          (v : World) (r : Result Err (Unit {0})) (w : World)
          → start_gateway c v ≡ (r, w)
          → After (λ u. IsStarted b c v) (λ x w. cleanup_missed x ≡ false → Restored b x w) r w
          → After (λ u. Restarted b c) (λ x w. cleanup_missed x ≡ false → Restored b x w) r w
      known v (ok u) w same h = record { before = v; result = same; started = h }
      known v (err x) w same h = h

  abbrev Refused : Err → World → Type 0
  Refused x w = Kept b s true (some s) w × (before_stop x ≡ true)

  refused : (x : Err) (w : World) → Refused x w → ReloadFailed b s x w
  refused (reload_stop x) w h = inl h.0
  refused (reload_start x) w h = absurd cc
  refused _ w h = h.0

  seen :
      (d : Daemon) (pid : ℕ) (o : Fingerprint)
      → Ensures (KeptIn b free c s e) (tracked_running d pid o) (λ a. KeptIn b free c s e) Refused
  seen d pid o =
      Ensures-weaken (tracked_running-Kept b s true (some s) e d pid o) (λ w h. h) (λ a w h. h)
        (λ x w h. absurd h)

  fine :
      {A : Type 0} {P : World → Type 0} {Q : A → World → Type 0} {m : M A}
      → Ensures P m Q (λ x w. Kept b s true (some s) w × (before_stop x ≡ true))
      → Ensures P m Q (λ x. ReloadFailed b s x)
  fine k = Ensures-weaken k (λ w h. h) (λ a w h. h) refused

  begun : (p : Phase) → Ensures (KeptIn b free c s e) (report p) (λ u. KeptIn b free c s e) Refused
  unfolding report
  begun p = record { at = λ w h. h }

  root_checked : Ensures (KeptIn b free c s e) require_root (λ u. KeptIn b free c s e) Refused
  unfolding require_root ◌>>=◌
  root_checked = record { at = λ w h. ground arith }

  loaded : Ensures (KeptIn b free c s e) load (λ o w. KeptIn b free c s e w × (o ≡ some s)) Refused
  unfolding load
  loaded = record { at = λ w h. ground arith }

  of_this_boot :
      (o : Option State)
      → o ≡ some s
      → Ensures
          (KeptIn b free c s e)
          (require_running o)
          (λ x w. KeptIn b free c s e w × (x ≡ s))
          Refused
  of_this_boot o same =
      rw same (unfold require_running answer ◌>>=◌ in record { at = λ w h. ground arith })

  daemons_checked :
      Ensures (KeptIn b free c s e) (require_daemons s) (λ u. KeptIn b free c s e) Refused
  unfolding require_daemons
  daemons_checked = Ensures-bind (seen dnsmasq s.pid_dnsmasq s.dnsmasq_fingerprint) λ alive.
      Ensures-when (not alive) _ _ (λ _. Ensures-raise _ _ (λ w h. (h.0, refl)))
        λ _. Ensures-bind (seen mihomo s.pid_mihomo s.mihomo_fingerprint) λ alive.
          Ensures-when (not alive) _ _ (λ _. Ensures-raise _ _ (λ w h. (h.0, refl)))
            (λ _. Ensures-pure _ tt (λ w h. h))

  packet_checked :
      Ensures (KeptIn b free c s e) (require_packet s) (λ u. KeptIn b free c s e) Refused
  unfolding require_packet
  packet_checked =
      Ensures-when (not s.packet_effective) _ _ (λ _. Ensures-pure _ tt (λ w h. h))
        λ _. Ensures-bind (seen packet s.pid_packet s.packet_fingerprint) λ alive.
          Ensures-when (not alive) _ _ (λ _. Ensures-raise _ _ (λ w h. (h.0, refl)))
            (λ _. Ensures-pure _ tt (λ w h. h))

  -- A quiet check that fails is reported as the candidate's.
  candidate_refused :
      {m : M (Unit {0})}
      → Quiet m
      → Ensures
          (KeptIn b free c s e)
          (wrapped reload_candidate m)
          (λ u. KeptIn b free c s e)
          Refused
  unfolding wrapped
  candidate_refused {m} k =
      Ensures-or_else {Y = λ x. KeptIn b free c s e}
        (Quiet-keeps (KeptIn b free c s e) k λ w w' same h.
          ((subst (λ h. Tracks b s true h) (sym same.0) h.0.0, same.1 ∙ h.0.1), same.2 ∙ h.1))
        (λ x. Ensures-raise _ _ (λ w h. (h.0, refl)))

  check_reload-Ensures :
      Ensures (KeptIn b free c s e) (check_reload c) (λ u. KeptIn b free c s e) Refused
  unfolding check_reload
  check_reload-Ensures = Ensures-bind (begun _) λ u. Ensures-bind root_checked λ u.
      Ensures-bind loaded λ o. Ensures-given λ same. Ensures-bind (of_this_boot o same) λ x.
        Ensures-given λ is_s. rw is_s (
          Ensures-bind daemons_checked
            λ u. Ensures-bind packet_checked λ u. candidate_refused (Quiet-validate_candidate c))

  reload_gateway-Ensures :
      belongs_to_boot s e.boot ≡ true
      → Ensures (KeptIn b free c s e) (reload_gateway c) (λ u. Restarted b c) (ReloadFailed b s)
  unfolding reload_gateway wrapped
  reload_gateway-Ensures here =
      Ensures-bind (Ensures-weaken check_reload-Ensures (λ w h. h) (λ u w h. h) refused) λ u.
        Ensures-bind
          (Ensures-or_else (stop_gateway-Ensures b free c s e here)
            λ x. Ensures-raise _ _ (λ w h. h))
          λ u. Ensures-or_else start_here λ x. Ensures-raise _ _ (λ w h. h)

-- A reload that returns no error, of a gateway that this boot has started on the host `b` and whose
-- state file records it, has started the gateway anew: it runs under the new configuration, with all
-- that this asks for and a state file from which `b` can be restored, as after a start.
pub reload_runs :
    (b : Host) (c : Config) (s : State) (w : World)
    → IsFree b
    → Tracks b s true w.host
    → w.file ≡ some s
    → belongs_to_boot s w.env.boot ≡ true
    → (reload_gateway c w).0 ≡ ok tt
    → Restarted b c (reload_gateway c w).1
reload_runs b c s w free tracks file here done =
    Ensures-ok (reload_gateway-Ensures b free c s w.env here) w ((tracks, file), refl) done

-- Such a reload that returns an error has failed to stop the gateway, and can be stopped again or
-- has restored the host; or has failed to start it again, and has restored the host unless a cleanup
-- failed, of the rollback or of the failing call itself; or has kept the gateway and its state file as recorded.
pub reload_fails_safely :
    (b : Host) (c : Config) (s : State) (w : World) (x : Err)
    → IsFree b
    → Tracks b s true w.host
    → w.file ≡ some s
    → belongs_to_boot s w.env.boot ≡ true
    → (reload_gateway c w).0 ≡ err x
    → ReloadFailed b s x (reload_gateway c w).1
reload_fails_safely b c s w x free tracks file here failed =
    Ensures-err (reload_gateway-Ensures b free c s w.env here) w ((tracks, file), refl) failed
