-- ===== src/Gateway/Guarantees.antt =====
-- What the lifecycle actions promise to a caller, as statements about one call.
pub mod Reloads
pub mod Reboot
use opensurge_fnos.Base.{
  Bool, Option, arith, false, inl, none, refl, some, subst, sym, true, ◌≡◌, ◌⊎◌,
}
use opensurge_fnos.Exec.{err, ok, when◌run◌otherwise◌, ◌>>=◌}
use opensurge_fnos.Exec.Rules.{
  Ensures, Ensures-bind, Ensures-err, Ensures-given, Ensures-ok, Ensures-weaken, Ensures-when,
}
use opensurge_fnos.Gateway.Start.{start_with_commit}
use opensurge_fnos.Gateway.Start.Plan.{require_root}
use opensurge_fnos.Gateway.Stop.{cleanup_interrupted, stop_active, stop_existing, stop_gateway}
use opensurge_fnos.Gateway.Tracking.{IsFree, Tracks}
use opensurge_fnos.Gateway.Tracking.Start.{IsStarted, Restored, start-IsStarted}
use opensurge_fnos.Gateway.Tracking.Stop.{Retryable, stop_active-Ensures}
use opensurge_fnos.Gateway.Tracking.Stops.{Kept}
use opensurge_fnos.Gateway.Tracking.Undo.{cleanup_missed}
use opensurge_fnos.Gateway.Types.{
  BootSession, Call, Config, Err, Phase, State, belongs_to_boot, checking_runtime, current_boot,
  stop_prepared,
}
use opensurge_fnos.Gateway.World.{Env, Host, M, World, answer, ask, load, report}

-- A start of a host on which nothing of the gateway is, with no state file, that returns an error
-- has left every part of the host as it was before, and no state file but one whose own save
-- returned that error, unless a cleanup failed: one of the rollback, as the error then says, or one
-- that the failing call makes itself, whose error it drops.
pub start_restores :
    (c : Config) (commits : Bool) (w : World) (e : Err)
    → IsFree w.host
    → w.file ≡ none
    → (start_with_commit c commits w).0 ≡ err e
    → cleanup_missed e ≡ false
    → Restored w.host e (start_with_commit c commits w).1
start_restores c commits w e free nothing failed clean =
    Ensures-err (start-IsStarted w.host free c commits w) w ((refl, nothing), refl) failed clean

-- A start that returns no error has the engine, DNS and DHCP (where wanted), the packet broker and
-- its alias (where the configuration asks for IPv6 always, or automatically and native IPv6 was
-- found), forwarding, the firewall, and the host's resolver and proxy (where the
-- configuration manages them) up, and the state file records all of it.
pub start_runs :
    (c : Config) (commits : Bool) (w : World)
    → IsFree w.host
    → w.file ≡ none
    → (start_with_commit c commits w).0 ≡ ok tt
    → IsStarted w.host c w (start_with_commit c commits w).1
start_runs c commits w free nothing done =
    Ensures-ok (start-IsStarted w.host free c commits w) w ((refl, nothing), refl) done

module _ (b : Host) (free : IsFree b) (c : Config) (s : State) (e : Env) where
  abbrev pub KeptIn : World → Type 0
  KeptIn w = Kept b s true (some s) w × (w.env ≡ e)

  in_report : (p : Phase) → Ensures KeptIn (report p) (λ u. KeptIn) (λ x. KeptIn)
  unfolding report
  in_report p = record { at = λ w h. h }

  in_root : Ensures KeptIn require_root (λ u. KeptIn) (λ x. KeptIn)
  unfolding require_root ◌>>=◌
  in_root = record { at = λ w h. ground arith }

  in_ask : (k : Call) → Ensures KeptIn (ask k) (λ u. KeptIn) (λ x. KeptIn)
  unfolding ask
  in_ask k = record { at = λ w h. ground arith }

  in_load : Ensures KeptIn load (λ o w. KeptIn w × (o ≡ some s)) (λ x. KeptIn)
  unfolding load
  in_load = record { at = λ w h. ground arith }

  in_boot :
      Ensures KeptIn
        (answer current_boot (λ w. w.env.boot))
        (λ o w. KeptIn w × (o ≡ e.boot))
        (λ x. KeptIn)
  unfolding answer
  in_boot = record { at = λ w h. ground arith }

  kept :
      {A : Type 0} {Q : A → World → Type 0} {m : M A}
      → Ensures KeptIn m Q (λ x. KeptIn)
      → Ensures KeptIn m Q (Retryable b free c s)
  kept k = Ensures-weaken k (λ w h. h) (λ a w h. h) (λ x w h. inl h.0)

  stop_here :
      (session : BootSession)
      → belongs_to_boot s session ≡ true
      → Ensures KeptIn
          (when belongs_to_boot s session run stop_active c s otherwise cleanup_interrupted s)
          (λ u w. (w.host ≡ b) × (w.file ≡ none))
          (Retryable b free c s)
  stop_here session here =
      Ensures-when (belongs_to_boot s session) (stop_active c s) (cleanup_interrupted s)
        (λ yes_here.
          Ensures-weaken (stop_active-Ensures b free c s) (λ w h. h.0) (λ u w h. h) (λ x w h. h))
        (λ elsewhere. record { at = λ w h. cc })

  stop_existing-Ensures :
      (o : Option State)
      → o ≡ some s
      → belongs_to_boot s e.boot ≡ true
      → Ensures KeptIn
          (stop_existing c o)
          (λ u w. (w.host ≡ b) × (w.file ≡ none))
          (Retryable b free c s)
  stop_existing-Ensures o same here = rw same (
      unfold stop_existing in
      Ensures-bind (kept in_boot) λ session.
        Ensures-given
          λ at_boot. stop_here session (subst (λ x. belongs_to_boot s x ≡ true) (sym at_boot) here))

  pub stop_gateway-Ensures :
      belongs_to_boot s e.boot ≡ true
      → Ensures KeptIn
          (stop_gateway c)
          (λ u w. (w.host ≡ b) × (w.file ≡ none))
          (Retryable b free c s)
  unfolding stop_gateway
  stop_gateway-Ensures here = Ensures-bind (kept (in_report checking_runtime)) λ u.
      Ensures-bind (kept in_root) λ u. Ensures-bind (kept (in_ask stop_prepared)) λ u.
        Ensures-bind (kept in_load)
          λ existing. Ensures-given λ same. stop_existing-Ensures existing same here

-- A stop, in the boot of the start, of a gateway whose state file records all that it has changed
-- of the host `b` leaves `b` and no state file when it returns no error.
pub stop_restores :
    (b : Host) (c : Config) (s : State) (w : World)
    → IsFree b
    → Tracks b s true w.host
    → w.file ≡ some s
    → belongs_to_boot s w.env.boot ≡ true
    → (stop_gateway c w).0 ≡ ok tt
    → ((stop_gateway c w).1.host ≡ b) × ((stop_gateway c w).1.file ≡ none)
stop_restores b c s w free tracks file here done =
    Ensures-ok (stop_gateway-Ensures b free c s w.env here) w ((tracks, file), refl) done

-- Such a stop that returns an error can be tried again: the state file is unchanged and still
-- records all that is left, or the host is already `b`.
pub failed_stop_retryable :
    (b : Host) (c : Config) (s : State) (w : World) (e : Err)
    → IsFree b
    → Tracks b s true w.host
    → w.file ≡ some s
    → belongs_to_boot s w.env.boot ≡ true
    → (stop_gateway c w).0 ≡ err e
    → let w' = (stop_gateway c w).1 in
      (Tracks b s true w'.host × (w'.file ≡ some s)) ⊎ (w'.host ≡ b)
failed_stop_retryable b c s w e free tracks file here failed =
    Ensures-err (stop_gateway-Ensures b free c s w.env here) w ((tracks, file), refl) failed

any_proxy : {b h : Host} {s : State} {t : Bool} → Tracks b s t h → Tracks b s true h
any_proxy k = ground arith

-- A start that returns no error, followed in the same boot by a stop that returns none, under any
-- configuration, gives back every part of the host as it was, and leaves no state file.
pub stop_after_start :
    (c c' : Config) (commits : Bool) (w : World) (s : State)
    → IsFree w.host
    → w.file ≡ none
    → (start_with_commit c commits w).0 ≡ ok tt
    → let w' = (start_with_commit c commits w).1 in
      w'.file ≡ some s
      → belongs_to_boot s w'.env.boot ≡ true
      → (stop_gateway c' w').0 ≡ ok tt
      → ((stop_gateway c' w').1.host ≡ w.host) × ((stop_gateway c' w').1.file ≡ none)
stop_after_start c c' commits w s free nothing started file here stopped =
    let up = start_runs c commits w free nothing started in
    let same : up.state ≡ s = cc (up.running.file) in
    stop_restores w.host c' s (start_with_commit c commits w).1 free
      (subst (λ s. Tracks w.host s true (start_with_commit c commits w).1.host) same
        (any_proxy up.running.tracks))
      file here stopped
