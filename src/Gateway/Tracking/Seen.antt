-- ===== src/Gateway/Tracking/Seen.antt =====
-- Looking at a tracked process keeps the state's record: a process that it finds ended is forgotten.
use opensurge_fnos.Base.{Bool, Option, arith, false, inl, inr, none, refl, some, ℕ, ◌≡◌, ◌⊎◌}
use opensurge_fnos.Exec.{pure}
use opensurge_fnos.Exec.Rules.{
  After, Ensures, Ensures-bind, Ensures-or_else, Ensures-pure, Ensures-when,
}
use opensurge_fnos.Gateway.Services.{
  forget, process_matches, process_running, set_slot, slot, unless_pid, unless_same,
}
use opensurge_fnos.Gateway.Tracked.{both_running, tracked_running}
use opensurge_fnos.Gateway.Tracking.{Tracks}
use opensurge_fnos.Gateway.Tracking.Stops.{Kept, Never}
use opensurge_fnos.Gateway.Types.{
  Daemon, Fingerprint, State, dnsmasq, matches, mihomo, packet, running,
}
use opensurge_fnos.Gateway.World.{Env, Host, Process, World, called}

ended_pid : (pid : ℕ) (o : Option Process) → (unless_pid pid o ≡ none) ⊎ (unless_pid pid o ≡ o)
unfolding unless_pid
ended_pid pid none = inl refl
ended_pid pid (some p) = ground arith

ended_same :
    (pid digest : ℕ) (o : Option Process)
    → (unless_same pid digest o ≡ none) ⊎ (unless_same pid digest o ≡ o)
unfolding unless_same
ended_same pid digest none = inl refl
ended_same pid digest (some p) = ground arith

running_cases :
    (P : World → Type 0) (d : Daemon) (pid : ℕ) (w : World)
    → P (called (running d pid) w)
    → P (called (running d pid) (record w { host = forget d pid w.host }))
    → After (λ a. P) Never (process_running d pid w).0 (process_running d pid w).1
unfolding process_running
running_cases P d pid w same ended = ground arith

matches_cases :
    (P : World → Type 0) (d : Daemon) (pid digest : ℕ) (w : World)
    → P (called (matches d pid) w)
    → P (
        called
          (matches d pid)
          (record w { host = set_slot d (unless_same pid digest (slot d w.host)) w.host }))
    → After (λ a. P) (λ x. P) (process_matches d pid digest w).0 (process_matches d pid digest w).1
unfolding process_matches
matches_cases P d pid digest w same ended = ground arith

module _ (b : Host) (s : State) (t : Bool) (f : Option State) (e : Env) where
  vanished-Tracks :
      (d : Daemon) (h : Host) (o : Option Process)
      → Tracks b s t h
      → (o ≡ none) ⊎ (o ≡ slot d h)
      → Tracks b s t (set_slot d o h)
  vanished-Tracks mihomo h o k (inl gone) = rw gone (ground arith)
  vanished-Tracks dnsmasq h o k (inl gone) = rw gone (ground arith)
  vanished-Tracks packet h o k (inl gone) = rw gone (ground arith)
  vanished-Tracks mihomo h o k (inr same) = rw same (ground arith)
  vanished-Tracks dnsmasq h o k (inr same) = rw same (ground arith)
  vanished-Tracks packet h o k (inr same) = rw same (ground arith)

  abbrev SeenBefore : World → Type 0
  SeenBefore w = Kept b s t f w × (w.env ≡ e)

  running-Kept :
      (d : Daemon) (pid : ℕ) → Ensures SeenBefore (process_running d pid) (λ a. SeenBefore) Never
  unfolding forget
  running-Kept d pid = record {
    at = λ w h.
        running_cases SeenBefore d pid w h
          ((vanished-Tracks d w.host _ h.0.0 (ended_pid pid (slot d w.host)), h.0.1), h.1);
  }

  matches-Kept :
      (d : Daemon) (pid digest : ℕ)
      → Ensures SeenBefore (process_matches d pid digest) (λ a. SeenBefore) (λ x. SeenBefore)
  matches-Kept d pid digest = record {
    at = λ w h.
        matches_cases SeenBefore d pid digest w h
          ((vanished-Tracks d w.host _ h.0.0 (ended_same pid digest (slot d w.host)), h.0.1), h.1);
  }

  pub tracked_running-Kept :
      (d : Daemon) (pid : ℕ) (o : Fingerprint)
      → Ensures SeenBefore (tracked_running d pid o) (λ a. SeenBefore) Never
  unfolding tracked_running both_running
  tracked_running-Kept d pid none = running-Kept d pid
  tracked_running-Kept d pid (some digest) =
      Ensures-bind
        (Ensures-or_else {h = λ e. pure false} (matches-Kept d pid digest)
          λ x. Ensures-pure _ false (λ w h. h))
        λ same.
          Ensures-when same _ _ (λ _. running-Kept d pid) (λ _. Ensures-pure _ false (λ w h. h))
