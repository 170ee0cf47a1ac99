-- ===== src/Gateway/Tracking/Start.antt =====
-- A whole start: all of the gateway runs and is recorded, or the host is as it was before.
use opensurge_fnos.Base.{
  Bool, Option, ap, arith, false, inl, inr, is_some, none, refl, some, subst, sym, ℕ, ◌∙◌, ◌≡◌, ◌⊎◌,
}
use opensurge_fnos.Exec.{raise, ◌>>◌}
use opensurge_fnos.Exec.Rules.{
  Ensures, Ensures-bind, Ensures-given, Ensures-or_else, Ensures-pure, Ensures-raise,
  Ensures-weaken,
}
use opensurge_fnos.Gateway.Quiet.{
  Quiet, Quiet-answer, Quiet-ask, Quiet-bind, Quiet-observe, Quiet-pure, Quiet-report, quiet_rules,
}
use opensurge_fnos.Gateway.Start.{start_with_commit, takeover}
use opensurge_fnos.Gateway.Start.Plan.{
  Plan, commit_candidate, initial_state, record_runtime, save_or_withdraw, write_policy,
}
use opensurge_fnos.Gateway.Start.Steps.{take_system_dns, take_system_proxy, wants_dnsmasq}
use opensurge_fnos.Gateway.Tracked.{collect}
use opensurge_fnos.Gateway.Tracking.{IsFree, Tracks}
use opensurge_fnos.Gateway.Tracking.Network.{apply_firewall-Up, start_dns-Up, start_ipv6-Up}
use opensurge_fnos.Gateway.Tracking.Plan.{Fits, Serves-managed, prepare_start-Fits}
use opensurge_fnos.Gateway.Tracking.Running.{
  IsRunning, dns_for-Up, last_check, proxy_for-IsRunning, warmed-IsRunning,
}
use opensurge_fnos.Gateway.Tracking.Takeover.{Prepared, Up, start_engine-Up, start_forwarding-Up}
use opensurge_fnos.Gateway.Tracking.Undo.{Undone, cleanup_missed}
use opensurge_fnos.Gateway.Tracking.Validated.{
  Serves, Untouched, quiet, validate_start-Serves, wants_ipv6,
}
use opensurge_fnos.Gateway.Types.{
  Bundle, Call, Config, Err, State, fault, manage_system_dns, pf_enabled, remove_snapshot,
  save_state, sysctl_current,
}
use opensurge_fnos.Gateway.World.{Host, M, World, answer, ask, save}

-- The host is as before the start. A state file is left only where the first save of it failed
-- and had written it; it then records a host with nothing to undo.
abbrev pub Restored : Host → Err → World → Type 0
Restored b e w =
    (w.host ≡ b)
    × ((w.file ≡ none)
        ⊎ ((s : State) × (e ≡ fault (save_state s)) × (w.file ≡ some s) × Tracks b s false b))

abbrev pub StartFailed : Host → Err → World → Type 0
StartFailed b e w = cleanup_missed e ≡ false → Restored b e w

-- The gateway runs under a configuration that keeps what `c` asks for, with the IPv6 path where a
-- start from `v` has to bring it up.
pub record IsStarted (b : Host) (c : Config) (v w : World) : Type 0 where
  pub applied : Config
  pub serves : Serves c applied
  pub state : State
  pub running : IsRunning b applied (wants_dnsmasq applied) (wants_ipv6 c.tun_ipv6 v) state w

module _ (b : Host) (free : IsFree b) where
  failed : (e : Err) (w : World) → Undone b e w → StartFailed b e w
  failed e w h r = ((h r).0, inl (h r).1)

  Quiet-write_policy : (o : Option Bundle) → Quiet (write_policy o)
  unfolding write_policy
  Quiet-write_policy none = Quiet-pure tt
  Quiet-write_policy (some p) = Quiet-bind (Quiet-ask _) (λ u. Quiet-ask _)

  read_host :
      {A : Type 0} (k : Call) (f : Host → A)
      → Ensures
          (Untouched b)
          (answer k (λ w. f w.host))
          (λ a w. Untouched b w × (a ≡ f b))
          (StartFailed b)
  unfolding answer
  read_host k f = record { at = λ w h. ground arith }

  -- What a failed save leaves: nothing, or the whole file.
  abbrev SaveFailed : State → Err → World → Type 0
  SaveFailed s e w =
      (w.host ≡ b) × ((w.file ≡ none) ⊎ ((e ≡ fault (save_state s)) × (w.file ≡ some s)))

  saved_or_not :
      (s : State)
      → Ensures (Untouched b) (save s) (λ u w. (w.host ≡ b) × (w.file ≡ some s)) (SaveFailed s)
  unfolding save
  saved_or_not s = record { at = λ w h. ground arith }

  withdrawn :
      (s : State) (e : Err)
      → Tracks b s false b
      → Ensures
          (SaveFailed s e)
          (do collect none (ask remove_snapshot); raise {A = Unit {0}} e)
          (λ u w. (w.host ≡ b) × (w.file ≡ some s))
          (StartFailed b)
  withdrawn s e t =
      Ensures-bind {Q = λ acc. SaveFailed s e} {m = collect none (ask remove_snapshot)}
        (unfold collect ask in record { at = λ w h. ground arith })
        λ acc.
          Ensures-raise _ e (λ w h r.
            (h.0, elim h.1 [ inl gone ↦ inl gone | inr left ↦ inr (s, left.0, left.1, t) ]))

  -- The initial state records a free host with nothing to undo.
  initial-Tracks :
      (c : Config) (plan : Plan) (before : ℕ) (enabled : Bool) (profile now : ℕ)
      → before ≡ b.forwarding
      → enabled ≡ b.firewall
      → Fits b c plan
      → let s = initial_state plan before enabled profile now in Tracks b s false b × Prepared s b
  unfolding initial_state
  initial-Tracks c plan before enabled profile now f p fits = ground arith

  first_save :
      (c : Config) (s : State)
      → Tracks b s false b × Prepared s b
      → (is_some s.system_dns ≡ manage_system_dns c)
        × (is_some s.system_proxy ≡ c.system_proxy_enabled)
      → Ensures (Untouched b) (save_or_withdraw s) (λ u. Up b c s s Prepared) (StartFailed b)
  unfolding save_or_withdraw
  first_save c s t m =
      Ensures-weaken
        (Ensures-or_else {h = λ e. do collect none (ask remove_snapshot); raise e} (saved_or_not s)
          (λ e. withdrawn s e t.0))
        (λ w h. h) (λ u w h. recorded w h.0 h.1) (λ e w h. h)
    where
      recorded : (w : World) → w.host ≡ b → w.file ≡ some s → Up b c s s Prepared w
      recorded w same file = record {
        tracks = rw same t.0;
        file = file;
        reached = rw same t.1;
        managed = m;
      }

  fitted_managed :
      (c : Config) (plan : Plan)
      → Fits b c plan
      → (is_some plan.dns_snapshot ≡ manage_system_dns plan.config)
        × (is_some plan.proxy_snapshot ≡ plan.config.system_proxy_enabled)
  fitted_managed c plan fits = (
    fits.dns_managed ∙ sym (Serves-managed b c plan.config fits.serves),
    fits.proxy_managed ∙ sym fits.serves.proxy_enabled,
  )

  record_runtime-Up :
      (c : Config) (plan : Plan)
      → Fits b c plan
      → Ensures
          (Untouched b)
          (record_runtime plan)
          (λ s. Up b plan.config s s Prepared)
          (StartFailed b)
  unfolding record_runtime
  record_runtime-Up c plan fits = Ensures-bind (silent (Quiet-report _)) λ u.
      Ensures-bind (read_host sysctl_current (λ h. h.forwarding)) λ before. Ensures-given λ f.
        Ensures-bind (read_host pf_enabled (λ h. h.firewall)) λ enabled. Ensures-given λ p.
          Ensures-bind (silent (Quiet-answer _ _)) λ profile.
            Ensures-bind (silent (Quiet-write_policy plan.config.bundle)) λ u.
              Ensures-bind (silent (Quiet-observe _ _)) λ now.
                let s : State = initial_state plan before enabled profile now in
                Ensures-bind
                  (first_save plan.config s
                    (initial-Tracks c plan before enabled profile now f p fits)
                    (unfold initial_state in fitted_managed c plan fits))
                  λ u. Ensures-pure _ s (λ w h. h)
    where
      silent :
          {A : Type 0} {m : M A}
          → Quiet m
          → Ensures (Untouched b) m (λ a. Untouched b) (StartFailed b)
      silent k = Ensures-weaken (quiet b k) (λ w h. h) (λ a w h. h) failed

  takeover-IsRunning :
      (c : Config) (ipv6 : Bool) (s : State)
      → Ensures
          (Up b c s s Prepared)
          (takeover c ipv6 s)
          (λ s. IsRunning b c (wants_dnsmasq c) ipv6 s)
          (Undone b)
  unfolding takeover take_system_dns take_system_proxy
  takeover-IsRunning c ipv6 s = Ensures-bind (start_forwarding-Up b free c s) λ s.
      Ensures-bind (start_engine-Up b free c s) λ s.
        Ensures-bind (start_ipv6-Up b free c ipv6 s) λ s.
          Ensures-bind (start_dns-Up b free c ipv6 s) λ s.
            Ensures-bind (apply_firewall-Up b free c (wants_dnsmasq c) ipv6 s) λ s.
              Ensures-bind (dns_for-Up b free c (wants_dnsmasq c) ipv6 s s.system_dns refl) λ s.
                Ensures-bind
                  (proxy_for-IsRunning b free c (wants_dnsmasq c) ipv6 s s.system_proxy refl)
                  λ u. Ensures-bind (warmed-IsRunning b free c (wants_dnsmasq c) ipv6 s) λ u.
                    Ensures-bind (last_check b free c (wants_dnsmasq c) ipv6 s)
                      λ u. Ensures-pure _ s (λ w h. h)

  Quiet-commit_candidate : (commits : Bool) → Quiet (commit_candidate commits)
  unfolding commit_candidate
  Quiet-commit_candidate commits = search quiet_rules depth 8

  -- A start of a free host either has the whole gateway running and recorded, or returns an error;
  -- unless that error asks for recovery, the host is as it was before.
  pub start-IsStarted :
      (c : Config) (commits : Bool) (v : World)
      → Ensures
          (λ w. Untouched b w × (w ≡ v))
          (start_with_commit c commits)
          (λ u. IsStarted b c v)
          (StartFailed b)
  unfolding start_with_commit
  start-IsStarted c commits v = Ensures-bind (undone (validate_start-Serves b c v)) λ valid.
      Ensures-given λ good. Ensures-bind (undone (prepare_start-Fits b c valid good.0)) λ plan.
        Ensures-given λ (fits, same).
          Ensures-bind (undone (quiet b (Quiet-commit_candidate commits))) λ u.
            Ensures-bind (record_runtime-Up c plan fits) λ s.
              Ensures-bind (undone (takeover-IsRunning plan.config plan.resolution.effective s))
                λ s. Ensures-pure _ tt λ w h. record {
                  applied = plan.config;
                  serves = fits.serves;
                  state = s;
                  running =
                      subst (λ on. IsRunning b plan.config (wants_dnsmasq plan.config) on s w)
                        (ap (λ r. r.effective) same ∙ good.1) h;
                }
    where
      undone :
          {A : Type 0} {P : World → Type 0} {Q : A → World → Type 0} {m : M A}
          → Ensures P m Q (Undone b)
          → Ensures P m Q (StartFailed b)
      undone k = Ensures-weaken k (λ w h. h) (λ a w h. h) failed
