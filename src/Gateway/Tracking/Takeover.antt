-- ===== src/Gateway/Tracking/Takeover.antt =====
-- Every step of a start either goes on with a host that the state file records, or rolls back.
use opensurge_fnos.Base.{Bool, Option, arith, false, is_some, none, refl, some, true, ℕ, ◌<◌, ◌≡◌}
use opensurge_fnos.Exec.{◌>>=◌}
use opensurge_fnos.Exec.Rules.{Ensures, Ensures-bind, Ensures-or_else, Ensures-pure, Ensures-weaken}
use opensurge_fnos.Gateway.Rollback.{rollback}
use opensurge_fnos.Gateway.Services.{enable_forwarding, fingerprint_of, start_daemon}
use opensurge_fnos.Gateway.Start.Steps.{
  attempt, identify, require_identity, start_engine, start_forwarding,
}
use opensurge_fnos.Gateway.Tracking.{IsFree, Tracks}
use opensurge_fnos.Gateway.Tracking.Rollback.{rollback-Undone, rollback_missed}
use opensurge_fnos.Gateway.Tracking.Undo.{Undone, cleanup_missed}
use opensurge_fnos.Gateway.Types.{
  Config, Err, Fingerprint, Phase, State, enabling_forwarding, manage_system_dns, mihomo,
  starting_mihomo,
}
use opensurge_fnos.Gateway.World.{Host, M, Process, World, check_context, report, save}

-- A daemon that runs under the identity that the state records.
abbrev pub Runs : Option Process → ℕ → Fingerprint → Type 0
Runs none pid digest = ⊥
Runs (some p) pid digest = (p.pid ≡ pid) × (0 < pid) × (digest ≡ some p.digest)

abbrev pub MihomoRuns : State → Host → Type 0
MihomoRuns s h = Runs h.mihomo_process s.pid_mihomo s.mihomo_fingerprint

abbrev pub DnsmasqRuns : State → Host → Type 0
DnsmasqRuns s h = Runs h.dnsmasq_process s.pid_dnsmasq s.dnsmasq_fingerprint

abbrev pub PacketRuns : State → Host → Type 0
PacketRuns s h = Runs h.packet_process s.pid_packet s.packet_fingerprint

-- A daemon that runs and has not been identified.
abbrev pub Started : Option Process → ℕ → Type 0
Started none pid = ⊥
Started (some p) pid = (p.pid ≡ pid) × (0 < pid)

-- A daemon that has not been started.
abbrev pub Waits : Option Process → Fingerprint → Type 0
Waits o digest = (o ≡ none) × (digest ≡ none)

abbrev pub MihomoWaits : State → Host → Type 0
MihomoWaits s h = Waits h.mihomo_process s.mihomo_fingerprint

abbrev pub DnsmasqWaits : State → Host → Type 0
DnsmasqWaits s h = Waits h.dnsmasq_process s.dnsmasq_fingerprint

abbrev pub PacketWaits : State → Host → Type 0
PacketWaits s h = Waits h.packet_process s.packet_fingerprint

abbrev pub Forwards : State → Host → Type 0
Forwards s h = h.forwarding ≡ 1

abbrev pub Prepared : State → Host → Type 0
Prepared s h = MihomoWaits s h × DnsmasqWaits s h × PacketWaits s h

abbrev pub ForwardingUp : State → Host → Type 0
ForwardingUp s h = Prepared s h × Forwards s h

abbrev pub EngineStarted : State → Host → Type 0
EngineStarted s h =
    Started h.mihomo_process s.pid_mihomo
    × (s.mihomo_fingerprint ≡ none)
    × DnsmasqWaits s h
    × PacketWaits s h
    × Forwards s h

abbrev pub EngineUp : State → Host → Type 0
EngineUp s h = MihomoRuns s h × DnsmasqWaits s h × PacketWaits s h × Forwards s h

-- With the IPv6 path, the packet broker runs and the alias is set.
abbrev pub Ipv6Runs : Bool → State → Host → Type 0
Ipv6Runs true s h = PacketRuns s h × (h.alias ≡ true)
Ipv6Runs false s h = Unit

abbrev pub Ipv6Up : Bool → State → Host → Type 0
Ipv6Up ipv6 s h = MihomoRuns s h × DnsmasqWaits s h × Forwards s h × Ipv6Runs ipv6 s h

-- Where dnsmasq is wanted, it runs.
abbrev pub DnsmasqIfWanted : Bool → State → Host → Type 0
DnsmasqIfWanted true s h = DnsmasqRuns s h
DnsmasqIfWanted false s h = Unit

abbrev pub DnsUp : Bool → Bool → State → Host → Type 0
DnsUp wanted ipv6 s h =
    MihomoRuns s h × Forwards s h × Ipv6Runs ipv6 s h × DnsmasqIfWanted wanted s h

abbrev pub FirewallUp : Bool → Bool → State → Host → Type 0
FirewallUp wanted ipv6 s h = DnsUp wanted ipv6 s h × (h.anchor ≡ true) × (h.firewall ≡ true)

-- The host is recorded in `s`, the state file holds `f`, and the stage is reached.
pub record Up (b : Host) (c : Config) (s f : State) (Reached : State → Host → Type 0) (w : World)
    : Type 0 where
  pub tracks : Tracks b s false w.host
  pub file : w.file ≡ some f
  pub reached : Reached s w.host
  pub managed :
      (is_some s.system_dns ≡ manage_system_dns c)
      × (is_some s.system_proxy ≡ c.system_proxy_enabled)

module _ (b : Host) (free : IsFree b) (c : Config) where
  undone_unless :
      {A : Type 0} (s : State) (t restore : Bool) (e : Err) (missed : Bool)
      → cleanup_missed e ≡ missed
      → (t ≡ true → restore ≡ true)
      → Ensures
          (λ w. cleanup_missed e ≡ false → Tracks b s t w.host)
          (rollback {A = A} c s restore e)
          (λ a w. ⊥)
          (Undone b)
  undone_unless s t restore e true missed enough =
      Ensures-weaken (rollback_missed b free c s t none restore e missed) (λ w h. tt) (λ a w h. h)
        (λ e w h. h)
  undone_unless s t restore e false clean enough = record {
    at = λ w h. (rollback-Undone b free c s t w.file restore e enough).at w (h clean, refl);
  }

  -- A step of which the state tracks what a failure leaves, unless its cleanup was missed.
  pub attempt-Undone_unless :
      {A : Type 0} {P : World → Type 0} {Q : A → World → Type 0} {m : M A} (s : State)
      → Ensures P m Q (λ e w. cleanup_missed e ≡ false → Tracks b s false w.host)
      → Ensures P (attempt c s false m) Q (Undone b)
  unfolding attempt
  attempt-Undone_unless s k = Ensures-or_else {h = rollback c s false} k (λ e.
      Ensures-weaken (undone_unless s false false e (cleanup_missed e) refl (λ x. x)) (λ w h. h)
        (λ a w h. absurd h) (λ e w h. h))

  pub attempt-Undone :
      {A : Type 0} {P : World → Type 0} {Q : A → World → Type 0} {m : M A} (s : State) (t : Bool)
      (restore : Bool)
      → Ensures P m Q (λ e w. Tracks b s t w.host)
      → (t ≡ true → restore ≡ true)
      → Ensures P (attempt c s restore m) Q (Undone b)
  unfolding attempt
  attempt-Undone {A} {m} s t restore k enough = Ensures-or_else {h = rollback c s restore} k (λ e.
      record {
        at = λ w h.
            (Ensures-weaken (rollback-Undone b free c s t w.file {A = A} restore e enough)
                (λ w h. h) (λ a w h. absurd h) (λ e w h. h)).at
              w (h, refl);
      })

  pub report-Up :
      {Reached : State → Host → Type 0} {X : Err → World → Type 0} (s f : State) (p : Phase)
      → Ensures (Up b c s f Reached) (report p) (λ u. Up b c s f Reached) X
  unfolding report
  report-Up s f p = record {
    at = λ w h. record {
      tracks = h.tracks;
      file = h.file;
      reached = h.reached;
      managed = h.managed;
    };
  }

  pub checked-Up :
      {Reached : State → Host → Type 0} (s f : State)
      → Ensures
          (Up b c s f Reached)
          (attempt c s false check_context)
          (λ u. Up b c s f Reached)
          (Undone b)
  unfolding check_context
  checked-Up s f = attempt-Undone s false false (record { at = λ w h. ground arith }) (λ e. e)

  pub saved-Up :
      {Reached : State → Host → Type 0} (s f : State)
      → Ensures
          (Up b c s f Reached)
          (attempt c s false (save s))
          (λ u. Up b c s s Reached)
          (Undone b)
  unfolding save
  saved-Up s f = attempt-Undone s false false (record { at = λ w h. ground arith }) (λ e. e)

  pub start_forwarding-Up :
      (s : State)
      → Ensures
          (Up b c s s Prepared)
          (start_forwarding c s)
          (λ s. Up b c s s ForwardingUp)
          (Undone b)
  unfolding start_forwarding enable_forwarding
  start_forwarding-Up s = Ensures-bind (report-Up s s enabling_forwarding) λ u.
      Ensures-bind (checked-Up s s) λ u.
        Ensures-bind
          (attempt-Undone {Q = λ u. Up b c s s ForwardingUp} s false false
            (record { at = λ w h. ground arith }) (λ e. e))
          λ u. Ensures-pure _ s (λ w h. h)

  launched-Up :
      (s : State)
      → Ensures
          (Up b c s s ForwardingUp)
          (attempt c s false (start_daemon mihomo true))
          (λ pid. Up b c (record s { pid_mihomo = pid }) s EngineStarted)
          (Undone b)
  unfolding start_daemon
  launched-Up s = attempt-Undone_unless s (record { at = λ w h. ground arith })

  identified-Up :
      (s f : State)
      → Ensures
          (Up b c s f EngineStarted)
          (attempt c s false (identify mihomo s.pid_mihomo))
          (λ found. Up b c (record s { mihomo_fingerprint = found }) f EngineUp)
          (Undone b)
  unfolding identify fingerprint_of require_identity ◌>>=◌
  identified-Up s f = attempt-Undone s false false (record { at = λ w h. ground arith }) (λ e. e)

  pub start_engine-Up :
      (s : State)
      → Ensures (Up b c s s ForwardingUp) (start_engine c s) (λ s. Up b c s s EngineUp) (Undone b)
  unfolding start_engine
  start_engine-Up s = Ensures-bind (report-Up s s starting_mihomo) λ u.
      Ensures-bind (checked-Up s s) λ u. Ensures-bind (launched-Up s) λ pid.
        Ensures-bind (identified-Up (record s { pid_mihomo = pid }) s) λ found.
          Ensures-bind (saved-Up (record s { pid_mihomo = pid; mihomo_fingerprint = found }) s) λ u.
            Ensures-pure _ (record s { pid_mihomo = pid; mihomo_fingerprint = found }) (λ w h. h)
