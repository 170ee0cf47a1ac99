-- ===== src/Gateway/Tracking/Network.antt =====
-- The later steps of a start: the IPv6 path, DNS and DHCP, the firewall, and the host's own
-- resolver and proxy.
use opensurge_fnos.Base.{Bool, arith, false, none, not, true, ◌≡◌}
use opensurge_fnos.Exec.{pure, ◌>>=◌, ◌>>◌}
use opensurge_fnos.Exec.Rules.{Ensures, Ensures-bind, Ensures-pure}
use opensurge_fnos.Gateway.Services.{add_alias, fingerprint_of, load_firewall, start_daemon}
use opensurge_fnos.Gateway.Start.Steps.{
  apply_firewall, attempt, identify, require_identity, require_visible, start_dns, start_ipv6,
  wants_dnsmasq,
}
use opensurge_fnos.Gateway.Tracking.{IsFree}
use opensurge_fnos.Gateway.Tracking.Takeover.{
  DnsUp, DnsmasqWaits, EngineUp, FirewallUp, Forwards, Ipv6Runs, Ipv6Up, MihomoRuns, PacketRuns,
  Started, Up, attempt-Undone, attempt-Undone_unless, checked-Up, report-Up, saved-Up,
}
use opensurge_fnos.Gateway.Tracking.Undo.{Undone}
use opensurge_fnos.Gateway.Types.{
  Config, State, applying_firewall, dnsmasq, packet, pf_loaded, starting_dns, starting_ipv6,
}
use opensurge_fnos.Gateway.World.{Host, World, answer, check_context, save}

abbrev pub PacketStarted : State → Host → Type 0
PacketStarted s h =
    MihomoRuns s h
    × DnsmasqWaits s h
    × Forwards s h
    × Started h.packet_process s.pid_packet
    × (s.packet_fingerprint ≡ none)

abbrev pub PacketUp : State → Host → Type 0
PacketUp s h = MihomoRuns s h × DnsmasqWaits s h × Forwards s h × PacketRuns s h

-- The alias is owned before it is added.
abbrev pub AliasIntended : State → Host → Type 0
AliasIntended s h = PacketUp s h × (s.alias_owned ≡ true)

-- Where dnsmasq is not wanted, Start returns PID 0 and nothing runs.
abbrev pub DnsmasqStarted : Bool → State → Host → Type 0
DnsmasqStarted true s h = Started h.dnsmasq_process s.pid_dnsmasq × (s.dnsmasq_fingerprint ≡ none)
DnsmasqStarted false s h =
    (h.dnsmasq_process ≡ none) × (s.pid_dnsmasq ≡ 0) × (s.dnsmasq_fingerprint ≡ none)

abbrev pub DnsStarted : Bool → Bool → State → Host → Type 0
DnsStarted wanted ipv6 s h =
    MihomoRuns s h × Forwards s h × Ipv6Runs ipv6 s h × DnsmasqStarted wanted s h

module _ (b : Host) (free : IsFree b) (c : Config) where
  launched_packet :
      (s : State)
      → Ensures
          (Up b c s s EngineUp)
          (attempt c s false (start_daemon packet true))
          (λ pid. Up b c (record s { pid_packet = pid }) s PacketStarted)
          (Undone b)
  unfolding start_daemon
  launched_packet s = attempt-Undone_unless b free c s (record { at = λ w h. ground arith })

  identified_packet :
      (s f : State)
      → Ensures
          (Up b c s f PacketStarted)
          (attempt c s false (identify packet s.pid_packet))
          (λ found. Up b c (record s { packet_fingerprint = found }) f PacketUp)
          (Undone b)
  unfolding identify fingerprint_of require_identity ◌>>=◌
  identified_packet s f =
      attempt-Undone b free c s false false (record { at = λ w h. ground arith }) (λ e. e)

  intended_alias :
      (s : State)
      → Ensures
          (Up b c s s PacketUp)
          (attempt c
            (record s { alias_owned = true })
            false
            (save (record s { alias_owned = true })))
          (λ u.
            Up b c
              (record s { alias_owned = true })
              (record s { alias_owned = true })
              AliasIntended)
          (Undone b)
  unfolding save
  intended_alias s =
      attempt-Undone b free c (record s { alias_owned = true }) false false
        (record { at = λ w h. ground arith }) (λ e. e)

  added_alias :
      (s : State)
      → Ensures
          (Up b c s s AliasIntended)
          (attempt c s false add_alias)
          (λ u. Up b c s s (Ipv6Up true))
          (Undone b)
  unfolding add_alias
  added_alias s =
      attempt-Undone b free c s false false (record { at = λ w h. ground arith }) (λ e. e)

  with_alias :
      (s : State)
      → Ensures
          (Up b c s s PacketUp)
          (do
            attempt c
                (record s { alias_owned = true })
                false
                (save (record s { alias_owned = true }))
            attempt c (record s { alias_owned = true }) false check_context
            attempt c (record s { alias_owned = true }) false add_alias
            pure (record s { alias_owned = true }))
          (λ s. Up b c s s (Ipv6Up true))
          (Undone b)
  with_alias s =
      let s' : State = record s { alias_owned = true } in
      Ensures-bind (intended_alias s) λ u.
        Ensures-bind (checked-Up b free c s' s')
          λ u. Ensures-bind (added_alias s') λ u. Ensures-pure _ s' (λ w h. h)

  pub start_ipv6-Up :
      (ipv6 : Bool) (s : State)
      → Ensures
          (Up b c s s EngineUp)
          (start_ipv6 c ipv6 s)
          (λ s. Up b c s s (Ipv6Up ipv6))
          (Undone b)
  unfolding start_ipv6
  start_ipv6-Up false s = record { at = λ w h. ground arith }
  start_ipv6-Up true s = Ensures-bind (report-Up b free c s s starting_ipv6) λ u.
      Ensures-bind (checked-Up b free c s s) λ u. Ensures-bind (launched_packet s) λ pid.
        Ensures-bind (identified_packet (record s { pid_packet = pid }) s) λ found.
          Ensures-bind
            (saved-Up b free c (record s { pid_packet = pid; packet_fingerprint = found }) s)
            λ u. with_alias (record s { pid_packet = pid; packet_fingerprint = found })

  launched_dns :
      (wanted ipv6 : Bool) (s : State)
      → Ensures
          (Up b c s s (Ipv6Up ipv6))
          (attempt c s false (start_daemon dnsmasq wanted))
          (λ pid. Up b c (record s { pid_dnsmasq = pid }) s (DnsStarted wanted ipv6))
          (Undone b)
  unfolding start_daemon
  launched_dns true true s = attempt-Undone_unless b free c s (record { at = λ w h. ground arith })
  launched_dns _ _ s = attempt-Undone_unless b free c s (record { at = λ w h. ground arith })

  identified_dns :
      (wanted ipv6 : Bool) (s f : State)
      → Ensures
          (Up b c s f (DnsStarted wanted ipv6))
          (attempt c s false (identify dnsmasq s.pid_dnsmasq))
          (λ found. Up b c (record s { dnsmasq_fingerprint = found }) f (DnsUp wanted ipv6))
          (Undone b)
  unfolding identify fingerprint_of require_identity ◌>>=◌
  identified_dns true true s f =
      attempt-Undone b free c s false false (record { at = λ w h. ground arith }) (λ e. e)
  identified_dns _ _ s f =
      attempt-Undone b free c s false false (record { at = λ w h. ground arith }) (λ e. e)

  pub start_dns-Up :
      (ipv6 : Bool) (s : State)
      → Ensures
          (Up b c s s (Ipv6Up ipv6))
          (start_dns c s)
          (λ s. Up b c s s (DnsUp (wants_dnsmasq c) ipv6))
          (Undone b)
  unfolding start_dns
  start_dns-Up ipv6 s = Ensures-bind (report-Up b free c s s starting_dns) λ u.
      Ensures-bind (checked-Up b free c s s) λ u.
        Ensures-bind (launched_dns (wants_dnsmasq c) ipv6 s) λ pid.
          Ensures-bind (identified_dns (wants_dnsmasq c) ipv6 (record s { pid_dnsmasq = pid }) s)
            λ found.
              Ensures-bind
                (saved-Up b free c (record s { pid_dnsmasq = pid; dnsmasq_fingerprint = found }) s)
                λ u.
                  Ensures-pure _ (record s { pid_dnsmasq = pid; dnsmasq_fingerprint = found })
                    (λ w h. h)

  loaded-Up :
      (wanted ipv6 : Bool) (s : State)
      → Ensures
          (Up b c s s (DnsUp wanted ipv6))
          (attempt c s false (load_firewall (not s.pf_enabled_before)))
          (λ u. Up b c (record s { pf_anchor_loaded = true }) s (FirewallUp wanted ipv6))
          (Undone b)
  unfolding load_firewall
  loaded-Up true true s = attempt-Undone_unless b free c s (record { at = λ w h. ground arith })
  loaded-Up _ _ s = attempt-Undone_unless b free c s (record { at = λ w h. ground arith })

  visible-Up :
      {Reached : State → Host → Type 0} (s f : State) (loaded : Bool)
      → Ensures
          (Up b c s f Reached)
          (attempt c s false (require_visible loaded))
          (λ u. Up b c s f Reached)
          (Undone b)
  unfolding require_visible
  visible-Up s f loaded =
      attempt-Undone b free c s false false (record { at = λ w h. ground arith }) (λ e. e)

  asked-Up :
      {Reached : State → Host → Type 0} (s f : State) (g : World → Bool)
      → Ensures
          (Up b c s f Reached)
          (attempt c s false (answer pf_loaded g))
          (λ u. Up b c s f Reached)
          (Undone b)
  unfolding answer
  asked-Up s f g =
      attempt-Undone b free c s false false (record { at = λ w h. ground arith }) (λ e. e)

  pub apply_firewall-Up :
      (wanted ipv6 : Bool) (s : State)
      → Ensures
          (Up b c s s (DnsUp wanted ipv6))
          (apply_firewall c s)
          (λ s. Up b c s s (FirewallUp wanted ipv6))
          (Undone b)
  unfolding apply_firewall
  apply_firewall-Up wanted ipv6 s =
      let s' : State = record s { pf_anchor_loaded = true } in
      Ensures-bind (report-Up b free c s s applying_firewall) λ u.
        Ensures-bind (checked-Up b free c s s) λ u. Ensures-bind (loaded-Up wanted ipv6 s) λ u.
          Ensures-bind (asked-Up s' s (λ w. w.env.flag w.tick)) λ loaded.
            Ensures-bind (visible-Up s' s loaded)
              λ u. Ensures-bind (saved-Up b free c s' s) λ u. Ensures-pure _ s' (λ w h. h)
