-- ===== src/Gateway/Tracking/Stops.antt =====
-- The cleanup actions keep the state's record of the host, and add a stage when they succeed.
use opensurge_fnos.Base.{Bool, Option, arith, false, none, not, some, true, ◌&&◌, ◌==◌, ◌||◌, ◌≡◌}
use opensurge_fnos.Exec.{Result, err, ok, pure, when◌run◌otherwise◌, ◌>>=◌}
use opensurge_fnos.Exec.Rules.{After, Ensures, Ensures-bind, Ensures-weaken, Ensures-when}
use opensurge_fnos.Gateway.Services.{restore_forwarding, unload_firewall}
use opensurge_fnos.Gateway.Tracked.{
  applied_config, cleanup_ipv6, collect, merge, raise_some, remove_owned_alias, stop_packet,
  stop_tracked,
}
use opensurge_fnos.Gateway.Tracking.{
  AllBack, DnsmasqBack, FirewallBack, Ipv6Back, MihomoBack, ProxyBack, Tracks,
}
use opensurge_fnos.Gateway.Types.{Config, Err, State, dnsmasq, mihomo, withdraw}
use opensurge_fnos.Gateway.World.{Host, M, World, ask}

-- The host is recorded, the state file is `f`, and without an error so far it has reached `Back`.
pub record Stage (b : Host) (s : State) (t : Bool) (f : Option State) (Back : Host → Host → Type 0)
    (acc : Option Err) (w : World) : Type 0 where
  pub tracks : Tracks b s t w.host
  pub file : w.file ≡ f
  pub back : acc ≡ none → Back b w.host

abbrev pub Never : Err → World → Type 0
Never e w = ⊥

-- What holds on every error path: the host is still recorded and the state file is `f`.
abbrev pub Kept : Host → State → Bool → Option State → World → Type 0
Kept b s t f w = Tracks b s t w.host × (w.file ≡ f)

module _ {b : Host} {s : State} {t : Bool} {f : Option State} {Back : Host → Host → Type 0} where
  merge-After :
      {A : Type 0} (acc : Option Err) (r : Result Err A) (w : World)
      → After (λ a. Stage b s t f Back acc) (λ e. Kept b s t f) r w
      → Stage b s t f Back (merge acc r) w
  merge-After acc (ok a) w h = h
  merge-After none (err e) w h = record { tracks = h.0; file = h.1; back = λ p. cc }
  merge-After (some x) (err e) w h = record { tracks = h.0; file = h.1; back = λ p. cc }

  pub collect-Stage :
      {A : Type 0} {P : World → Type 0} {m : M A} (acc : Option Err)
      → Ensures P m (λ a. Stage b s t f Back acc) (λ e. Kept b s t f)
      → Ensures P (collect acc m) (Stage b s t f Back) Never
  unfolding collect
  collect-Stage {m} acc k = record { at = λ w p. merge-After acc (m w).0 (m w).1 (k.at w p) }

module _ (b : Host) (s : State) (t : Bool) (f : Option State) where
  pub dnsmasq-Stage :
      (acc : Option Err)
      → Ensures
          (Stage b s t f ProxyBack acc)
          (collect acc (stop_tracked dnsmasq s.pid_dnsmasq s.dnsmasq_fingerprint))
          (Stage b s t f DnsmasqBack)
          Never
  unfolding collect stop_tracked ◌>>=◌
  dnsmasq-Stage acc = record { at = λ w h. ground arith }

  pub mihomo-Stage :
      (acc : Option Err)
      → Ensures
          (Stage b s t f Ipv6Back acc)
          (collect acc (stop_tracked mihomo s.pid_mihomo s.mihomo_fingerprint))
          (Stage b s t f MihomoBack)
          Never
  unfolding collect stop_tracked ◌>>=◌
  mihomo-Stage acc = record { at = λ w h. ground arith }

  pub firewall-Stage :
      (acc : Option Err)
      → Ensures
          (Stage b s t f MihomoBack acc)
          (when s.pf_anchor_loaded
            run collect acc (unload_firewall (not s.pf_enabled_before))
            otherwise pure acc)
          (Stage b s t f FirewallBack)
          Never
  unfolding collect unload_firewall
  firewall-Stage acc =
      Ensures-when s.pf_anchor_loaded _ _ (λ loaded. record { at = λ w h. ground arith })
        (λ unloaded. record { at = λ w h. ground arith })

  pub forwarding-Stage :
      (acc : Option Err)
      → Ensures
          (Stage b s t f FirewallBack acc)
          (collect acc (restore_forwarding s.ip_forwarding_before))
          (Stage b s t f AllBack)
          Never
  unfolding collect restore_forwarding
  forwarding-Stage acc = record { at = λ w h. ground arith }

  -- The IPv6 part collects its own errors, beside those of the stops before it.
  module _ (outer : Option Err) where
    abbrev Before : Host → Host → Type 0
    Before b h = outer ≡ none → DnsmasqBack b h

    abbrev AliasBack : Host → Host → Type 0
    AliasBack b h = (outer ≡ none → DnsmasqBack b h) × (h.alias ≡ false)

    abbrev PacketBack : Host → Host → Type 0
    PacketBack b h = AliasBack b h × (h.packet_process ≡ none)

    alias-Stage :
        (c : Config) (acc : Option Err)
        → Ensures
            (Stage b s t f Before acc)
            (remove_owned_alias c s acc)
            (Stage b s t f AliasBack)
            Never
    unfolding remove_owned_alias ◌>>=◌
    alias-Stage c acc =
        Ensures-when (not s.alias_owned) _ _ (λ foreign. record { at = λ w h. ground arith })
          (λ owned.
            Ensures-bind {Q = Stage b s t f Before}
              (Ensures-when
                (s.ra_effective || (s.packet_effective && (applied_config c s).dhcp_enabled))
                (collect acc (ask withdraw)) (pure acc) (λ ra. record { at = λ w h. ground arith })
                (λ quiet. record { at = λ w h. ground arith }))
              (λ acc. record { at = λ w h. ground arith }))

    packet-Stage :
        (acc : Option Err)
        → Ensures (Stage b s t f AliasBack acc) (stop_packet s acc) (Stage b s t f PacketBack) Never
    unfolding stop_packet ◌>>=◌
    packet-Stage acc =
        Ensures-when (s.pid_packet == 0) _ _ (λ none_started. record { at = λ w h. ground arith })
          (λ started. record { at = λ w h. ground arith })

    finish-Stage :
        (acc : Option Err)
        → Ensures
            (Stage b s t f PacketBack acc)
            (raise_some acc)
            (λ u. Stage b s t f Ipv6Back outer)
            (λ e. Kept b s t f)
    finish-Stage none = record { at = λ w h. ground arith }
    finish-Stage (some e) = record { at = λ w h. (h.tracks, h.file) }

    skip-Stage :
        (not s.packet_effective && s.pid_packet == 0 && not s.alias_owned) ≡ true
        → Ensures {E = Err}
            (Stage b s t f DnsmasqBack outer)
            (pure tt)
            (λ u. Stage b s t f Ipv6Back outer)
            (λ e. Kept b s t f)
    skip-Stage idle = record { at = λ w h. ground arith }

    cleanup-Stage :
        (c : Config)
        → Ensures
            (Stage b s t f DnsmasqBack outer)
            (cleanup_ipv6 c s)
            (λ u. Stage b s t f Ipv6Back outer)
            (λ e. Kept b s t f)
    unfolding cleanup_ipv6
    cleanup-Stage c = Ensures-when _ _ _ skip-Stage (λ busy.
        Ensures-bind {Q = Stage b s t f AliasBack}
          (Ensures-weaken (alias-Stage c none)
            (λ w h. record { tracks = h.tracks; file = h.file; back = λ p. h.back }) (λ acc w h. h)
            (λ e w h. absurd h))
          (λ acc.
            Ensures-bind {Q = Stage b s t f PacketBack}
              (Ensures-weaken (packet-Stage acc) (λ w h. h) (λ acc w h. h) (λ e w h. absurd h))
              (λ acc. finish-Stage acc)))

  pub ipv6-Stage :
      (c : Config) (acc : Option Err)
      → Ensures
          (Stage b s t f DnsmasqBack acc)
          (collect acc (cleanup_ipv6 c s))
          (Stage b s t f Ipv6Back)
          Never
  ipv6-Stage c acc = collect-Stage acc (cleanup-Stage acc c)
