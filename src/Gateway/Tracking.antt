-- ===== src/Gateway/Tracking.antt =====
-- What a runtime state has to record of the host, and what is left to undo.
pub mod Seen
pub mod Stops
pub mod Undo
pub mod Rollback
pub mod Stop
pub mod Takeover
pub mod Network
pub mod Running
pub mod Validated
pub mod Plan
pub mod Start
use opensurge_fnos.Base.{Bool, Option, arith, false, none, some, true, ℕ, ◌<◌, ◌≡◌, ◌⊎◌}
use opensurge_fnos.Gateway.Types.{DnsSnapshot, Fingerprint, ProxySnapshot, Resolver, State, capture}
use opensurge_fnos.Gateway.World.{Host, Process, Proxy, user}

-- A running process is known by its PID, and by its digest where a digest is recorded.
abbrev pub Owned : Option Process → ℕ → Fingerprint → Type 0
Owned none pid digest = Unit
Owned (some p) pid digest = (p.pid ≡ pid) × (0 < pid) × ((digest ≡ none) ⊎ (digest ≡ some p.digest))

-- The snapshot in the state is that of the resolver `before`.
abbrev pub DnsRecorded : Resolver → Option DnsSnapshot → Type 0
DnsRecorded before none = Unit
DnsRecorded before (some d) = d.before ≡ before

abbrev pub dns_owned : Option DnsSnapshot → Bool
dns_owned none = false
dns_owned (some d) = d.owned

-- The proxy is the one of `before`, and the snapshot, if there is one, is its own.
abbrev pub ProxyRecorded : Proxy → Proxy → Option ProxySnapshot → Type 0
ProxyRecorded before now none = now ≡ before
ProxyRecorded before now (some p) = user p ≡ before

-- Whatever differs from the host `b` before the gateway is recorded in `s`, with what undoes it.
-- `started` says whether the proxy may have been set.
pub record Tracks (b : Host) (s : State) (started : Bool) (h : Host) : Type 0 where
  pub mihomo_owned : Owned h.mihomo_process s.pid_mihomo s.mihomo_fingerprint
  pub dnsmasq_owned : Owned h.dnsmasq_process s.pid_dnsmasq s.dnsmasq_fingerprint
  pub packet_owned : Owned h.packet_process s.pid_packet s.packet_fingerprint
  pub alias_owned : (h.alias ≡ false) ⊎ (s.alias_owned ≡ true)
  pub anchor_owned : ((h.anchor ≡ false) × (h.firewall ≡ b.firewall)) ⊎ (s.pf_anchor_loaded ≡ true)
  pub firewall_recorded : s.pf_enabled_before ≡ b.firewall
  pub firewall_kept : (b.firewall ≡ false) ⊎ (h.firewall ≡ true)
  pub forwarding_recorded : s.ip_forwarding_before ≡ b.forwarding
  pub dns_recorded : DnsRecorded b.resolver s.system_dns
  pub dns_taken :
      (h.resolver ≡ b.resolver) ⊎ ((h.resolver ≡ capture) × (dns_owned s.system_dns ≡ true))
  pub proxy_recorded : ProxyRecorded b.proxy h.proxy s.system_proxy
  pub proxy_taken : (h.proxy ≡ b.proxy) ⊎ (started ≡ true)

-- Nothing of the gateway is on the host before it starts.
pub record IsFree (b : Host) : Type 0 where
  pub no_mihomo : b.mihomo_process ≡ none
  pub no_dnsmasq : b.dnsmasq_process ≡ none
  pub no_packet : b.packet_process ≡ none
  pub no_anchor : b.anchor ≡ false
  pub no_alias : b.alias ≡ false

-- The order in which a gateway is undone, each stage with all that came before it.
abbrev pub DnsBack : Host → Host → Type 0
DnsBack b h = h.resolver ≡ b.resolver

abbrev pub ProxyBack : Host → Host → Type 0
ProxyBack b h = DnsBack b h × (h.proxy ≡ b.proxy)

abbrev pub DnsmasqBack : Host → Host → Type 0
DnsmasqBack b h = ProxyBack b h × (h.dnsmasq_process ≡ none)

abbrev pub Ipv6Back : Host → Host → Type 0
Ipv6Back b h = DnsmasqBack b h × (h.alias ≡ false) × (h.packet_process ≡ none)

abbrev pub MihomoBack : Host → Host → Type 0
MihomoBack b h = Ipv6Back b h × (h.mihomo_process ≡ none)

abbrev pub FirewallBack : Host → Host → Type 0
FirewallBack b h = MihomoBack b h × (h.anchor ≡ false) × (h.firewall ≡ b.firewall)

abbrev pub AllBack : Host → Host → Type 0
AllBack b h = FirewallBack b h × (h.forwarding ≡ b.forwarding)

-- A free host with everything undone is the host from before, field by field.
pub AllBack-eq : {b h : Host} → IsFree b → AllBack b h → h ≡ b
AllBack-eq free back = ground arith
