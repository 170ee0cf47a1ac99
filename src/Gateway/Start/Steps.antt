-- ===== src/Gateway/Start/Steps.antt =====
-- The takeover steps of Manager.startWithCommit. Each step that fails rolls back what the state
-- so far records.
use opensurge_fnos.Base.{Bool, Option, false, ltb, none, not, some, true, ℕ, ◌||◌}
use opensurge_fnos.Exec.{or_else, pure, raise, when◌run◌otherwise◌, ◌>>=◌, ◌>>◌}
use opensurge_fnos.Gateway.Rollback.{rollback}
use opensurge_fnos.Gateway.Services.{
  add_alias, enable_forwarding, enable_system_dns, enable_system_proxy, fingerprint_of,
  load_firewall, start_daemon,
}
use opensurge_fnos.Gateway.Types.{
  Config, Daemon, DnsSnapshot, Fingerprint, ProxySnapshot, State, anchor_invisible,
  applying_firewall, clock, dnsmasq, enabling_dns, enabling_forwarding, enabling_proxy, is_same_lan,
  mihomo, packet, pf_loaded, starting_dns, starting_ipv6, starting_mihomo, vanished,
}
use opensurge_fnos.Gateway.World.{M, answer, check_context, observe, report, save}

-- `if err := m(); err != nil { return m.rollback(ctx, err, state, ...) }`
unfoldable pub attempt : {A : Type 0} → Config → State → Bool → M A → M A
attempt c s restore_proxy m = or_else m (rollback c s restore_proxy)

-- Lines 506 to 512 of manager.go.
unfoldable pub start_forwarding : Config → State → M State
start_forwarding c s = do
  report enabling_forwarding
  attempt c s false check_context
  attempt c s false enable_forwarding
  pure s

-- A process without an identity has disappeared.
unfoldable pub require_identity : Daemon → ℕ → Fingerprint → M Fingerprint
require_identity d pid none = when ltb 0 pid run raise (vanished d) otherwise pure none
require_identity d pid (some digest) = pure (some digest)

unfoldable pub identify : Daemon → ℕ → M Fingerprint
identify d pid = do found ← fingerprint_of d pid; require_identity d pid found

-- Lines 514 to 532 of manager.go.
unfoldable pub start_engine : Config → State → M State
start_engine c s = do
  report starting_mihomo
  attempt c s false check_context
  pid ← attempt c s false (start_daemon mihomo true)
  let s = record s { pid_mihomo = pid }
  found ← attempt c s false (identify mihomo pid)
  let s = record s { mihomo_fingerprint = found }
  attempt c s false (save s)
  pure s

-- Lines 533 to 570 of manager.go: the broker's identity, then the intent to own the alias, are persisted
-- before the interface changes.
unfoldable pub start_ipv6 : Config → Bool → State → M State
start_ipv6 c false s = pure s
start_ipv6 c true s = do
  report starting_ipv6
  attempt c s false check_context
  pid ← attempt c s false (start_daemon packet true)
  let s = record s { pid_packet = pid }
  found ← attempt c s false (identify packet pid)
  let s = record s { packet_fingerprint = found }
  attempt c s false (save s)
  let s = record s { alias_owned = true }
  attempt c s false (save s)
  attempt c s false check_context
  attempt c s false add_alias
  pure s

-- dhcp.Manager.shouldRun
unfoldable pub wants_dnsmasq : Config → Bool
wants_dnsmasq c = c.dhcp_enabled || is_same_lan c.mode

-- Lines 572 to 590 of manager.go.
unfoldable pub start_dns : Config → State → M State
unfolding wants_dnsmasq
start_dns c s = do
  report starting_dns
  attempt c s false check_context
  pid ← attempt c s false (start_daemon dnsmasq (wants_dnsmasq c))
  let s = record s { pid_dnsmasq = pid }
  found ← attempt c s false (identify dnsmasq pid)
  let s = record s { dnsmasq_fingerprint = found }
  attempt c s false (save s)
  pure s

unfoldable pub require_visible : Bool → M (Unit {0})
require_visible loaded = when not loaded run raise anchor_invisible otherwise pure tt

-- Lines 592 to 609 of manager.go.
unfoldable pub apply_firewall : Config → State → M State
apply_firewall c s = do
  report applying_firewall
  attempt c s false check_context
  attempt c s false (load_firewall (not s.pf_enabled_before))
  let s = record s { pf_anchor_loaded = true }
  loaded ← attempt c s false (answer pf_loaded (λ w. w.env.flag w.tick))
  attempt c s false (require_visible loaded)
  attempt c s false (save s)
  pure s

-- Lines 610 to 627 of manager.go: ownership is persisted before the resolver changes; a failed save is
-- rolled back as not owned.
unfoldable pub capture_dns : Config → State → DnsSnapshot → M State
capture_dns c s d = do
  report enabling_dns
  attempt c s false check_context
  attempt c s false (save (record s { system_dns = some (record d { owned = true }) }))
  attempt c (record s { system_dns = some (record d { owned = true }) }) false enable_system_dns
  now ← observe clock (λ w. w.env.number w.tick)
  let s = record s { system_dns = some (record d { owned = true; verified_at = now }) }
  attempt c s false (save s)
  pure s

unfoldable pub dns_for : Config → State → Option DnsSnapshot → M State
unfolding capture_dns
dns_for c s none = pure s
dns_for c s (some d) = capture_dns c s d

unfoldable pub take_system_dns : Config → State → M State
unfolding dns_for
take_system_dns c s = dns_for c s s.system_dns

unfoldable pub proxy_for : Config → State → Option ProxySnapshot → M (Unit {0})
proxy_for c s none = pure tt
proxy_for c s (some p) = do
  report enabling_proxy
  attempt c s false check_context
  attempt c s true (enable_system_proxy c.mixed_port)

-- Lines 628 to 637 of manager.go.
unfoldable pub take_system_proxy : Config → State → M (Unit {0})
unfolding proxy_for
take_system_proxy c s = proxy_for c s s.system_proxy
