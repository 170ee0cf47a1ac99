-- ===== src/Gateway/Start/Plan.antt =====
-- The first half of Manager.startWithCommit: nothing here changes the host, and the state file is
-- written last.
use opensurge_fnos.Base.{Bool, Option, [], false, none, not, some, ℕ, ◌&&◌}
use opensurge_fnos.Exec.{gets, or_else, pure, raise, when◌run◌otherwise◌, ◌>>=◌, ◌>>◌}
use opensurge_fnos.Gateway.Preflight.{Resolution, check_reservations, preflight, resolve_ipv6}
use opensurge_fnos.Gateway.Services.{prepare_system_dns, prepare_system_proxy}
use opensurge_fnos.Gateway.Tracked.{collect}
use opensurge_fnos.Gateway.Types.{
  BootSession, Bundle, Config, DnsSnapshot, ProxySnapshot, State, check_gateway,
  checking_reservations, checking_runtime, clock, commit, current_boot, dhcp_service,
  digest_profile, ensure, manage_system_dns, mihomo_service, not_root, pf_enabled, pf_service,
  prepare_mihomo_policy, prepare_policy, preparing_config, reconcile_leases, remove_snapshot,
  saving_config, saving_runtime, state_exists, stop_prepared, sysctl_current, validate_config,
  validate_written, validating_config, validating_network, write_config, write_snapshot,
}
use opensurge_fnos.Gateway.World.{M, answer, ask, check_context, load, observe, report, save}
use opensurge_fnos.Text.{Text}

pub record Plan : Type 0 where
  pub config : Config
  pub resolution : Resolution
  pub boot : BootSession
  pub proxy_snapshot : Option ProxySnapshot
  pub dns_snapshot : Option DnsSnapshot

unfoldable pub require_root : M (Unit {0})
require_root = do root ← gets (λ w. w.env.root); when root run pure tt otherwise raise not_root

unfoldable pub refuse_existing : Option State → M (Unit {0})
refuse_existing none = pure tt
refuse_existing (some s) = raise state_exists

-- Lines 393 to 404 of manager.go: the IPv6 gateway, preflight and reservations.
unfoldable pub check_host : Config → Resolution → BootSession → M Plan
unfolding ask report
check_host c resolution session = do
  when resolution.effective run ask check_gateway otherwise pure tt
  preflight c
  report checking_reservations
  check_reservations c
  pure (record {
    config = c;
    resolution = resolution;
    boot = session;
    proxy_snapshot = none;
    dns_snapshot = none;
  })

-- Lines 346 to 384 of manager.go: the configuration, the policies and IPv6.
unfoldable pub validate_start : Config → M Plan
unfolding ask answer report check_context load
validate_start c = do
  check_context
  report checking_runtime
  require_root
  existing ← load
  refuse_existing existing
  bundle ← answer prepare_policy (λ w. w.env.prepared_bundle)
  ask validate_config
  resolved ← answer prepare_mihomo_policy (λ w. w.env.resolved_bundle)
  ask stop_prepared
  report validating_network
  (c, resolution) ← resolve_ipv6 (record c { bundle = resolved })
  ask ensure
  session ← answer current_boot (λ w. w.env.boot)
  check_host c resolution session

unfoldable pub snapshot_proxy : Config → M (Option ProxySnapshot)
unfolding prepare_system_proxy
snapshot_proxy c =
    when not c.system_proxy_enabled
    run pure none
    otherwise do snapshot ← prepare_system_proxy; pure (some snapshot)

unfoldable pub snapshot_dns : Config → M (Option DnsSnapshot)
unfolding prepare_system_dns manage_system_dns
snapshot_dns c =
    when not (manage_system_dns c)
    run pure none
    otherwise do snapshot ← prepare_system_dns; pure (some snapshot)

unfoldable pub with_snapshot : Config → Option DnsSnapshot → Config
with_snapshot c none = c
with_snapshot c (some d) = record c { resolvers = d.resolvers; domains = d.domains }

-- Lines 405 to 440 of manager.go: the snapshots of proxy and DNS, and the generated files.
unfoldable pub prepare_start : Plan → M Plan
unfolding ask report check_context
prepare_start plan = do
  proxy ← snapshot_proxy plan.config
  dns ← snapshot_dns plan.config
  report preparing_config
  ask (write_config mihomo_service)
  ask (write_config dhcp_service)
  ask (write_config pf_service)
  report validating_config
  ask (validate_written mihomo_service)
  check_context
  pure (record plan {
    config = with_snapshot plan.config dns;
    proxy_snapshot = proxy;
    dns_snapshot = dns;
  })

-- Lines 441 to 452 of manager.go.
unfoldable pub commit_candidate : Bool → M (Unit {0})
unfolding ask report check_context
commit_candidate commits = do
  when commits run (do report saving_config; check_context; ask commit) otherwise pure tt
  check_context

unfoldable pub write_policy : Option Bundle → M (Unit {0})
unfolding ask
write_policy none = pure tt
write_policy (some b) = do ask reconcile_leases; ask write_snapshot

policy_digest : Option Bundle → Text
policy_digest none = []
policy_digest (some b) = b.digest

-- The state of a gateway that owns nothing yet.
unfoldable pub initial_state : Plan → ℕ → Bool → ℕ → ℕ → State
unfolding policy_digest
initial_state plan forwarding_before pf_before profile now = record {
  pid_dnsmasq = 0;
  dnsmasq_fingerprint = none;
  pid_mihomo = 0;
  mihomo_fingerprint = none;
  pid_packet = 0;
  packet_fingerprint = none;
  boot_session_id = plan.boot.id;
  ip_forwarding_before = forwarding_before;
  pf_enabled_before = pf_before;
  pf_anchor_loaded = false;
  device_policy_digest = policy_digest plan.config.bundle;
  profile_digest = profile;
  system_proxy = plan.proxy_snapshot;
  system_dns = plan.dns_snapshot;
  mac_tun_ipv6 = plan.config.tun_enabled;
  dns_ipv6 = plan.config.dns_ipv6;
  tun_ipv6_requested = plan.resolution.requested;
  packet_effective = plan.resolution.effective;
  native_ipv6_available = plan.resolution.native_available;
  ipv6_reason = plan.resolution.reason;
  alias_owned = false;
  ra_effective = plan.resolution.effective && plan.config.dhcp_enabled;
  started_at = now;
}

-- A failed save removes the policy snapshot, whose own error is dropped, and is returned.
unfoldable pub save_or_withdraw : State → M (Unit {0})
unfolding collect ask save
save_or_withdraw s = or_else (save s) λ e. do collect none (ask remove_snapshot); raise e

-- Lines 453 to 497 of manager.go: what the host looked like before, and the first state file.
unfoldable pub record_runtime : Plan → M State
unfolding ask answer observe report
record_runtime plan = do
  report saving_runtime
  forwarding_before ← answer sysctl_current (λ w. w.host.forwarding)
  pf_before ← answer pf_enabled (λ w. w.host.firewall)
  profile ← answer digest_profile (λ w. w.env.profile)
  write_policy plan.config.bundle
  now ← observe clock (λ w. w.env.number w.tick)
  let s = initial_state plan forwarding_before pf_before profile now
  save_or_withdraw s
  pure s
