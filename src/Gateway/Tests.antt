-- ===== src/Gateway/Tests.antt =====
-- A host, a configuration and answers at which the lifecycle runs.
pub mod Running
use opensurge_fnos.Base.{[], false, none, refl, some, true, ℕ, ◌+◌, ◌==◌, ◌∷◌, ◌≡◌}
use opensurge_fnos.Exec.{err, ok, ◌>>=◌}
use opensurge_fnos.Gateway.Guarantees.{start_restores, start_runs}
use opensurge_fnos.Gateway.Preflight.{
  addrs_of, ask_native, check_bundle, check_interfaces, check_lan_ip, check_lan_ip_at,
  check_reservations, detect_native, has_address, lan_ip_on, no_conflicts, preflight, probe_all,
  resolve_always, resolve_as, resolve_auto, resolve_ipv6, without_ipv6,
}
use opensurge_fnos.Gateway.Reload.{
  check_reload, reload_gateway, require_running, validate_candidate, wrapped,
}
use opensurge_fnos.Gateway.Restart.{restart_mihomo}
use opensurge_fnos.Gateway.Rollback.{
  clear_runtime, raise_or, restore_proxy_if, rollback, undo_takeover,
}
use opensurge_fnos.Gateway.Services.{
  add_alias, enable_forwarding, enable_system_dns, enable_system_proxy, fingerprint_of, forget,
  load_firewall, prepare_system_dns, prepare_system_proxy, process_matches, process_running,
  remove_alias, restore_dns_snapshot, restore_forwarding, restore_system_proxy, start_daemon,
  stop_daemon, unload_firewall,
}
use opensurge_fnos.Gateway.Start.{
  start_candidate, start_gateway, start_with_commit, takeover, warm_managed_tailscale,
}
use opensurge_fnos.Gateway.Start.Plan.{
  check_host, commit_candidate, initial_state, prepare_start, record_runtime, refuse_existing,
  require_root, save_or_withdraw, snapshot_dns, snapshot_proxy, validate_start, with_snapshot,
  write_policy,
}
use opensurge_fnos.Gateway.Start.Steps.{
  apply_firewall, attempt, capture_dns, dns_for, identify, proxy_for, require_identity,
  require_visible, start_dns, start_engine, start_forwarding, start_ipv6, take_system_dns,
  take_system_proxy, wants_dnsmasq,
}
use opensurge_fnos.Gateway.Stop.{
  cleanup_interrupted, clear_stopped, give_back_proxy, stop_active, stop_existing, stop_gateway,
  stop_services,
}
use opensurge_fnos.Gateway.Tracked.{
  applied_config, both_running, cleanup_ipv6, collect, remove_owned_alias, restore_dns, stop_packet,
  stop_tracked, tracked_running,
}
use opensurge_fnos.Gateway.Tracking.{IsFree}
use opensurge_fnos.Gateway.Tracking.Start.{IsStarted, Restored}
use opensurge_fnos.Gateway.Types.{
  BootSession, Config, ProxySnapshot, always, belongs_to_boot, fault, manage_system_dns, pf_load,
  same_lan, servers,
}
use opensurge_fnos.Gateway.World.{
  Env, Host, World, answer, ask, change, check_context, load, observe, remove, report, save, user,
}
use opensurge_fnos.Text.{equal_fold, text, text_eq, to_lower, trim_space}

abbrev pub session : BootSession
session = record { id = text "BOOT-A"; booted_at = 5 }

abbrev pub willing : Env
willing = record {
  root = true;
  boot = session;
  ifaces = record { name = text "eth0"; addrs = some 3232235777 ∷ [] } ∷ [];
  fails = λ t. false;
  partly = λ t. false;
  flag = λ t. true;
  number = λ t. 100 + t;
  digest = λ t. 9000 + t;
  profile = 7;
  resolvers = [];
  domains = [];
  prepared_bundle = none;
  resolved_bundle = none;
  cancels = λ t. false;
}

abbrev pub no_proxy : ProxySnapshot
no_proxy = record {
  network_service = text "LAN";
  http_server = [];
  http_port = 0;
  https_server = [];
  https_port = 0;
}

abbrev pub idle_host : Host
idle_host = record {
  mihomo_process = none;
  dnsmasq_process = none;
  packet_process = none;
  forwarding = 0;
  firewall = false;
  anchor = false;
  alias = false;
  resolver = servers [];
  proxy = user no_proxy;
}

abbrev pub config : Config
config = record {
  mode = same_lan;
  interface = text "eth0";
  upstream_interface = text "eth0";
  lan_ip = some 3232235777;
  mixed_port = 7890;
  tun_enabled = true;
  tun_auto_route = true;
  tun_ipv6 = always;
  dns_ipv6 = false;
  dhcp_enabled = true;
  system_dns_enabled = true;
  resolvers = [];
  domains = [];
  system_proxy_enabled = true;
  tailscale_enabled = true;
  bundle = none;
}

abbrev pub world : Env → World
world e = record { env = e; tick = 0; trace = []; host = idle_host; file = none }

abbrev pub started : World
started = (start_with_commit config true (world willing)).1

-- Opens every action of the lifecycle.
unfoldable pub run_all : Unit {0}
unfolding text_eq trim_space to_lower equal_fold ◌>>=◌ answer ask observe report check_context
    change load save remove forget start_daemon stop_daemon fingerprint_of process_matches
    process_running enable_forwarding restore_forwarding load_firewall unload_firewall add_alias
    remove_alias prepare_system_dns enable_system_dns restore_dns_snapshot prepare_system_proxy
    enable_system_proxy restore_system_proxy collect stop_tracked both_running tracked_running
    restore_dns applied_config remove_owned_alias stop_packet cleanup_ipv6 restore_proxy_if
    undo_takeover clear_runtime raise_or rollback without_ipv6 resolve_auto resolve_always
    ask_native detect_native resolve_as resolve_ipv6 has_address addrs_of no_conflicts lan_ip_on
    check_lan_ip_at check_lan_ip check_interfaces preflight probe_all check_bundle
    check_reservations require_root refuse_existing check_host validate_start snapshot_proxy
    snapshot_dns with_snapshot prepare_start commit_candidate write_policy initial_state
    save_or_withdraw record_runtime attempt start_forwarding require_identity identify start_engine
    start_ipv6 wants_dnsmasq start_dns require_visible apply_firewall capture_dns dns_for
    take_system_dns proxy_for take_system_proxy warm_managed_tailscale takeover start_with_commit
    start_gateway start_candidate give_back_proxy cleanup_interrupted stop_services clear_stopped
    stop_active stop_existing stop_gateway require_running validate_candidate wrapped check_reload
    reload_gateway restart_mihomo manage_system_dns belongs_to_boot
run_all = tt

pub start_ok : (start_with_commit config true (world willing)).0 ≡ ok tt
unfolding run_all
start_ok = refl

abbrev pub failing : ℕ → Env
failing n = record willing { fails = λ t. t == n }

pub idle-IsFree : IsFree idle_host
idle-IsFree = record {
  no_mihomo = refl;
  no_dnsmasq = refl;
  no_packet = refl;
  no_anchor = refl;
  no_alias = refl;
}

start_runs_example : IsStarted idle_host config (world willing) started
start_runs_example = start_runs config true (world willing) idle-IsFree refl start_ok

-- The firewall refuses its rules: everything is rolled back.
start_refused : (start_with_commit config true (world (failing 65))).0 ≡ err (fault (pf_load true))
unfolding run_all
start_refused = refl

start_restores_example :
    Restored idle_host (fault (pf_load true)) (start_with_commit config true (world (failing 65))).1
start_restores_example =
    start_restores config true (world (failing 65)) (fault (pf_load true)) idle-IsFree refl
      start_refused refl
