-- ===== src/Gateway/Tests/Running.antt =====
-- The gateway that a start has left running: stopped, reloaded and restarted.
use opensurge_fnos.Base.{All, [], arith, false, inl, inr, none, refl, some, true, ◌≡◌, ◌⊎◌}
use opensurge_fnos.Exec.{err, ok}
use opensurge_fnos.Gateway.Calls.Interrupted.{spares_runtime}
use opensurge_fnos.Gateway.Calls.Restarted.{restart_spares_network, spares_network}
use opensurge_fnos.Gateway.Guarantees.{failed_stop_retryable, stop_after_start, stop_restores}
use opensurge_fnos.Gateway.Guarantees.Reboot.{stop_after_reboot}
use opensurge_fnos.Gateway.Guarantees.Reloads.{
  ReloadFailed, Restarted, reload_fails_safely, reload_runs,
}
use opensurge_fnos.Gateway.Reload.{reload_gateway}
use opensurge_fnos.Gateway.Restart.{restart_mihomo}
use opensurge_fnos.Gateway.Stop.{stop_gateway}
use opensurge_fnos.Gateway.Tests.{
  config, failing, idle-IsFree, idle_host, no_proxy, run_all, session, start_ok, started, willing,
  world,
}
use opensurge_fnos.Gateway.Tracking.{Tracks}
use opensurge_fnos.Gateway.Types.{
  State, always, belongs_to_boot, fault, forced, pf_load, pf_unload, reload_start, servers,
}
use opensurge_fnos.Gateway.World.{Env, World}
use opensurge_fnos.Text.{text}

abbrev started_state : State
started_state = record {
  pid_dnsmasq = 161;
  dnsmasq_fingerprint = some 9060;
  pid_mihomo = 148;
  mihomo_fingerprint = some 9047;
  pid_packet = 153;
  packet_fingerprint = some 9052;
  boot_session_id = text "BOOT-A";
  ip_forwarding_before = 0;
  pf_enabled_before = false;
  pf_anchor_loaded = true;
  device_policy_digest = [];
  profile_digest = 7;
  system_proxy = some no_proxy;
  system_dns = some (record {
    before = servers [];
    resolvers = [];
    domains = [];
    owned = true;
    verified_at = 172;
  });
  mac_tun_ipv6 = true;
  dns_ipv6 = false;
  tun_ipv6_requested = always;
  packet_effective = true;
  native_ipv6_available = true;
  ipv6_reason = forced;
  alias_owned = true;
  ra_effective = true;
  started_at = 140;
}

started_file : started.file ≡ some started_state
unfolding run_all
started_file = refl

started_boot : belongs_to_boot started_state session ≡ true
unfolding run_all
started_boot = refl

started_env : started.env ≡ willing
unfolding run_all
started_env = refl

started_tracked : Tracks idle_host started_state true started.host
unfolding run_all
started_tracked = record {
  mihomo_owned = (refl, omega arith, inr refl);
  dnsmasq_owned = (refl, omega arith, inr refl);
  packet_owned = (refl, omega arith, inr refl);
  alias_owned = inr refl;
  anchor_owned = inr refl;
  firewall_recorded = refl;
  firewall_kept = inl refl;
  forwarding_recorded = refl;
  dns_recorded = refl;
  dns_taken = inr (refl, refl);
  proxy_recorded = refl;
  proxy_taken = inr refl;
}

-- The started gateway, with other answers to come.
abbrev then_with : Env → World
then_with e = record {
  env = e;
  tick = started.tick;
  trace = [];
  host = started.host;
  file = started.file;
}

stop_ok : (stop_gateway config (then_with willing)).0 ≡ ok tt
unfolding run_all
stop_ok = refl

stop_restores_example :
    ((stop_gateway config (then_with willing)).1.host ≡ idle_host)
    × ((stop_gateway config (then_with willing)).1.file ≡ none)
stop_restores_example =
    stop_restores idle_host config started_state (then_with willing) idle-IsFree started_tracked
      started_file started_boot stop_ok

-- The firewall rules cannot be flushed.
stop_failed : (stop_gateway config (then_with (failing 101))).0 ≡ err (fault (pf_unload true))
unfolding run_all
stop_failed = refl

failed_stop_retryable_example :
    let w' = (stop_gateway config (then_with (failing 101))).1 in
    (Tracks idle_host started_state true w'.host × (w'.file ≡ some started_state))
    ⊎ (w'.host ≡ idle_host)
failed_stop_retryable_example =
    failed_stop_retryable idle_host config started_state (then_with (failing 101))
      (fault (pf_unload true)) idle-IsFree started_tracked started_file started_boot stop_failed

stop_started : (stop_gateway config started).0 ≡ ok tt
unfolding run_all
stop_started = refl

started_here : belongs_to_boot started_state started.env.boot ≡ true
unfolding run_all
started_here = refl

stop_after_start_example :
    ((stop_gateway config started).1.host ≡ idle_host)
    × ((stop_gateway config started).1.file ≡ none)
stop_after_start_example =
    stop_after_start config config true (world willing) started_state idle-IsFree refl start_ok
      started_file started_here stop_started

abbrev rebooted : Env
rebooted = record willing { boot = record { id = text "BOOT-B"; booted_at = 200 } }

not_this_boot : belongs_to_boot started_state rebooted.boot ≡ false
unfolding run_all
not_this_boot = refl

stop_after_reboot_example :
    All (λ k. spares_runtime k ≡ true) (stop_gateway config (then_with rebooted)).1.trace
stop_after_reboot_example =
    stop_after_reboot config started_state (then_with rebooted) refl started_file not_this_boot

reload_ok : (reload_gateway config (then_with willing)).0 ≡ ok tt
unfolding run_all
reload_ok = refl

reload_runs_example : Restarted idle_host config (reload_gateway config (then_with willing)).1
reload_runs_example =
    reload_runs idle_host config started_state (then_with willing) idle-IsFree started_tracked
      started_file started_boot reload_ok

-- The firewall refuses the new rules.
reload_failed :
    (reload_gateway config (then_with (failing 200))).0 ≡ err (reload_start (fault (pf_load true)))
unfolding run_all
reload_failed = refl

reload_fails_safely_example :
    ReloadFailed idle_host started_state
      (reload_start (fault (pf_load true)))
      (reload_gateway config (then_with (failing 200))).1
reload_fails_safely_example =
    reload_fails_safely idle_host config started_state (then_with (failing 200))
      (reload_start (fault (pf_load true))) idle-IsFree started_tracked started_file started_boot
      reload_failed

restart_spares_network_example :
    All (λ k. spares_network k ≡ true) (restart_mihomo config (then_with willing)).1.trace
restart_spares_network_example = restart_spares_network config (then_with willing) refl
