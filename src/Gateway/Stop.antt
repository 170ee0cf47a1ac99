-- ===== src/Gateway/Stop.antt =====
-- Manager.stop and Manager.cleanupInterruptedRuntime of internal/gateway/manager.go.
use opensurge_fnos.Base.{Option, none, not, some}
use opensurge_fnos.Exec.{pure, when◌run◌otherwise◌, ◌>>=◌, ◌>>◌}
use opensurge_fnos.Gateway.Rollback.{clear_runtime}
use opensurge_fnos.Gateway.Services.{restore_forwarding, restore_system_proxy, unload_firewall}
use opensurge_fnos.Gateway.Start.Plan.{require_root}
use opensurge_fnos.Gateway.Tracked.{cleanup_ipv6, collect, raise_some, restore_dns, stop_tracked}
use opensurge_fnos.Gateway.Types.{
  Config, Err, ProxySnapshot, State, belongs_to_boot, checking_runtime, clearing_runtime,
  current_boot, dnsmasq, mihomo, restoring_network, restoring_system_proxy, stop_prepared,
  stopping_dns, stopping_ipv6, stopping_mihomo,
}
use opensurge_fnos.Gateway.World.{M, answer, ask, load, report}

unfoldable pub give_back_proxy : Option ProxySnapshot → M (Unit {0})
unfolding report
give_back_proxy none = pure tt
give_back_proxy (some snapshot) = do report restoring_system_proxy; restore_system_proxy snapshot

-- A runtime of an earlier boot: DNS and proxy are given back and the files are removed, and
-- nothing else is called.
unfoldable pub cleanup_interrupted : State → M (Unit {0})
unfolding report
cleanup_interrupted s = do
  restore_dns s.system_dns
  give_back_proxy s.system_proxy
  report clearing_runtime
  failed ← clear_runtime
  raise_some failed

-- The joined stops and restorations of a stop, after DNS and proxy are given back.
unfoldable pub stop_services : Config → State → M (Option Err)
unfolding report collect
stop_services c s = do
  report stopping_dns
  acc ← collect none (stop_tracked dnsmasq s.pid_dnsmasq s.dnsmasq_fingerprint)
  report stopping_ipv6
  acc ← collect acc (cleanup_ipv6 c s)
  report stopping_mihomo
  acc ← collect acc (stop_tracked mihomo s.pid_mihomo s.mihomo_fingerprint)
  report restoring_network
  acc ←
      when s.pf_anchor_loaded
      run collect acc (unload_firewall (not s.pf_enabled_before))
      otherwise pure acc
  collect acc (restore_forwarding s.ip_forwarding_before)

unfoldable pub clear_stopped : M (Unit {0})
unfolding report
clear_stopped = do report clearing_runtime; failed ← clear_runtime; raise_some failed

unfoldable pub stop_active : Config → State → M (Unit {0})
unfolding clear_stopped
stop_active c s = do
  restore_dns s.system_dns
  give_back_proxy s.system_proxy
  failed ← stop_services c s
  raise_some failed
  clear_stopped

unfoldable pub stop_existing : Config → Option State → M (Unit {0})
unfolding clear_stopped answer
stop_existing c none = clear_stopped
stop_existing c (some s) = do
  session ← answer current_boot (λ w. w.env.boot)
  when belongs_to_boot s session run stop_active c s otherwise cleanup_interrupted s

unfoldable pub stop_gateway : Config → M (Unit {0})
unfolding ask report load
stop_gateway c = do
  report checking_runtime
  require_root
  ask stop_prepared
  existing ← load
  stop_existing c existing
