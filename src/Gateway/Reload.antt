-- ===== src/Gateway/Reload.antt =====
-- Manager.reload and Manager.validateReloadCandidate of internal/gateway/manager.go.
use opensurge_fnos.Base.{Option, none, not, some}
use opensurge_fnos.Exec.{or_else, pure, raise, when◌run◌otherwise◌, ◌>>=◌, ◌>>◌}
use opensurge_fnos.Gateway.Preflight.{check_reservations, preflight, resolve_ipv6}
use opensurge_fnos.Gateway.Start.{start_gateway}
use opensurge_fnos.Gateway.Start.Plan.{require_root}
use opensurge_fnos.Gateway.Stop.{stop_gateway}
use opensurge_fnos.Gateway.Tracked.{tracked_running}
use opensurge_fnos.Gateway.Types.{
  Config, Err, State, belongs_to_boot, checking_reservations, checking_runtime, current_boot,
  degraded, dhcp_service, dnsmasq, ensure, interrupted, make_temp, mihomo, mihomo_service,
  not_running, packet, packet_degraded, pf_service, prepare_policy, preparing_config,
  reload_candidate, reload_start, reload_stop, validate_config, validate_written, validating_config,
  validating_network, write_config,
}
use opensurge_fnos.Gateway.World.{M, answer, ask, load, report}

-- A missing state file, or one of an earlier boot, is refused.
unfoldable pub require_running : Option State → M State
unfolding answer
require_running none = raise not_running
require_running (some s) = do
  session ← answer current_boot (λ w. w.env.boot)
  when belongs_to_boot s session run pure s otherwise raise interrupted

unfoldable pub require_packet : State → M (Unit {0})
unfolding tracked_running
require_packet s = when not s.packet_effective run pure tt otherwise do
  alive ← tracked_running packet s.pid_packet s.packet_fingerprint
  when not alive run raise packet_degraded otherwise pure tt

-- Both daemons have to run. The second is asked only if the first does.
unfoldable pub require_daemons : State → M (Unit {0})
unfolding tracked_running
require_daemons s = do
  alive ← tracked_running dnsmasq s.pid_dnsmasq s.dnsmasq_fingerprint
  when not alive run raise degraded otherwise do
    alive ← tracked_running mihomo s.pid_mihomo s.mihomo_fingerprint
    when not alive run raise degraded otherwise pure tt

-- Everything is rendered and checked in a temporary runtime directory.
unfoldable pub validate_candidate : Config → M (Unit {0})
unfolding ask answer report
validate_candidate c = do
  report validating_network
  ask make_temp
  bundle ← answer prepare_policy (λ w. w.env.prepared_bundle)
  ask validate_config
  (c, resolution) ← resolve_ipv6 (record c { bundle = bundle })
  ask ensure
  preflight c
  report checking_reservations
  check_reservations c
  report preparing_config
  ask (write_config mihomo_service)
  ask (write_config dhcp_service)
  ask (write_config pf_service)
  report validating_config
  ask (validate_written mihomo_service)

unfoldable pub wrapped : {A : Type 0} → (Err → Err) → M A → M A
wrapped wrap m = or_else m (λ e. raise (wrap e))

-- Everything that a reload checks before it stops the gateway.
unfoldable pub check_reload : Config → M (Unit {0})
unfolding report load require_packet require_daemons
check_reload c = do
  report checking_runtime
  require_root
  existing ← load
  s ← require_running existing
  require_daemons s
  require_packet s
  wrapped reload_candidate (validate_candidate c)

unfoldable pub reload_gateway : Config → M (Unit {0})
reload_gateway c = do
  check_reload c
  wrapped reload_stop (stop_gateway c)
  wrapped reload_start (start_gateway c)
