-- ===== src/Gateway/Rollback.antt =====
-- Manager.rollback of internal/gateway/manager.go.
use opensurge_fnos.Base.{Bool, Option, none, not, some, true}
use opensurge_fnos.Exec.{or_else, pure, raise, when◌run◌otherwise◌, ◌>>=◌, ◌>>◌}
use opensurge_fnos.Gateway.Services.{restore_forwarding, restore_system_proxy, unload_firewall}
use opensurge_fnos.Gateway.Tracked.{cleanup_ipv6, collect, restore_dns, stop_tracked}
use opensurge_fnos.Gateway.Types.{
  Config, Err, ProxySnapshot, State, cleanup_failed, context_err, dns_retained, dnsmasq, mihomo,
  proxy_retained, remove_snapshot, rollback_failed, rolling_back,
}
use opensurge_fnos.Gateway.World.{M, ask, observe, remove, report}

unfoldable pub restore_proxy_if : Bool → Option ProxySnapshot → M (Unit {0})
unfolding restore_system_proxy
restore_proxy_if true (some snapshot) = restore_system_proxy snapshot
restore_proxy_if _ _ = pure tt

-- The joined stops and restorations of a rollback, after DNS and proxy are given back.
unfoldable pub undo_takeover : Config → State → M (Option Err)
unfolding collect stop_tracked cleanup_ipv6 unload_firewall restore_forwarding
undo_takeover c s = do
  acc ← collect none (stop_tracked dnsmasq s.pid_dnsmasq s.dnsmasq_fingerprint)
  acc ← collect acc (cleanup_ipv6 c s)
  acc ← collect acc (stop_tracked mihomo s.pid_mihomo s.mihomo_fingerprint)
  acc ←
      when s.pf_anchor_loaded
      run collect acc (unload_firewall (not s.pf_enabled_before))
      otherwise pure acc
  collect acc (restore_forwarding s.ip_forwarding_before)

-- Both files of a runtime are removed, whatever the first removal returns.
unfoldable pub clear_runtime : M (Option Err)
unfolding collect remove ask
clear_runtime = do acc ← collect none remove; collect acc (ask remove_snapshot)

unfoldable pub raise_or : {A : Type 0} → (Err → Err) → Option Err → M A → M A
raise_or wrap none m = m
raise_or wrap (some e) m = raise (wrap e)

-- The context under which a rollback runs is not the cancelled one, so only its being read is
-- recorded.
unfoldable pub rollback : {A : Type 0} → Config → State → Bool → Err → M A
unfolding report observe restore_dns restore_proxy_if undo_takeover clear_runtime raise_or
rollback c s restore_proxy cause = do
  observe context_err (λ w. tt)
  report rolling_back
  or_else (restore_dns s.system_dns) (λ e. raise (dns_retained cause e))
  or_else (restore_proxy_if restore_proxy s.system_proxy) (λ e. raise (proxy_retained cause e))
  failed ← undo_takeover c s
  raise_or (rollback_failed cause) failed
      do failed ← clear_runtime; raise_or (cleanup_failed cause) failed (raise cause)
