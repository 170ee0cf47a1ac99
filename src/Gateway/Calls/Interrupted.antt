-- ===== src/Gateway/Calls/Interrupted.antt =====
-- After a reboot, PIDs may belong to other processes and the firewall and forwarding to somebody
-- else: the cleanup of an interrupted runtime touches none of them.
use opensurge_fnos.Base.{Bool, Option, arith, false, none, refl, some, true}
use opensurge_fnos.Gateway.Calls.{
  Only, Only-ask, Only-bind, Only-change, Only-collect, Only-pure, Only-raise, Only-remove,
  Only-report, Only-when,
}
use opensurge_fnos.Gateway.Rollback.{clear_runtime}
use opensurge_fnos.Gateway.Services.{restore_dns_snapshot, restore_system_proxy}
use opensurge_fnos.Gateway.Stop.{cleanup_interrupted, give_back_proxy}
use opensurge_fnos.Gateway.Tracked.{raise_some, restore_dns}
use opensurge_fnos.Gateway.Types.{
  Call, DnsSnapshot, Err, ProxySnapshot, State, add_gateway, fingerprint, matches, pf_load,
  pf_unload, remove_gateway, running, start, stop, stop_prepared, sysctl_enable, sysctl_restore,
  withdraw,
}

-- The calls that signal or inspect no process, and change neither firewall nor forwarding nor the
-- IPv6 path.
abbrev pub spares_host : Call → Bool
spares_host stop_prepared = false
spares_host (start d) = false
spares_host (stop d pid) = false
spares_host (fingerprint d pid) = false
spares_host (matches d pid) = false
spares_host (running d pid) = false
spares_host sysctl_enable = false
spares_host (sysctl_restore v) = false
spares_host (pf_load e) = false
spares_host (pf_unload d) = false
spares_host add_gateway = false
spares_host remove_gateway = false
spares_host withdraw = false
spares_host c = true

-- Such a call, or StopPrepared, which every stop makes before it looks at the state file.
abbrev pub spares_runtime : Call → Bool
spares_runtime stop_prepared = true
spares_runtime c = spares_host c

dns_spares : (o : Option DnsSnapshot) → Only spares_runtime (restore_dns o)
unfolding restore_dns restore_dns_snapshot
dns_spares none = Only-pure false
dns_spares (some d) =
    Only-when _ (Only-pure false)
      (Only-bind (Only-report _ refl) (λ u. record { at = λ w h. ground arith }))

proxy_spares : (o : Option ProxySnapshot) → Only spares_runtime (give_back_proxy o)
unfolding give_back_proxy restore_system_proxy
proxy_spares none = Only-pure tt
proxy_spares (some p) = Only-bind (Only-report _ refl) (λ u. Only-change _ _ refl)

raise_spares : {allowed : Call → Bool} (o : Option Err) → Only allowed (raise_some o)
raise_spares none = Only-pure tt
raise_spares (some e) = Only-raise e

clear_spares : Only spares_runtime clear_runtime
unfolding clear_runtime
clear_spares =
    Only-bind (Only-collect none (Only-remove refl)) (λ acc. Only-collect acc (Only-ask _ refl))

pub cleanup_interrupted-Only : (s : State) → Only spares_runtime (cleanup_interrupted s)
unfolding cleanup_interrupted
cleanup_interrupted-Only s = Only-bind (dns_spares s.system_dns) λ o.
    Only-bind (proxy_spares s.system_proxy)
      λ u. Only-bind (Only-report _ refl) λ u. Only-bind clear_spares raise_spares
