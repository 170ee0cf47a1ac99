-- ===== src/Gateway/Services.antt =====
-- The services that the manager drives, at the interfaces dhcpService, mihomoService, pfService,
-- sysctlService, localSystemProxyService, localSystemDNSService and ipv6PacketService of
-- internal/gateway/manager.go, and the process functions of internal/process/process.go.
use opensurge_fnos.Base.{
  Bool, Option, false, if◌then◌else◌, none, not, some, suc, true, ℕ, ◌&&◌, ◌==◌, ◌||◌,
}
use opensurge_fnos.Exec.{Result, err, ok}
use opensurge_fnos.Gateway.Types.{
  Daemon, DnsSnapshot, Err, Fingerprint, ProxySnapshot, Resolver, add_gateway, capture, dns_enable,
  dns_restore, dnsmasq, fault, fingerprint, matches, mihomo, packet, pf_load, pf_unload,
  prepare_dns, prepare_proxy, proxy_enable, proxy_restore, remove_gateway, running, servers, start,
  stop, sysctl_enable, sysctl_restore, uncleaned,
}
use opensurge_fnos.Gateway.World.{
  Host, M, Process, Proxy, World, answer, called, change, mixed, set_host, user,
}

-- The process that the gateway runs as a daemon, if it runs.
abbrev pub slot : Daemon → Host → Option Process
slot mihomo h = h.mihomo_process
slot dnsmasq h = h.dnsmasq_process
slot packet h = h.packet_process

abbrev pub set_slot : Daemon → Option Process → Host → Host
set_slot mihomo o h = record h { mihomo_process = o }
set_slot dnsmasq o h = record h { dnsmasq_process = o }
set_slot packet o h = record h { packet_process = o }

unfoldable pub unless_pid : ℕ → Option Process → Option Process
unless_pid pid none = none
unless_pid pid (some p) = if p.pid == pid then none else some p

unfoldable pub unless_same : ℕ → ℕ → Option Process → Option Process
unless_same pid digest none = none
unless_same pid digest (some p) = if p.pid == pid && p.digest == digest then none else some p

digest_at : ℕ → ℕ → Option Process → ℕ
digest_at pid other none = other
digest_at pid other (some p) = if p.pid == pid then p.digest else other

-- The process with this PID has ended.
unfoldable pub forget : Daemon → ℕ → Host → Host
unfolding unless_pid
forget d pid h = set_slot d (unless_pid pid (slot d h)) h

-- The daemon runs under the PID that the call has given it.
with_daemon : Daemon → World → World
with_daemon d w = record w {
  host =
      set_slot d (some (record { pid = suc (w.env.number w.tick); digest = w.env.digest w.tick }))
        w.host;
}

-- Start: the new PID, or 0 where the daemon is not wanted. A failing Start stops the process that it
-- has started; it drops the error of that stop, which leaves the process running.
unfoldable pub start_daemon : Daemon → Bool → M ℕ
unfolding with_daemon
start_daemon d wanted w =
    if w.env.fails w.tick
    then (if wanted && w.env.partly w.tick
        then (err (uncleaned (start d)), called (start d) (with_daemon d w))
        else (err (fault (start d)), called (start d) w))
    else if wanted
    then (ok (suc (w.env.number w.tick)), called (start d) (with_daemon d w))
    else (ok 0, called (start d) w)

-- Stop(pid): process.StopPID.
unfoldable pub stop_daemon : Daemon → ℕ → M (Unit {0})
unfolding change forget
stop_daemon d pid = change (stop d pid) (forget d pid)

-- process.Fingerprint: absent for a process that has ended.
unfoldable pub fingerprint_of : Daemon → ℕ → M Fingerprint
unfolding forget digest_at
fingerprint_of d pid w =
    if w.env.fails w.tick
    then (err (fault (fingerprint d pid)), called (fingerprint d pid) w)
    else if pid == 0
    then (ok none, called (fingerprint d pid) w)
    else if w.env.flag w.tick
    then (
      ok (some (digest_at pid (w.env.digest w.tick) (slot d w.host))),
      called (fingerprint d pid) w,
    )
    else (ok none, called (fingerprint d pid) (record w { host = forget d pid w.host }))

-- process.MatchesFingerprint at a digest: no match means that the process has ended.
unfoldable pub process_matches : Daemon → ℕ → ℕ → M Bool
unfolding unless_same
process_matches d pid digest w =
    if w.env.fails w.tick
    then (err (fault (matches d pid)), called (matches d pid) w)
    else if w.env.flag w.tick
    then (ok true, called (matches d pid) w)
    else (
      ok false,
      called (matches d pid)
          (record w { host = set_slot d (unless_same pid digest (slot d w.host)) w.host }),
    )

-- Running(pid): process.IsAlive.
unfoldable pub process_running : Daemon → ℕ → M Bool
unfolding forget
process_running d pid w =
    if pid == 0
    then (ok false, called (running d pid) w)
    else if w.env.flag w.tick
    then (ok true, called (running d pid) w)
    else (ok false, called (running d pid) (record w { host = forget d pid w.host }))

unfoldable pub enable_forwarding : M (Unit {0})
unfolding change
enable_forwarding = change sysctl_enable (λ h. record h { forwarding = 1 })

unfoldable pub restore_forwarding : ℕ → M (Unit {0})
unfolding change
restore_forwarding before = change (sysctl_restore before) (λ h. record h { forwarding = before })

-- Load: where pf cannot be enabled, the rules that were loaded are flushed again, and the error of
-- that is dropped; it leaves the rules loaded.
unfoldable pub load_firewall : Bool → M (Unit {0})
load_firewall enable w =
    if w.env.fails w.tick
    then (if enable && w.env.partly w.tick
        then (
          err (uncleaned (pf_load enable)),
          called (pf_load enable) (set_host (λ h. record h { anchor = true }) w),
        )
        else (err (fault (pf_load enable)), called (pf_load enable) w))
    else (
      ok tt,
      called (pf_load enable) (
          set_host (λ h. record h { anchor = true; firewall = if enable then true else h.firewall })
            w),
    )

-- Unload flushes the rules and then disables pf; either part may fail.
unfoldable pub unload_firewall : Bool → M (Unit {0})
unload_firewall disable w =
    if w.env.fails w.tick
    then (
      err (fault (pf_unload disable)),
      called (pf_unload disable) (
          set_host
            (λ h. record h {
              anchor = if w.env.partly w.tick then false else h.anchor;
              firewall = if disable && w.env.flag w.tick then false else h.firewall;
            })
            w),
    )
    else (
      ok tt,
      called (pf_unload disable) (
          set_host
            (λ h. record h { anchor = false; firewall = if disable then false else h.firewall }) w),
    )

unfoldable pub add_alias : M (Unit {0})
unfolding change
add_alias = change add_gateway (λ h. record h { alias = true })

unfoldable pub remove_alias : M (Unit {0})
unfolding change
remove_alias = change remove_gateway (λ h. record h { alias = false })

-- SystemDNS.Prepare, Enable and Restore. A resolver that somebody else has set is left alone.
unfoldable pub prepare_system_dns : M DnsSnapshot
unfolding answer
prepare_system_dns = answer prepare_dns λ w. record {
  before = w.host.resolver;
  resolvers = w.env.resolvers;
  domains = w.env.domains;
  owned = false;
  verified_at = 0;
}

unfoldable pub enable_system_dns : M (Unit {0})
unfolding change
enable_system_dns = change dns_enable (λ h. record h { resolver = capture })

give_back : Resolver → Resolver → Resolver
give_back before capture = before
give_back before (servers s) = servers s

is_captured : Resolver → Bool
is_captured capture = true
is_captured (servers s) = false

unfoldable pub restore_dns_snapshot : DnsSnapshot → M Bool
unfolding give_back is_captured
restore_dns_snapshot snapshot w =
    if not snapshot.owned
    then (ok false, w)
    else let restored =
        set_host (λ h. record h { resolver = give_back snapshot.before h.resolver }) w in
      if w.env.fails w.tick
      then (
        err (fault dns_restore),
        called dns_restore (if w.env.partly w.tick then restored else w),
      )
      else (ok (is_captured w.host.resolver || w.env.flag w.tick), called dns_restore restored)

-- SystemProxy.Prepare refuses a service whose proxy is on.
prepared_proxy : Proxy → Result Err ProxySnapshot
prepared_proxy (user snapshot) = ok snapshot
prepared_proxy (mixed port) = err (fault prepare_proxy)

unfoldable pub prepare_system_proxy : M ProxySnapshot
unfolding prepared_proxy
prepare_system_proxy w =
    if w.env.fails w.tick
    then (err (fault prepare_proxy), called prepare_proxy w)
    else (prepared_proxy w.host.proxy, called prepare_proxy w)

unfoldable pub enable_system_proxy : ℕ → M (Unit {0})
unfolding change
enable_system_proxy port = change proxy_enable (λ h. record h { proxy = mixed port })

unfoldable pub restore_system_proxy : ProxySnapshot → M (Unit {0})
unfolding change
restore_system_proxy snapshot = change proxy_restore (λ h. record h { proxy = user snapshot })
