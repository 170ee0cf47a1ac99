-- ===== src/Gateway/Tracked.antt =====
-- Helpers of internal/gateway/manager.go that lifecycle actions share: tracked processes, the
-- collection of cleanup errors, the IPv6 path, and the system DNS.
use opensurge_fnos.Base.{Bool, Option, false, if◌then◌else◌, none, not, some, ℕ, ◌&&◌, ◌==◌, ◌||◌}
use opensurge_fnos.Exec.{Result, err, ok, or_else, pure, raise, when◌run◌otherwise◌, ◌>>=◌, ◌>>◌}
use opensurge_fnos.Gateway.Services.{
  process_matches, process_running, remove_alias, restore_dns_snapshot, stop_daemon,
}
use opensurge_fnos.Gateway.Types.{
  Config, Daemon, DnsSnapshot, Err, Fingerprint, State, join, off, packet, restoring_system_dns,
  withdraw,
}
use opensurge_fnos.Gateway.World.{M, ask, report}

-- errors.Join(acc, m()): the action runs whatever `acc` holds.
abbrev pub merge : {A : Type 0} → Option Err → Result Err A → Option Err
merge acc (ok a) = acc
merge none (err e) = some e
merge (some e) (err e') = some (join e e')

unfoldable pub collect : {A : Type 0} → Option Err → M A → M (Option Err)
collect acc m w = (ok (merge acc (m w).0), (m w).1)

-- stopTrackedProcess: with a fingerprint, only the process that it names is stopped.
unfoldable pub stop_tracked : Daemon → ℕ → Fingerprint → M (Unit {0})
unfolding stop_daemon process_matches
stop_tracked d pid none = stop_daemon d pid
stop_tracked d pid (some digest) = do
  same ← process_matches d pid digest
  when same run stop_daemon d pid otherwise pure tt

unfoldable pub both_running : Bool → Daemon → ℕ → M Bool
both_running same d pid = when same run process_running d pid otherwise pure false

-- trackedProcessRunning: a process that cannot be verified does not count.
unfoldable pub tracked_running : Daemon → ℕ → Fingerprint → M Bool
unfolding process_running process_matches both_running
tracked_running d pid none = process_running d pid
tracked_running d pid (some digest) = do
  same ← or_else (process_matches d pid digest) (λ e. pure false)
  both_running same d pid

-- restoreSystemDNS: whether the gateway still owned the resolver.
unfoldable pub restore_dns : Option DnsSnapshot → M Bool
unfolding report restore_dns_snapshot
restore_dns none = pure false
restore_dns (some snapshot) =
    when not snapshot.owned
    run pure false
    otherwise do report restoring_system_dns; restore_dns_snapshot snapshot

-- appliedConfigFromState
unfoldable pub applied_config : Config → State → Config
applied_config c s = record c {
  dns_ipv6 = s.dns_ipv6;
  resolvers = elim s.system_dns [ none ↦ c.resolvers | some d ↦ d.resolvers ];
  domains = elim s.system_dns [ none ↦ c.domains | some d ↦ d.domains ];
  tun_ipv6 = if s.packet_effective then s.tun_ipv6_requested else off;
}

unfoldable pub remove_owned_alias : Config → State → Option Err → M (Option Err)
unfolding collect ask remove_alias
remove_owned_alias c s acc = when not s.alias_owned run pure acc otherwise do
  acc ←
      when s.ra_effective || (s.packet_effective && (applied_config c s).dhcp_enabled)
      run collect acc (ask withdraw)
      otherwise pure acc
  collect acc remove_alias

unfoldable pub stop_packet : State → Option Err → M (Option Err)
unfolding collect stop_tracked
stop_packet s acc =
    when s.pid_packet == 0
    run pure acc
    otherwise collect acc (stop_tracked packet s.pid_packet s.packet_fingerprint)

-- Returns the error that the parts have collected, if any.
abbrev pub raise_some : Option Err → M (Unit {0})
raise_some none = pure tt
raise_some (some e) = raise e

-- cleanupIPv6
unfoldable pub cleanup_ipv6 : Config → State → M (Unit {0})
unfolding remove_owned_alias stop_packet
cleanup_ipv6 c s =
    when not s.packet_effective && s.pid_packet == 0 && not s.alias_owned
    run pure tt
    otherwise do acc ← remove_owned_alias c s none; acc ← stop_packet s acc; raise_some acc
