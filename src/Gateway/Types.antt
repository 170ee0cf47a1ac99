-- ===== src/Gateway/Types.antt =====
-- The data of the gateway lifecycle: the parts of config.Config that the lifecycle reads
-- (internal/config/config.go), the runtime state file (internal/runtime/state.go), and the errors.
use opensurge_fnos.Base.{Bool, List, Option, false, if◌then◌else◌, ltb, not, true, ℕ, ◌&&◌, ◌||◌}
use opensurge_fnos.Text.{Text, equal_fold, is_empty, trim_space}

pub data Mode : Type 0 where
  isolated_lan same_lan same_wifi_dhcp : Mode

pub data TunIpv6 : Type 0 where
  off auto always : TunIpv6

-- A DHCP reservation of the compiled device policy.
pub record Reservation : Type 0 where
  pub ipv4 : Text
  pub mac : Text

-- device.PolicyBundle, as far as the lifecycle reads it.
pub record Bundle : Type 0 where
  pub digest : Text
  pub reservations : List Reservation

pub record Config : Type 0 where
  pub mode : Mode
  pub interface : Text
  pub upstream_interface : Text
  pub lan_ip : Option ℕ  -- net.ParseIP(LANIP).To4(), as a 32-bit number
  pub mixed_port : ℕ
  pub tun_enabled : Bool
  pub tun_auto_route : Bool
  pub tun_ipv6 : TunIpv6
  pub dns_ipv6 : Bool
  pub dhcp_enabled : Bool
  pub system_dns_enabled : Bool
  pub resolvers : List Text
  pub domains : List Text
  pub system_proxy_enabled : Bool
  pub tailscale_enabled : Bool
  pub bundle : Option Bundle

abbrev pub is_same_lan : Mode → Bool
is_same_lan same_lan = true
is_same_lan same_wifi_dhcp = true
is_same_lan isolated_lan = false

unfoldable pub manage_system_dns : Config → Bool
manage_system_dns c = c.system_dns_enabled && c.tun_enabled && c.tun_auto_route

-- A SHA-256 fingerprint of a process is absent ("" in the source) or a digest.
abbrev pub Fingerprint : Type 0
Fingerprint = Option ℕ

-- The DNS servers of the host's network service: those set by somebody else (none of them means
-- automatic DNS), or the one capture address of mihomo's TUN (config.LocalSystemDNSServer).
pub data Resolver : Type 0 where
  servers : List Text → Resolver
  capture : Resolver

pub record DnsSnapshot : Type 0 where
  pub before : Resolver  -- Servers
  pub resolvers : List Text
  pub domains : List Text
  pub owned : Bool
  pub verified_at : ℕ  -- 0 is the zero time

pub record ProxySnapshot : Type 0 where
  pub network_service : Text
  pub http_server : Text
  pub http_port : ℕ
  pub https_server : Text
  pub https_port : ℕ

pub data Ipv6Reason : Type 0 where
  disabled forced forced_unknown detection_failed available unavailable : Ipv6Reason

pub record State : Type 0 where
  pub pid_dnsmasq : ℕ
  pub dnsmasq_fingerprint : Fingerprint
  pub pid_mihomo : ℕ
  pub mihomo_fingerprint : Fingerprint
  pub pid_packet : ℕ
  pub packet_fingerprint : Fingerprint
  pub boot_session_id : Text
  pub ip_forwarding_before : ℕ
  pub pf_enabled_before : Bool
  pub pf_anchor_loaded : Bool
  pub device_policy_digest : Text
  pub profile_digest : ℕ
  pub system_proxy : Option ProxySnapshot
  pub system_dns : Option DnsSnapshot
  pub mac_tun_ipv6 : Bool
  pub dns_ipv6 : Bool
  pub tun_ipv6_requested : TunIpv6
  pub packet_effective : Bool
  pub native_ipv6_available : Bool
  pub ipv6_reason : Ipv6Reason
  pub alias_owned : Bool
  pub ra_effective : Bool
  pub started_at : ℕ  -- 0 is the zero time

pub record BootSession : Type 0 where
  pub id : Text
  pub booted_at : ℕ  -- 0 is the zero time

-- State.BelongsToBoot of internal/runtime/boot.go.
unfoldable pub belongs_to_boot : State → BootSession → Bool
belongs_to_boot s boot =
    let state_id = trim_space s.boot_session_id in
    let boot_id = trim_space boot.id in
    if not (is_empty state_id) && not (is_empty boot_id)
    then equal_fold state_id boot_id
    else if not (ltb 0 s.started_at) || not (ltb 0 boot.booted_at)
    then false
    else not (ltb s.started_at boot.booted_at)

pub data Daemon : Type 0 where
  mihomo dnsmasq packet : Daemon

pub data Service : Type 0 where
  dhcp_service mihomo_service pf_service sysctl_service packet_service : Service

-- The phases that ReportProgress names, and the notices of the Tailscale warm-up.
pub data Phase : Type 0 where
  checking_runtime validating_network checking_reservations preparing_config validating_config
        saving_config saving_runtime enabling_forwarding starting_mihomo starting_ipv6 starting_dns
        applying_firewall enabling_dns enabling_proxy rolling_back restoring_system_dns
        restoring_system_proxy stopping_dns stopping_ipv6 stopping_mihomo restoring_network
        clearing_runtime initiating_tailscale warmup_unavailable warmup_started :
      Phase

-- One call of a dependency of `gatewayDeps`, or of another package's effect.
pub data Call : Type 0 where
  progress : Phase → Call
  context_err load_state remove_state ensure current_boot prepare_policy validate_config
        prepare_mihomo_policy stop_prepared native_ipv6 check_gateway commit prepare_proxy
        prepare_dns sysctl_current pf_enabled digest_profile reconcile_leases write_snapshot
        remove_snapshot sysctl_enable add_gateway remove_gateway withdraw pf_loaded dns_enable
        dns_restore proxy_enable proxy_restore warm_tailscale archive_log make_temp interfaces
        clock :
      Call
  save_state : State → Call
  check write_config validate_written : Service → Call
  interface_by_name interface_addrs : Text → Call
  probe : Reservation → Call
  start : Daemon → Call
  stop fingerprint matches running : Daemon → ℕ → Call
  sysctl_restore : ℕ → Call
  pf_load pf_unload : Bool → Call

pub data Err : Type 0 where
  fault : Call → Err  -- what a dependency returned
  uncleaned : Call → Err  -- the same error, where the call has failed to undo what it had done
  cancelled not_root commit_required state_exists not_running interrupted degraded packet_degraded
        profile_differs anchor_invisible needs_same_interface interfaces_must_differ lan_ip_not_ipv4
        lan_ip_missing :
      Err
  lan_ip_duplicate : Text → Err
  vanished : Daemon → Err  -- the process disappeared before its identity could be recorded
  join : Err → Err → Err
  dns_retained proxy_retained rollback_failed cleanup_failed : Err → Err → Err
  reload_candidate reload_stop reload_start : Err → Err
