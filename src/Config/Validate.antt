-- ===== src/Config/Validate.antt =====
-- Validate, ValidateRuntime and ValidateDevicePolicyCandidate.
use opensurge_fnos.Base.{
  Bool, Option, false, if◌then◌else◌, is_some, none, not, some, true, ◌&&◌, ◌||◌,
}
use opensurge_fnos.Config.Addresses.{validate_dhcp_range_in_lan, validate_optional_bypass_addresses}
use opensurge_fnos.Config.Policies.{
  compile_policy_bundle, ip_only_active, prepare_device_policy, validate_device_policy, with_bundle,
}
use opensurge_fnos.Config.Profiles.{
  validate_mihomo_profile, validate_transparent, validate_upstream_proxy,
}
use opensurge_fnos.Config.Tailnet.{validate_tailscale}
use opensurge_fnos.Config.Types.{
  Config, DevicePolicyConfig, DnsConfig, GatewayConfig, Outside, PolicyBundle, ipv6_requested,
  lan_scope, must, same_lan_mode, same_wifi_dhcp_mode, shares_lan, tun_enabled, ◌&?◌,
}
use opensurge_fnos.Config.Words.{
  is_blank, is_zero, valid_optional_port, valid_port, validate_dns_upstream,
}
use opensurge_fnos.Device.Policy.{PolicySet}
use opensurge_fnos.Exec.{Result, err, ok}
use opensurge_fnos.Lan.Scope.{Scope, ScopeErr, usable_host, valid_prefix_len}
use opensurge_fnos.Text.{Text, text, text_eq}

unfoldable known_mode : Text → Bool
unfolding text_eq
known_mode m =
    text_eq m (text "isolated_lan") || text_eq m same_lan_mode || text_eq m same_wifi_dhcp_mode

unfoldable pub validate_gateway : Outside → GatewayConfig → Option Text
unfolding known_mode is_blank valid_prefix_len is_zero
validate_gateway o g =
    must (known_mode g.mode) "gateway.mode"
    &? must (not (is_blank g.interface)) "gateway.interface"
    &? must (not (is_blank g.upstream_interface)) "gateway.upstream_interface"
    &? must (is_some (o.net.ipv4_of g.lan_ip)) "gateway.lan_ip"
    &? must (is_zero g.lan_prefix_len || valid_prefix_len g.lan_prefix_len) "gateway.lan_prefix_len"

unfoldable pub validate_dhcp : Outside → Config → Scope → Option Text
unfolding is_blank validate_dhcp_range_in_lan
validate_dhcp o c s =
    if not c.dhcp.enabled
    then none
    else must (not (is_blank c.dhcp.binary)) "dhcp.binary"
      &? must (is_some (o.net.ipv4_of c.dhcp.range_start)) "dhcp.range_start"
      &? must (is_some (o.net.ipv4_of c.dhcp.range_end)) "dhcp.range_end"
      &? must (not (is_blank c.dhcp.lease_time)) "dhcp.lease_time"
      &? validate_dhcp_range_in_lan o c s

unfoldable pub validate_dns : Outside → DnsConfig → Option Text
unfolding valid_port validate_dns_upstream
validate_dns o d =
    must (is_some (o.net.ipv4_of d.listen)) "dns.listen"
    &? must (valid_port d.port) "dns.port"
    &? validate_dns_upstream o d.upstream

unfoldable pub validate_mihomo : Config → Option Text
unfolding is_blank valid_port valid_optional_port is_zero validate_mihomo_profile
validate_mihomo c =
    must (not (is_blank c.mihomo.binary)) "mihomo.binary"
    &? must (not (is_blank c.mihomo.config)) "mihomo.config"
    &? must (valid_port c.mihomo.mixed_port) "mihomo.mixed_port"
    &? must (valid_optional_port c.mihomo.redir_port) "mihomo.redir_port"
    &? must (is_zero c.mihomo.redir_port) "mihomo.redir_port"
    &? must (not (is_blank c.mihomo.api_addr)) "mihomo.api_addr"
    &? validate_mihomo_profile c

unfoldable pub validate_pf : Config → Option Text
unfolding is_blank valid_optional_port is_zero
validate_pf c =
    must (not (is_blank c.anchor_name)) "pf.anchor_name"
    &? must (valid_optional_port c.redirect_tcp_to) "pf.redirect_tcp_to"
    &? must (is_zero c.redirect_tcp_to) "pf.redirect_tcp_to"

-- What the gateway's mode asks of the other sections.
unfoldable pub validate_mode_of : Config → Option Text
unfolding ipv6_requested shares_lan tun_enabled text_eq
validate_mode_of c =
    must
      (not (
        ipv6_requested c.transparent
        && shares_lan c.gateway
        && not c.transparent.ipv6_shared_l2_ready))
      "transparent.tun_ipv6"
    &? must (not (c.local_system_proxy && not (tun_enabled c.transparent)))
        "local_system_proxy.enabled"
    &? must (not (shares_lan c.gateway) || tun_enabled c.transparent) "gateway.mode"
    &? must (not (text_eq c.gateway.mode same_lan_mode) || not c.dhcp.enabled) "gateway.mode"
    &? must (not (text_eq c.gateway.mode same_wifi_dhcp_mode) || c.dhcp.enabled) "gateway.mode"

-- The sections after the device policy.
unfoldable pub validate_rest : Outside → Config → Scope → Bool → Option Text
unfolding validate_dns validate_mihomo validate_tailscale validate_pf validate_transparent
    validate_mode_of validate_upstream_proxy is_blank
validate_rest o c s check_device_policy =
    validate_dns o c.dns
    &? validate_mihomo c
    &? validate_tailscale o c s check_device_policy
    &? validate_pf c
    &? validate_transparent c.transparent
    &? validate_mode_of c
    &? validate_upstream_proxy c.upstream_proxy
    &? must (not (is_blank c.runtime_dir)) "runtime.dir"

unfoldable pub validate_prepared : Outside → Scope → Result Text Config → Option Text
unfolding validate_device_policy validate_rest
validate_prepared o s (err e) = some e
validate_prepared o s (ok c) = validate_device_policy o c s &? validate_rest o c s true

unfoldable pub validate_on : Outside → Config → Bool → Result ScopeErr Scope → Option Text
unfolding usable_host validate_dhcp validate_optional_bypass_addresses validate_prepared
    validate_rest prepare_device_policy
validate_on o c check (err e) = some (text "gateway.lan_ip")
validate_on o c check (ok s) =
    must (usable_host s s.gateway) "gateway.lan_ip"
    &? validate_dhcp o c s
    &? validate_optional_bypass_addresses o c.dhcp
    &? (if check
        then validate_prepared o s (prepare_device_policy o c)
        else validate_rest o c s false)

-- validate, with whether the device policy is checked: `none` accepts.
unfoldable pub validate : Outside → Config → Bool → Option Text
unfolding validate_gateway validate_on lan_scope
validate o c check = validate_gateway o c.gateway &? validate_on o c check (lan_scope o c)

unfoldable pub candidate_file : Text → Text
unfolding is_blank
candidate_file f = if is_blank f then text "<candidate>" else f

unfoldable pub candidate : Config → PolicyBundle → Config
unfolding candidate_file with_bundle
candidate c b =
    let policy : DevicePolicyConfig = record (c.device_policy) {
      file = candidate_file c.device_policy.file;
      bundle = some b;
    } in
    record c { device_policy = policy }

unfoldable pub validate_candidate_bundle : Outside → Config → Result Text PolicyBundle → Option Text
unfolding candidate validate
validate_candidate_bundle o c (err e) = some e
validate_candidate_bundle o c (ok b) = validate o (candidate c b) true

unfoldable pub candidate_on : Outside → Config → PolicySet → Result ScopeErr Scope → Option Text
unfolding validate_candidate_bundle compile_policy_bundle ip_only_active
candidate_on o c set (err e) = some (text "gateway.lan_ip")
candidate_on o c set (ok s) =
    validate_candidate_bundle o c (compile_policy_bundle o set s (ip_only_active c))

unfoldable pub validate_device_policy_candidate : Outside → Config → PolicySet → Option Text
unfolding candidate_on lan_scope
validate_device_policy_candidate o c set = candidate_on o c set (lan_scope o c)
