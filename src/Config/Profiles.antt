-- ===== src/Config/Profiles.antt =====
-- The proxy engine's profile, transparent mode and the upstream proxy.
use opensurge_fnos.Base.{Bool, Option, false, if◌then◌else◌, leb, none, not, some, ◌&&◌, ◌||◌}
use opensurge_fnos.Config.Types.{
  Config, MihomoConfig, TransparentConfig, UpstreamProxyConfig, ipv6_requested, must, tun_enabled,
  ◌&?◌,
}
use opensurge_fnos.Config.Words.{
  has_control_char, is_blank, valid_domain_rule, valid_port, valid_rule_token, valid_sha256_digest,
}
use opensurge_fnos.Device.Policy.{negsuc, pos, ℤ}
use opensurge_fnos.Text.{Text, has_prefix, is_empty, text, text_eq, trim_space}

unfoldable validate_managed : MihomoConfig → Option Text
unfolding is_blank
validate_managed m =
    must (is_blank m.profile) "mihomo.profile"
    &? must (is_empty m.profile_source_digest && is_empty m.profile_overlay_digest)
        "mihomo profile composition digests"

unfoldable validate_imported : MihomoConfig → Bool → Option Text
unfolding is_blank valid_sha256_digest
validate_imported m upstream =
    must (not (is_blank m.profile)) "mihomo.profile"
    &? must (is_empty m.profile_source_digest || valid_sha256_digest m.profile_source_digest)
        "mihomo.profile_source_digest"
    &? must (is_empty m.profile_overlay_digest || valid_sha256_digest m.profile_overlay_digest)
        "mihomo.profile_overlay_digest"
    &? must (not upstream) "upstream_proxy.enabled"

unfoldable pub validate_mihomo_profile : Config → Option Text
unfolding validate_managed validate_imported text_eq
validate_mihomo_profile c =
    if text_eq c.mihomo.profile_mode (text "managed")
    then validate_managed c.mihomo
    else if text_eq c.mihomo.profile_mode (text "imported")
    then validate_imported c.mihomo c.upstream_proxy.enabled
    else some (text "mihomo.profile_mode")

unfoldable valid_mtu : ℤ → Bool
valid_mtu (pos n) = leb 1280 n && leb n 9000
valid_mtu (negsuc n) = false

unfoldable validate_mode : TransparentConfig → Option Text
unfolding text_eq has_prefix
validate_mode t =
    if text_eq t.mode (text "off")
    then none
    else if text_eq t.mode (text "tun")
    then must (has_prefix t.tun_device (text "utun")) "transparent.tun_device"
      &? must
          (text_eq t.tun_stack (text "system")
            || text_eq t.tun_stack (text "gvisor")
            || text_eq t.tun_stack (text "mixed"))
          "transparent.tun_stack"
    else some (text "transparent.mode")

unfoldable pub validate_transparent : TransparentConfig → Option Text
unfolding text_eq ipv6_requested tun_enabled is_blank valid_mtu validate_mode
validate_transparent t =
    must
      (text_eq t.tun_ipv6 (text "off")
        || text_eq t.tun_ipv6 (text "auto")
        || text_eq t.tun_ipv6 (text "always"))
      "transparent.tun_ipv6"
    &? must (not (ipv6_requested t) || tun_enabled t) "transparent.tun_ipv6"
    &? must (not (ipv6_requested t) || not (is_blank t.ipv6_packet_broker_binary))
        "transparent.ipv6_packet_broker_binary"
    &? must (not (ipv6_requested t) || valid_mtu t.ipv6_packet_mtu) "transparent.ipv6_packet_mtu"
    &? validate_mode t

unfoldable pub validate_upstream_proxy : UpstreamProxyConfig → Option Text
unfolding is_blank trim_space text_eq has_prefix valid_rule_token valid_domain_rule has_control_char
    valid_port
validate_upstream_proxy p =
    if not p.enabled
    then none
    else must (not (is_blank p.name)) "upstream_proxy.name"
      &? must
          (not (text_eq (trim_space p.name) (text "open-surge-egress"))
            && not (has_prefix (trim_space p.name) (text "open-surge/mac-")))
          "upstream_proxy.name"
      &? must (valid_rule_token p.name) "upstream_proxy.name"
      &? must (text_eq p.kind (text "http") || text_eq p.kind (text "socks5")) "upstream_proxy.type"
      &? must (not (is_blank p.server)) "upstream_proxy.server"
      &? must (not (has_control_char p.server)) "upstream_proxy.server"
      &? must (valid_port p.port) "upstream_proxy.port"
      &? must (valid_domain_rule p.match_domain) "upstream_proxy.match_domain"
      &? must (not (has_control_char p.username || has_control_char p.password)) "upstream_proxy"
