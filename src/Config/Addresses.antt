-- ===== src/Config/Addresses.antt =====
-- The addresses of the LAN: the DHCP range and the router that a bypass leads to. Addresses are
-- numbers, which compare as their bytes do.
use opensurge_fnos.Base.{
  Bool, List, Option, [], all, false, if◌then◌else◌, is_some, leb, none, not, some, true, ℕ, ◌&&◌,
  ◌==◌, ◌||◌, ◌∷◌,
}
use opensurge_fnos.Config.Types.{
  Config, DhcpConfig, Outside, is_nil, must, same_wifi_dhcp_mode, ◌&?◌,
}
use opensurge_fnos.Config.Words.{is_blank}
use opensurge_fnos.Device.Compile.{is_bypassed}
use opensurge_fnos.Device.Policy.{ManagedDevice, PolicySet}
use opensurge_fnos.Lan.Scope.{Scope, contains_ip, usable_host}
use opensurge_fnos.Text.{Text, text, text_eq, trim_space}

unfoldable pub range_inside : Scope → Option ℕ → Option ℕ → Option Text
unfolding contains_ip usable_host
range_inside s (some start) (some end) =
    must (contains_ip s start && contains_ip s end) "dhcp range in LAN"
    &? must (leb start end) "dhcp.range_start"
    &? must (usable_host s start && usable_host s end) "dhcp range"
    &? must (not (leb start s.gateway && leb s.gateway end)) "gateway.lan_ip"
range_inside s _ _ = some (text "dhcp.enabled")

unfoldable pub validate_dhcp_range_in_lan : Outside → Config → Scope → Option Text
unfolding range_inside
validate_dhcp_range_in_lan o c s =
    range_inside s (o.net.ipv4_of c.dhcp.range_start) (o.net.ipv4_of c.dhcp.range_end)

unfoldable pub validate_optional_bypass_addresses : Outside → DhcpConfig → Option Text
unfolding trim_space is_blank
validate_optional_bypass_addresses o d =
    must (is_blank d.bypass_gateway || is_some (o.net.ipv4_of (trim_space d.bypass_gateway)))
      "dhcp.bypass_gateway"
    &? must (all (λ v. is_some (o.net.ipv4_of (trim_space v))) d.bypass_dns) "dhcp.bypass_dns"

unfoldable pub uses_upstream_router : List ManagedDevice → Bool
unfolding is_bypassed
uses_upstream_router [] = false
uses_upstream_router (d ∷ ds) = is_bypassed d || uses_upstream_router ds

unfoldable pub outside_range : Option ℕ → Option ℕ → ℕ → Bool
outside_range (some start) (some end) ip = not (leb start ip && leb ip end)
outside_range _ _ ip = true

unfoldable pub router_inside : Outside → Config → Scope → Option ℕ → Option Text
unfolding contains_ip usable_host outside_range
router_inside o c s none = some (text "dhcp.bypass_gateway")
router_inside o c s (some ip) =
    must (not (is_nil c.dhcp.bypass_dns)) "dhcp.bypass_dns"
    &? must (contains_ip s ip) "dhcp.bypass_gateway"
    &? must (usable_host s ip && not (ip == s.gateway)) "dhcp.bypass_gateway"
    &? must (outside_range (o.net.ipv4_of c.dhcp.range_start) (o.net.ipv4_of c.dhcp.range_end) ip)
        "dhcp.bypass_gateway"

unfoldable pub validate_router_bypass : Outside → Config → Scope → PolicySet → Option Text
unfolding uses_upstream_router router_inside text_eq trim_space
validate_router_bypass o c s policy =
    if not (uses_upstream_router policy.devices)
    then none
    else must (text_eq c.gateway.mode same_wifi_dhcp_mode) "gateway_target"
      &? router_inside o c s (o.net.ipv4_of (trim_space c.dhcp.bypass_gateway))
