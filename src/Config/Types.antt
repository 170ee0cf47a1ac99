-- ===== src/Config/Types.antt =====
-- The configuration (internal/config/config.go), as far as its validation reads it, and what the
-- validation calls outside of the package.
use opensurge_fnos.Base.{
  Bool, List, Option, String, [], false, if◌then◌else◌, none, not, some, true, ℕ, ◌||◌, ◌∷◌,
}
use opensurge_fnos.Device.Compiled.{CompiledPolicy}
use opensurge_fnos.Device.Policy.{Parsers, PolicySet, ℤ}
use opensurge_fnos.Exec.{Result}
use opensurge_fnos.Lan.Scope.{Scope, ScopeErr, new_scope}
use opensurge_fnos.Text.{Text, text, text_eq}

pub record GatewayConfig : Type 0 where
  pub mode : Text
  pub interface : Text
  pub lan_ip : Text
  pub lan_prefix_len : ℤ
  pub upstream_interface : Text

pub record DhcpConfig : Type 0 where
  pub binary : Text
  pub enabled : Bool
  pub range_start : Text
  pub range_end : Text
  pub lease_time : Text
  pub bypass_gateway : Text
  pub bypass_dns : List Text

-- device.PolicyBundle, without its digest and its canonical JSON. The LAN that it is active on is
-- the network address and the prefix length that the scope prints, or `none` for the empty text.
pub record PolicyBundle : Type 0 where
  pub policy : PolicySet
  pub compiled : CompiledPolicy
  pub ip_only_devices_active : Bool
  pub active_lan : Option (ℕ × ℕ)

pub record DevicePolicyConfig : Type 0 where
  pub file : Text
  pub protected_ipv4 : List Text
  pub bundle : Option PolicyBundle

pub record DnsConfig : Type 0 where
  pub listen : Text
  pub port : ℤ
  pub upstream : Text

pub record MihomoConfig : Type 0 where
  pub binary : Text
  pub config : Text
  pub profile_mode : Text
  pub profile : Text
  pub profile_source_digest : Text
  pub profile_overlay_digest : Text
  pub mixed_port : ℤ
  pub redir_port : ℤ
  pub api_addr : Text

pub record TailscaleConfig : Type 0 where
  pub enabled : Bool
  pub display_name : Text
  pub hostname : Text
  pub control_url : Text
  pub auth_key_file : Text
  pub state_dir : Text
  pub accept_routes : Bool
  pub magic_dns_suffixes : List Text
  pub peer_cidrs : List Text
  pub subnet_routes : List Text
  pub allow_all_devices : Bool
  pub allowed_devices : List Text
  pub exit_node : Text
  pub exit_node_allow_lan_access : Bool

pub record TransparentConfig : Type 0 where
  pub mode : Text
  pub tun_device : Text
  pub tun_stack : Text
  pub tun_ipv6 : Text
  pub ipv6_shared_l2_ready : Bool
  pub ipv6_packet_broker_binary : Text
  pub ipv6_packet_mtu : ℤ

pub record UpstreamProxyConfig : Type 0 where
  pub enabled : Bool
  pub name : Text
  pub kind : Text  -- Type
  pub server : Text
  pub port : ℤ
  pub username : Text
  pub password : Text
  pub match_domain : Text

pub record Config : Type 0 where
  pub gateway : GatewayConfig
  pub dhcp : DhcpConfig
  pub device_policy : DevicePolicyConfig
  pub dns : DnsConfig
  pub mihomo : MihomoConfig
  pub tailscale : TailscaleConfig
  pub anchor_name : Text  -- PF
  pub redirect_tcp_to : ℤ
  pub transparent : TransparentConfig
  pub local_system_proxy : Bool
  pub upstream_proxy : UpstreamProxyConfig
  pub runtime_dir : Text

-- url.Parse: what the validation reads of a URL.
pub record Url : Type 0 where
  pub scheme : Text
  pub host : Text
  pub has_user : Bool
  pub raw_query : Text
  pub fragment : Text

-- netip.Prefix, as a number of 32 or 128 bits with a prefix length.
pub record Prefix : Type 0 where
  pub is_6 : Bool
  pub address : ℕ
  pub bits : ℕ

pub record Outside : Type 0 where
  pub net : Parsers
  pub print_ip : ℕ → Text
  pub load_policy_set : Text → Option PolicySet  -- the file that LoadPolicySet reads and decodes
  pub atoi : Text → Option ℤ
  pub rune_count : Text → ℕ
  pub parse_url : Text → Option Url
  pub parse_prefix : Text → Option Prefix
  pub print_prefix : Prefix → Text
  pub is_global_unicast : Prefix → Bool  -- of the address
  pub is_private : Prefix → Bool
  pub overlaps : Prefix → Prefix → Bool

abbrev pub same_bool : Bool → Bool → Bool
same_bool true b = b
same_bool false b = not b

abbrev pub is_nil : List Text → Bool
is_nil [] = true
is_nil (t ∷ ts) = false

-- The first error of a list of checks, by the setting that it names.
infixr 15 ◌&?◌
unfoldable pub ◌&?◌ : Option Text → Option Text → Option Text
none &? next = next
some e &? next = some e

unfoldable pub must : Bool → String → Option Text
must b name = if b then none else some (text name)

abbrev pub same_lan_mode : Text
same_lan_mode = text "same_lan"

abbrev pub same_wifi_dhcp_mode : Text
same_wifi_dhcp_mode = text "same_wifi_dhcp"

unfoldable pub shares_lan : GatewayConfig → Bool
unfolding text_eq
shares_lan g = text_eq g.mode same_lan_mode || text_eq g.mode same_wifi_dhcp_mode

unfoldable pub tun_enabled : TransparentConfig → Bool
unfolding text_eq
tun_enabled t = text_eq t.mode (text "tun")

unfoldable pub ipv6_requested : TransparentConfig → Bool
unfolding text_eq
ipv6_requested t = not (text_eq t.tun_ipv6 (text "off"))

-- LANScope.
unfoldable pub lan_scope : Outside → Config → Result ScopeErr Scope
unfolding new_scope
lan_scope o c = new_scope (o.net.ipv4_of c.gateway.lan_ip) c.gateway.lan_prefix_len
