-- ===== src/Config/Tailnet.antt =====
-- The Tailscale section. netip's and net/url's functions are what `Outside` says.
use opensurge_fnos.Base.{
  Bool, List, Option, [], all, false, if◌then◌else◌, leb, none, not, some, true, ℕ, ◌%◌, ◌&&◌, ◌*◌,
  ◌+◌, ◌-◌, ◌==◌, ◌^◌, ◌||◌, ◌∷◌,
}
use opensurge_fnos.Config.Types.{
  Config, Outside, PolicyBundle, Prefix, TailscaleConfig, Url, is_nil, must, same_bool, ◌&?◌,
}
use opensurge_fnos.Config.Words.{
  has_control_char, is_blank, valid_dns_label, valid_domain_rule, valid_rule_token,
}
use opensurge_fnos.Device.Bypass.{routes}
use opensurge_fnos.Device.Compiled.{CompiledDevice}
use opensurge_fnos.Lan.Scope.{Scope, network}
use opensurge_fnos.Text.{Text, contains, has_prefix, is_empty, text, text_eq, trim_space}

unfoldable same_prefix : Prefix → Prefix → Bool
same_prefix p q = same_bool p.is_6 q.is_6 && p.address == q.address && p.bits == q.bits

unfoldable width : Prefix → ℕ
width p = if p.is_6 then 128 else 32

-- Prefix.Masked.
unfoldable masked_prefix : Prefix → Prefix
unfolding width
masked_prefix p = record p { address = p.address - p.address % 2 ^ (width p - p.bits) }

-- 100.64.0.0/10 and fd7a:115c:a1e0::/48.
unfoldable tailscale_space : Bool → Prefix
tailscale_space false = record { is_6 = false; address = 100 * 2 ^ 24 + 64 * 2 ^ 16; bits = 10 }
tailscale_space true = record {
  is_6 = true;
  address = 64890 * 2 ^ 112 + 4444 * 2 ^ 96 + 41440 * 2 ^ 80;
  bits = 48;
}

unfoldable pub needs_exact_host : Outside → Prefix → Bool
unfolding tailscale_space width
needs_exact_host o p = o.overlaps p (tailscale_space p.is_6) && not (p.bits == width p)

unfoldable pub lan_prefix : Scope → Prefix
unfolding network
lan_prefix s = record { is_6 = false; address = network s; bits = s.ones }

unfoldable seen_prefix : Prefix → List Prefix → Bool
unfolding same_prefix
seen_prefix p [] = false
seen_prefix p (q ∷ qs) = same_prefix p q || seen_prefix p qs

unfoldable check_prefix : Outside → Bool → Scope → List Prefix → Text → Prefix → Option Text
unfolding same_prefix masked_prefix text_eq trim_space needs_exact_host lan_prefix seen_prefix
check_prefix o routes s seen value p =
    must (same_prefix p (masked_prefix p) && text_eq (o.print_prefix p) (trim_space value)) "CIDR"
    &? must (o.is_global_unicast p) "unicast"
    &? must (routes || not (needs_exact_host o p)) "tailscale.peer_cidrs"
    &? must (not routes || o.is_private p) "private"
    &? must (not (not p.is_6 && o.overlaps p (lan_prefix s))) "overlaps"
    &? must (not (seen_prefix p seen)) "duplicate"

unfoldable check_parsed : Outside → Bool → Scope → List Prefix → Text → Option Prefix → Option Text
unfolding check_prefix
check_parsed o routes s seen value none = some (text "CIDR")
check_parsed o routes s seen value (some p) = check_prefix o routes s seen value p

unfoldable seen_with : List Prefix → Option Prefix → List Prefix
seen_with seen none = seen
seen_with seen (some p) = p ∷ seen

-- validateTailscaleCIDRs, for subnet_routes or for peer_cidrs, with the prefixes seen before.
unfoldable pub validate_tailscale_cidrs :
    Outside → Bool → Scope → List Prefix → List Text → Option Text
unfolding check_parsed seen_with trim_space
validate_tailscale_cidrs o routes s seen [] = none
validate_tailscale_cidrs o routes s seen (v ∷ vs) =
    check_parsed o routes s seen v (o.parse_prefix (trim_space v))
    &? validate_tailscale_cidrs o routes s (seen_with seen (o.parse_prefix (trim_space v))) vs

unfoldable check_url : Option Url → Option Text
unfolding text_eq
check_url none = some (text "tailscale.control_url")
check_url (some u) =
    must
      (not (is_empty u.host) && (text_eq u.scheme (text "https") || text_eq u.scheme (text "http")))
      "tailscale.control_url"
    &? must (not u.has_user && is_empty u.raw_query && is_empty u.fragment) "tailscale.control_url"

unfoldable pub validate_tailscale_control_url : Outside → Text → Option Text
unfolding check_url trim_space
validate_tailscale_control_url o value = check_url (o.parse_url (trim_space value))

unfoldable has_device : Text → List CompiledDevice → Bool
unfolding text_eq
has_device id [] = false
has_device id (d ∷ ds) = text_eq id d.id || has_device id ds

unfoldable allowed_ids : List CompiledDevice → List Text → Option Text
unfolding valid_rule_token has_device
allowed_ids ds [] = none
allowed_ids ds (id ∷ ids) =
    must (valid_rule_token id) "tailscale.allowed_devices"
    &? must (has_device id ds) "tailscale.allowed_devices"
    &? allowed_ids ds ids

unfoldable pub validate_access : TailscaleConfig → Option PolicyBundle → Option Text
unfolding allowed_ids
validate_access t none =
    must (not (t.allow_all_devices || not (is_nil t.allowed_devices))) "tailscale device access"
validate_access t (some b) = allowed_ids b.compiled.devices t.allowed_devices

unfoldable valid_suffix : Text → Bool
unfolding valid_domain_rule has_prefix contains
valid_suffix s = valid_domain_rule s && not (has_prefix s (text ".")) && not (contains s (text "*"))

unfoldable pub validate_tailscale : Outside → Config → Scope → Bool → Option Text
unfolding is_blank has_control_char valid_dns_label validate_tailscale_control_url valid_rule_token
    valid_suffix validate_tailscale_cidrs validate_access
validate_tailscale o c s check_device_policy =
    let t = c.tailscale in
    if not t.enabled
    then none
    else must (not (is_blank t.display_name || has_control_char t.display_name))
        "tailscale.display_name"
      &? must (leb (o.rune_count t.display_name) 64) "tailscale.display_name"
      &? must (valid_dns_label t.hostname) "tailscale.hostname"
      &? validate_tailscale_control_url o t.control_url
      &? must (not (is_blank t.auth_key_file)) "tailscale.auth_key_file"
      &? must (not (is_blank t.state_dir)) "tailscale.state_dir"
      &? must (not (t.exit_node_allow_lan_access && is_blank t.exit_node))
          "tailscale.exit_node_allow_lan_access"
      &? must (is_empty t.exit_node || valid_rule_token t.exit_node) "tailscale.exit_node"
      &? must (not (t.allow_all_devices && not (is_nil t.allowed_devices)))
          "tailscale.allowed_devices"
      &? must (all valid_suffix t.magic_dns_suffixes) "tailscale.magic_dns_suffixes"
      &? validate_tailscale_cidrs o false s [] t.peer_cidrs
      &? validate_tailscale_cidrs o true s [] t.subnet_routes
      &? must (is_nil t.subnet_routes || t.accept_routes) "tailscale.subnet_routes"
      &? (if not check_device_policy then none else validate_access t c.device_policy.bundle)
