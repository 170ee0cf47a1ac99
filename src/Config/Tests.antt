-- ===== src/Config/Tests.antt =====
-- A takeover configuration with a small policy, as it was prepared.
use opensurge_fnos.Base.{List, [], false, is_some, none, refl, some, true, ℕ, ◌∷◌, ◌≡◌, ◌≢◌, ◌≤◌}
use opensurge_fnos.Config.Addresses.{
  outside_range, range_inside, router_inside, uses_upstream_router, validate_dhcp_range_in_lan,
  validate_optional_bypass_addresses, validate_router_bypass,
}
use opensurge_fnos.Config.Candidates.{candidate-validate}
use opensurge_fnos.Config.Devices.{accepted_device}
use opensurge_fnos.Config.Policies.{
  bundled, compile_policy_bundle, ip_only_active, is_current, is_lan, lan_key, load_bundle, named,
  on_scope, prepare_bundle, prepare_device_policy, protected_addresses, put_bundle, validate_bundle,
  validate_device_policy, validate_loaded, validate_policy_on, when_accepted, with_bundle,
}
use opensurge_fnos.Config.Profiles.{
  validate_mihomo_profile, validate_transparent, validate_upstream_proxy,
}
use opensurge_fnos.Config.Ranges.{accepted_takeover_range}
use opensurge_fnos.Config.Tailnet.{
  lan_prefix, needs_exact_host, validate_access, validate_tailscale, validate_tailscale_cidrs,
  validate_tailscale_control_url,
}
use opensurge_fnos.Config.Types.{
  Config, DevicePolicyConfig, DhcpConfig, Outside, PolicyBundle, ipv6_requested, lan_scope, must,
  same_wifi_dhcp_mode, shares_lan, tun_enabled, ◌&?◌,
}
use opensurge_fnos.Config.Validate.{
  candidate, candidate_file, candidate_on, validate, validate_candidate_bundle,
  validate_device_policy_candidate, validate_dhcp, validate_dns, validate_gateway, validate_mihomo,
  validate_mode_of, validate_on, validate_pf, validate_prepared, validate_rest,
}
use opensurge_fnos.Config.Words.{
  contains_any, cut_hash, has_control_char, is_blank, is_zero, valid_dns_label, valid_domain_rule,
  valid_optional_port, valid_port, valid_rule_token, valid_sha256_digest, validate_dns_upstream,
}
use opensurge_fnos.Device.Accept.{has_ip, has_mac}
use opensurge_fnos.Device.Compile.{is_bypassed, is_left_out}
use opensurge_fnos.Device.Compiled.{CompiledPolicy}
use opensurge_fnos.Device.Policy.{pos}
use opensurge_fnos.Device.Tests.{run_validation, sample_net, small_policy, television}
use opensurge_fnos.Exec.{ok}
use opensurge_fnos.Lan.Policy.{
  active_policy_set, add_protected, check_lan_address, check_lan_device, check_lan_ip, check_on_lan,
  devices_in_lan, if_in_lan, in_lan, protected_ips, validate_policy_set_for_lan,
}
use opensurge_fnos.Lan.Scope.{
  Scope, block, broadcast, contains_ip, magnitude, masked, network, new_scope,
  prefix_len_or_default, usable_host, valid_prefix_len,
}
use opensurge_fnos.Lists.{length}
use opensurge_fnos.Text.{has_prefix, text, text_eq, trim_space}

abbrev home_net : Outside
home_net = record {
  net = sample_net;
  print_ip = λ a. text "ip";
  load_policy_set = λ file. some small_policy;
  atoi = λ s. some (pos 53);
  rune_count = λ s. length s;
  parse_url = λ s. none;
  parse_prefix = λ s. none;
  print_prefix = λ p. [];
  is_global_unicast = λ p. true;
  is_private = λ p. true;
  overlaps = λ p q. false;
}

abbrev no_devices : CompiledPolicy
no_devices = record {
  devices = [];
  reservations = [];
  selector_groups = [];
  override_rules = [];
  dedicated_rules = [];
  default_rules = [];
  selector_targets = [];
  action_targets = [];
  rule_providers = [];
}

abbrev home_bundle : PolicyBundle
home_bundle = record {
  policy = small_policy;
  compiled = no_devices;
  ip_only_devices_active = false;
  active_lan = some (3232235776, 24);
}

abbrev unprepared : Config
unprepared = record {
  gateway = record {
    mode = text "same_wifi_dhcp";
    interface = text "en0";
    lan_ip = text "192.168.1.1";
    lan_prefix_len = pos 24;
    upstream_interface = text "en0";
  };
  dhcp = record {
    binary = text "dnsmasq";
    enabled = true;
    range_start = text "192.168.1.100";
    range_end = text "192.168.1.200";
    lease_time = text "12h";
    bypass_gateway = [];
    bypass_dns = [];
  };
  device_policy = record { file = text "policy.json"; protected_ipv4 = []; bundle = none };
  dns = record { listen = text "192.168.1.1"; port = pos 53; upstream = [] };
  mihomo = record {
    binary = text "mihomo";
    config = text "mihomo.yaml";
    profile_mode = text "managed";
    profile = [];
    profile_source_digest = [];
    profile_overlay_digest = [];
    mixed_port = pos 7890;
    redir_port = pos 0;
    api_addr = text "127.0.0.1:9090";
  };
  tailscale = record {
    enabled = false;
    display_name = [];
    hostname = [];
    control_url = [];
    auth_key_file = [];
    state_dir = [];
    accept_routes = false;
    magic_dns_suffixes = [];
    peer_cidrs = [];
    subnet_routes = [];
    allow_all_devices = false;
    allowed_devices = [];
    exit_node = [];
    exit_node_allow_lan_access = false;
  };
  anchor_name = text "opensurge";
  redirect_tcp_to = pos 0;
  transparent = record {
    mode = text "tun";
    tun_device = text "utun9";
    tun_stack = text "mixed";
    tun_ipv6 = text "off";
    ipv6_shared_l2_ready = false;
    ipv6_packet_broker_binary = [];
    ipv6_packet_mtu = pos 0;
  };
  local_system_proxy = false;
  upstream_proxy = record {
    enabled = false;
    name = [];
    kind = [];
    server = [];
    port = pos 0;
    username = [];
    password = [];
    match_domain = [];
  };
  runtime_dir = text "run";
}

abbrev home_config : Config
home_config =
    let policy : DevicePolicyConfig = record (unprepared.device_policy) {
      bundle = some home_bundle;
    } in
    record unprepared { device_policy = policy }

abbrev home_scope : Scope
home_scope = record { gateway = 3232235777; ones = 24 }

-- Opens the validation.
run_config : Unit {0}
unfolding ◌&?◌ must shares_lan tun_enabled ipv6_requested lan_scope is_blank has_control_char
    contains_any valid_rule_token valid_domain_rule valid_dns_label valid_sha256_digest valid_port
    valid_optional_port is_zero cut_hash validate_dns_upstream range_inside
    validate_dhcp_range_in_lan validate_optional_bypass_addresses uses_upstream_router outside_range
    router_inside validate_router_bypass lan_key is_lan bundled when_accepted compile_policy_bundle
    load_bundle with_bundle put_bundle ip_only_active is_current prepare_bundle on_scope
    prepare_device_policy protected_addresses named validate_policy_on validate_loaded
    validate_bundle validate_device_policy validate_mihomo_profile validate_transparent
    validate_upstream_proxy needs_exact_host lan_prefix validate_tailscale_cidrs
    validate_tailscale_control_url validate_access validate_tailscale validate_gateway validate_dhcp
    validate_dns validate_mihomo validate_pf validate_mode_of validate_rest validate_prepared
    validate_on validate candidate_file candidate validate_candidate_bundle candidate_on
    validate_device_policy_candidate run_validation validate_policy_set_for_lan check_on_lan
    check_lan_device check_lan_address check_lan_ip protected_ips add_protected if_in_lan
    contains_ip masked network block usable_host broadcast has_ip is_left_out has_mac trim_space
    text_eq new_scope prefix_len_or_default valid_prefix_len magnitude active_policy_set
    devices_in_lan in_lan is_bypassed has_prefix
run_config = tt

home_config_accepted : validate home_net home_config true ≡ none
unfolding run_config
home_config_accepted = refl

home_config_scope : lan_scope home_net home_config ≡ ok home_scope
unfolding run_config
home_config_scope = refl

-- A range that the gateway is in.
gateway_in_range :
    (let range : DhcpConfig = record (home_config.dhcp) { range_start = text "192.168.1.1" } in
      validate home_net (record home_config { dhcp = range }) false)
    ≡ some (text "gateway.lan_ip")
unfolding run_config
gateway_in_range = refl

takeover_mode : text_eq home_config.gateway.mode same_wifi_dhcp_mode ≡ true
unfolding run_config
takeover_mode = refl

has_policy_file : is_blank unprepared.device_policy.file ≡ false
unfolding run_config
has_policy_file = refl

accepted_takeover_range_example :
    (true ≡ true)
    × (tun_enabled home_config.transparent ≡ true)
    × ((start : ℕ) × (end : ℕ) × (home_net.net.ipv4_of home_config.dhcp.range_start ≡ some start)
        × (home_net.net.ipv4_of home_config.dhcp.range_end ≡ some end)
        × (start ≤ end)
        × ((ip : ℕ)
            → start ≤ ip
            → ip ≤ end
            → (usable_host home_scope ip ≡ true) × (ip ≢ home_scope.gateway)))
accepted_takeover_range_example =
    accepted_takeover_range home_net home_config true home_scope home_config_accepted
      home_config_scope takeover_mode

accepted_device_example :
    (usable_host home_scope 3232235796 ≡ true)
    × (3232235796 ≢ home_scope.gateway)
    × ((ips : List ℕ) × (protected_ips sample_net home_scope
            (protected_addresses home_net home_config home_scope small_policy)
          ≡ ok ips)
        × (has_ip 3232235796 ips ≡ false))
unfolding run_config
accepted_device_example =
    accepted_device home_net home_config home_config home_scope home_bundle []
      (record television {
        id = text "pad";
        mac = text "AA:BB:CC:00:00:02";
        ipv4 = text "192.168.1.21";
      }
        ∷ [])
      television 3232235796 home_config_accepted home_config_scope refl refl refl refl refl refl
      refl

candidate-validate_example :
    is_some (validate_device_policy_candidate home_net unprepared small_policy)
    ≡ is_some (validate home_net unprepared true)
candidate-validate_example =
    candidate-validate home_net unprepared small_policy has_policy_file refl refl
