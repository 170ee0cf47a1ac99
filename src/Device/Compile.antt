-- ===== src/Device/Compile.antt =====
-- compilePolicySet: the devices one after the other.
use opensurge_fnos.Base.{
  Bool, List, Option, [], if◌then◌else◌, none, not, some, ℕ, ◌&&◌, ◌++◌, ◌==◌, ◌∷◌,
}
use opensurge_fnos.Device.Accept.{has_mac, normalized_mac, validate_policy_set}
use opensurge_fnos.Device.Assemble.{compiled_parts}
use opensurge_fnos.Device.Compiled.{
  CompiledDevice, CompiledPolicy, DevicePart, Part, Reservation, no_part, ◌⊕◌,
}
use opensurge_fnos.Device.Names.{effective_egress_mode, effective_gateway_target}
use opensurge_fnos.Device.Policy.{ManagedDevice, Parsers, PolicyErr, PolicySet, Profile, Template}
use opensurge_fnos.Device.Resolution.{Resolution, device_group_name, resolve_selector}
use opensurge_fnos.Device.Slots.{compile_rules, default_selector, resolve_unsupported, source_match}
use opensurge_fnos.Device.Validate.{resolve_profile}
use opensurge_fnos.Exec.{Result, err, ok}
use opensurge_fnos.Lists.{length}
use opensurge_fnos.Text.{Text, is_empty, text, text_eq}

unfoldable pub profile_of : Text → List Profile → Profile
unfolding text_eq
profile_of id [] = record {
  id = [];
  template = [];
  default_policies = [];
  on_unsupported = [];
  rules = [];
}
profile_of id (p ∷ ps) = if text_eq id p.id then p else profile_of id ps

unfoldable pub or_empty : Option Text → Text
or_empty none = []
or_empty (some t) = t

unfoldable pub is_bypassed : ManagedDevice → Bool
unfolding effective_gateway_target text_eq
is_bypassed d = text_eq (effective_gateway_target d.gateway_target) (text "upstream_router")

-- Devices that only an address identifies are left out where a lease may hand it on.
unfoldable pub is_left_out : Bool → ManagedDevice → Bool
unfolding has_mac
is_left_out ip_only d = not ip_only && not (has_mac d)

-- The default rules of a device: its selector, and the rejection after it.
unfoldable pub last_rules : Text → Text → Text → List Text
unfolding source_match resolve_unsupported text_eq
last_rules ip group unsupported =
    (source_match ip ++ (text "," ++ group))
    ∷ (if text_eq (resolve_unsupported [] unsupported) (text "reject")
        then (source_match ip ++ text ",REJECT") ∷ []
        else [])

unfoldable pub reserved : CompiledDevice → List Reservation
reserved c =
    if is_empty c.mac
    then []
    else record { id = c.id; mac = c.mac; ipv4 = c.ipv4; gateway_target = c.gateway_target } ∷ []

unfoldable pub inherits : CompiledDevice → Bool
unfolding text_eq
inherits c = text_eq c.egress_mode (text "inherit_global")

-- A selector without a candidate has the device inherit.
unfoldable pub falls_back : CompiledDevice → Part → Bool
unfolding inherits
falls_back c own = not (inherits c) && length own.selector_groups == 0

unfoldable pub with_rules :
    CompiledDevice → Profile → Part → Result PolicyErr Part → Result PolicyErr DevicePart
unfolding falls_back ◌⊕◌ last_rules reserved text_eq device_group_name
with_rules c p own (err e) = err e
with_rules c p own (ok rules) =
    let mode = if falls_back c own then text "inherit_global" else c.egress_mode in
    let part = own ⊕ rules in
    let last = last_rules c.ipv4 (device_group_name c.id (text "default")) p.on_unsupported in
    ok (record {
      reservation = reserved c;
      device = record c {
        egress_mode = mode;
        configured_egress_mode = if falls_back c own then c.egress_mode else [];
        policy_adjustments = part.adjustments;
        groups = part.slots;
        rule_matches = part.matches;
      };
      part = part;
      dedicated_rules = if text_eq mode (text "dedicated") then last else [];
      default_rules = if text_eq mode (text "legacy_fallback") then last else [];
    })

unfoldable pub bypassed : CompiledDevice → DevicePart
unfolding reserved
bypassed c = record {
  reservation = reserved c;
  device = c;
  part = no_part;
  dedicated_rules = [];
  default_rules = [];
}

unfoldable pub add_part :
    Result PolicyErr DevicePart
    → Result PolicyErr (List DevicePart)
    → Result PolicyErr (List DevicePart)
add_part (err e) rest = err e
add_part (ok p) (err e) = err e
add_part (ok p) (ok ps) = ok (p ∷ ps)

-- `print_ip` is net.IP.String, on an IPv4 address.
module _ (net : Parsers) (print_ip : ℕ → Text) (res : Option Resolution) where
  unfoldable pub ip_text : Option ℕ → Text
  ip_text none = text "<nil>"
  ip_text (some a) = print_ip a

  unfoldable pub mac_text : ManagedDevice → Text
  unfolding has_mac or_empty normalized_mac
  mac_text d = if has_mac d then or_empty (normalized_mac net d.mac) else []

  unfoldable pub new_device : ManagedDevice → Profile → CompiledDevice
  unfolding mac_text ip_text effective_gateway_target effective_egress_mode
  new_device d p = record {
    id = d.id;
    mac = mac_text d;
    ipv4 = ip_text (net.ipv4_of d.ipv4);
    profile = p.id;
    gateway_target = effective_gateway_target d.gateway_target;
    egress_mode = effective_egress_mode d.egress_mode;
    configured_egress_mode = [];
    policy_adjustments = [];
    groups = [];
    rule_matches = [];
  }

  -- The device's own selector, unless it inherits the global route.
  unfoldable pub default_part : CompiledDevice → Profile → Part
  unfolding inherits default_selector resolve_selector
  default_part c p =
      if inherits c
      then no_part
      else default_selector c.id (resolve_selector res c.id (text "default") p.default_policies)

  unfoldable pub with_profile :
      List Template → ManagedDevice → Result PolicyErr Profile → Result PolicyErr DevicePart
  unfolding new_device is_bypassed bypassed with_rules compile_rules default_part
  with_profile ts d (err e) = err e
  with_profile ts d (ok p) =
      let c = new_device d p in
      if is_bypassed d
      then ok (bypassed c)
      else with_rules c p (default_part c p)
          (compile_rules res ts c.id c.ipv4 p.on_unsupported p.rules)

  unfoldable pub compile_device : PolicySet → ManagedDevice → Result PolicyErr DevicePart
  unfolding with_profile profile_of resolve_profile
  compile_device set d =
      with_profile set.templates d
        (resolve_profile (profile_of d.profile set.profiles) set.templates)

  unfoldable pub compile_devices :
      PolicySet → Bool → List ManagedDevice → Result PolicyErr (List DevicePart)
  unfolding compile_device is_left_out add_part
  compile_devices set ip_only [] = ok []
  compile_devices set ip_only (d ∷ ds) =
      let rest = compile_devices set ip_only ds in
      if is_left_out ip_only d then rest else add_part (compile_device set d) rest

  unfoldable pub when_valid : PolicySet → Bool → Option PolicyErr → Result PolicyErr CompiledPolicy
  unfolding compiled_parts compile_devices
  when_valid set ip_only (some e) = err e
  when_valid set ip_only none = compiled_parts set (compile_devices set ip_only set.devices)

  unfoldable pub compile_policy_set : PolicySet → Bool → Result PolicyErr CompiledPolicy
  unfolding when_valid validate_policy_set
  compile_policy_set set ip_only = when_valid set ip_only (validate_policy_set net set)
