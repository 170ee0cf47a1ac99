-- ===== src/Device/CompileTests.antt =====
-- The compilation of a small policy.
use opensurge_fnos.Base.{
  All, List, [], false, if◌then◌else◌, map, none, refl, some, true, ℕ, ◌==◌, ◌∷◌, ◌≡◌,
}
use opensurge_fnos.Device.Accept.{has_mac, normalized_mac, validate_policy_set}
use opensurge_fnos.Device.Assemble.{assembled, compiled_parts}
use opensurge_fnos.Device.Bypass.{bypassed_devices_unrouted, routed, routes}
use opensurge_fnos.Device.Choices.{Keeps, resolved-Keeps}
use opensurge_fnos.Device.Compile.{
  add_part, bypassed, compile_device, compile_devices, compile_policy_set, default_part, falls_back,
  inherits, ip_text, is_bypassed, is_left_out, last_rules, mac_text, new_device, or_empty,
  profile_of, reserved, when_valid, with_profile, with_rules,
}
use opensurge_fnos.Device.Compiled.{CompiledPolicy, DevicePart, ◌⊕◌}
use opensurge_fnos.Device.Compiles.{accepted_policy-Compiles, kept_ids}
use opensurge_fnos.Device.Inventory.{compiled_targets}
use opensurge_fnos.Device.Names.{effective_egress_mode, effective_gateway_target}
use opensurge_fnos.Device.Policy.{ManagedDevice, PolicyErr, PolicySet, has}
use opensurge_fnos.Device.Resolution.{
  Resolution, device_group_name, effective_selection, filtered, is_builtin, resolve_selector,
  selection, skipped, target_available, to_front, where_available,
}
use opensurge_fnos.Device.Slots.{
  action_can_fall_through, action_rule, adjusted, compile_rule, compile_rules, compose_rule,
  default_selector, joined, own_selector, resolve_unsupported, rule_seen, selector_rule,
  some_adjustment, source_match, variant_rules, with_action, with_variants,
}
use opensurge_fnos.Device.Targets.{IsAvailable, IsUsable}
use opensurge_fnos.Device.Tests.{
  sample_net, small_policy, small_policy_accepted, small_policy-CountableProfiles, television,
}
use opensurge_fnos.Device.Validate.{resolve_profile}
use opensurge_fnos.Device.Variants.{expanded, rule_variants}
use opensurge_fnos.Exec.{Result, err, ok}
use opensurge_fnos.Lists.{length}
use opensurge_fnos.Text.{Text, text, text_eq, to_lower, to_upper, trim_space}

-- The televisions of the network take the upstream router.
abbrev mixed_devices : List ManagedDevice
mixed_devices =
    let tv : ManagedDevice = television in
    record tv { gateway_target = text "upstream_router" }
    ∷ record tv { id = text "pad"; ipv4 = text "192.168.1.21" }
    ∷ []

abbrev print_ip : ℕ → Text
print_ip a = if a == 3232235796 then text "192.168.1.20" else text "192.168.1.21"

-- Opens the compilation.
run_compilation : Unit {0}
unfolding compile_devices compile_device with_profile new_device mac_text ip_text with_rules
    bypassed is_bypassed is_left_out has_mac profile_of resolve_profile default_part inherits
    falls_back default_selector resolve_selector filtered where_available target_available
    is_builtin has compile_rules compile_rule selector_rule action_rule with_variants rule_variants
    expanded variant_rules compose_rule source_match resolve_unsupported action_can_fall_through
    device_group_name adjusted rule_seen own_selector with_action joined ◌⊕◌ last_rules reserved
    effective_gateway_target effective_egress_mode normalized_mac or_empty text_eq to_upper to_lower
    trim_space add_part compile_policy_set when_valid compiled_parts validate_policy_set selection
    effective_selection to_front skipped some_adjustment routed
run_compilation = tt

accepted_policy-Compiles_example :
    (c : CompiledPolicy) × (compile_policy_set sample_net print_ip none small_policy true ≡ ok c)
    × (map (λ d. d.id) c.devices ≡ kept_ids true small_policy.devices)
accepted_policy-Compiles_example =
    accepted_policy-Compiles sample_net print_ip none small_policy true
      small_policy-CountableProfiles small_policy_accepted

-- An inventory without the first of the candidates of a selector.
abbrev inventory : Resolution
inventory = record {
  available_targets = text "Tokyo" ∷ text "Paris" ∷ [];
  selections = (text "device/tv/default", text "Paris") ∷ [];
  selections_unavailable = false;
}

abbrev candidates : List Text
candidates = text "Berlin" ∷ text "Tokyo" ∷ text "Paris" ∷ []

resolved-Keeps_example :
    Keeps inventory
      (text "tv")
      (text "default")
      candidates
      (resolve_selector (some inventory) (text "tv") (text "default") candidates).0
      (resolve_selector (some inventory) (text "tv") (text "default") candidates).1
resolved-Keeps_example = resolved-Keeps inventory (text "tv") (text "default") candidates

paris_first :
    (resolve_selector (some inventory) (text "tv") (text "default") candidates).0
    ≡ text "Paris" ∷ text "Tokyo" ∷ []
unfolding run_compilation
paris_first = refl

-- The small policy with a selector for its television and its tablet.
abbrev selector_policy : PolicySet
selector_policy = record small_policy {
  profiles =
      record {
        id = text "home";
        template = [];
        default_policies = candidates;
        on_unsupported = [];
        rules = [];
      }
      ∷ [];
}

compiled_or_empty : Result PolicyErr CompiledPolicy → CompiledPolicy
compiled_or_empty (ok c) = c
compiled_or_empty (err e) = record {
  reservations = [];
  selector_groups = [];
  rule_providers = [];
  override_rules = [];
  dedicated_rules = [];
  default_rules = [];
  devices = [];
  selector_targets = [];
  action_targets = [];
}

selector_compiled : CompiledPolicy
unfolding compiled_or_empty
selector_compiled =
    compiled_or_empty (compile_policy_set sample_net print_ip (some inventory) selector_policy true)

selector_compiles :
    compile_policy_set sample_net print_ip (some inventory) selector_policy true
    ≡ ok selector_compiled
unfolding selector_compiled run_compilation
selector_compiles = refl

one_group : length selector_compiled.selector_groups ≡ 1
unfolding selector_compiled run_compilation
one_group = refl

compiled_targets_example :
    All (IsUsable (some inventory)) selector_compiled.selector_groups
    × All (IsAvailable (some inventory)) selector_compiled.selector_targets
    × All (IsAvailable (some inventory)) selector_compiled.action_targets
compiled_targets_example =
    compiled_targets sample_net print_ip (some inventory) selector_policy true selector_compiled
      selector_compiles

parts_of : Result PolicyErr (List DevicePart) → List DevicePart
parts_of (ok ps) = ps
parts_of (err e) = []

mixed_parts : List DevicePart
unfolding parts_of
mixed_parts = parts_of (compile_devices sample_net print_ip none small_policy true mixed_devices)

mixed_compile :
    compile_devices sample_net print_ip none small_policy true mixed_devices ≡ ok mixed_parts
unfolding mixed_parts run_compilation
mixed_compile = refl

two_parts : length mixed_parts ≡ 2
unfolding mixed_parts run_compilation
two_parts = refl

bypassed_devices_unrouted_example :
    (qs : List DevicePart) × (compile_devices sample_net print_ip none small_policy true
        (routed mixed_devices)
      ≡ ok qs)
    × (routes (assembled small_policy mixed_parts) ≡ routes (assembled small_policy qs))
bypassed_devices_unrouted_example =
    bypassed_devices_unrouted sample_net print_ip none small_policy true mixed_devices mixed_parts
      mixed_compile
