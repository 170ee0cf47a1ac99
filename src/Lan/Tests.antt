-- ===== src/Lan/Tests.antt =====
-- A subnet of 512 addresses, 10.0.2.0/23, around the gateway 10.0.3.1.
use opensurge_fnos.Base.{
  List, [], arith, false, leb, map, none, refl, some, true, ℕ, ◌&&◌, ◌<◌, ◌∷◌, ◌≡◌, ◌≢◌,
}
use opensurge_fnos.Device.Accept.{has_ip, has_mac}
use opensurge_fnos.Device.Compile.{compile_policy_set, is_left_out}
use opensurge_fnos.Device.Compiled.{CompiledPolicy}
use opensurge_fnos.Device.Compiles.{kept_ids}
use opensurge_fnos.Device.Policy.{duplicate_ipv4, pos}
use opensurge_fnos.Device.Tests.{
  sample_net, small_policy, small_policy_accepted, small_policy-CountableProfiles, television,
}
use opensurge_fnos.Exec.{ok}
use opensurge_fnos.Lan.Active.{active_policy-Compiles}
use opensurge_fnos.Lan.Offsets.{IsScope, new_scope-IsScope, offset-host_at, usable_host-host_at}
use opensurge_fnos.Lan.Policy.{
  active_policy_set, add_protected, check_lan_address, check_lan_device, check_lan_ip, check_on_lan,
  devices_in_lan, if_in_lan, protected_ips, validate_policy_set_for_lan,
}
use opensurge_fnos.Lan.Scope.{
  Scope, block, broadcast, contains_ip, host_at, host_count, magnitude, masked, network, new_scope,
  offset, prefix_len_or_default, usable_host, valid_prefix_len,
}
use opensurge_fnos.Lan.Validated.{validated_lan_device}
use opensurge_fnos.Text.{Text, text, text_eq, trim_space}

abbrev home : Scope
home = record { gateway = 167772929; ones = 23 }

home_scope : new_scope (some 167772929) (pos 23) ≡ ok home
unfolding new_scope prefix_len_or_default valid_prefix_len magnitude
home_scope = refl

home-IsScope : IsScope home
home-IsScope = new_scope-IsScope 167772929 (pos 23) home (omega arith) home_scope

third_block : 300 < block home
unfolding block
third_block = omega arith

gateway_inside : contains_ip home 167772929 ≡ true
unfolding contains_ip masked network block
gateway_inside = refl

offset-host_at_example :
    (offset home (host_at home 300) ≡ some 300)
    × ((m : ℕ) × (offset home 167772929 ≡ some m) × (m < block home) × (host_at home m ≡ 167772929))
offset-host_at_example = offset-host_at home 300 167772929 home-IsScope third_block gateway_inside

usable_host-host_at_example :
    usable_host home (host_at home 300) ≡ (leb 1 300 && leb 300 (host_count home))
usable_host-host_at_example = usable_host-host_at home 300 home-IsScope third_block

no_broadcast : usable_host home (broadcast home) ≡ false
unfolding usable_host contains_ip masked network block broadcast
no_broadcast = refl

abbrev protected : List Text
protected = text "192.168.1.20" ∷ []

-- The LAN 192.168.1.0/24 of the small policy, around 192.168.1.1.
abbrev small_lan : Scope
small_lan = record { gateway = 3232235777; ones = 24 }

-- Opens the validation on a LAN.
run_lan : Unit {0}
unfolding validate_policy_set_for_lan check_on_lan check_lan_device check_lan_address check_lan_ip
    protected_ips add_protected if_in_lan contains_ip masked network block usable_host broadcast
    has_ip is_left_out has_mac trim_space text_eq
run_lan = tt

small_policy_on_lan : validate_policy_set_for_lan sample_net small_lan small_policy [] true ≡ none
unfolding run_lan
small_policy_on_lan = cc small_policy_accepted

-- The television's address, protected.
small_policy-protected :
    validate_policy_set_for_lan sample_net small_lan small_policy protected true
    ≡ some (duplicate_ipv4 3232235796)
unfolding run_lan
small_policy-protected = cc small_policy_accepted

validated_lan_device_example :
    (usable_host small_lan 3232235796 ≡ true)
    × (3232235796 ≢ small_lan.gateway)
    × (has_ip 3232235796 [] ≡ false)
unfolding run_lan
validated_lan_device_example =
    validated_lan_device sample_net small_lan small_policy [] true [] []
      (record television {
        id = text "pad";
        mac = text "AA:BB:CC:00:00:02";
        ipv4 = text "192.168.1.21";
      }
        ∷ [])
      television 3232235796 small_policy_on_lan refl refl refl refl refl

active_policy-Compiles_example :
    (c : CompiledPolicy) × (compile_policy_set sample_net
        (λ a. text "ip")
        none
        (active_policy_set sample_net small_lan small_policy)
        false
      ≡ ok c)
    × (map (λ d. d.id) c.devices
        ≡ kept_ids false (devices_in_lan sample_net small_lan small_policy.devices))
active_policy-Compiles_example =
    active_policy-Compiles sample_net (λ a. text "ip") none small_lan small_policy false
      small_policy-CountableProfiles small_policy_accepted
