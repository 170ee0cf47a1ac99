-- ===== src/Config/Policies.antt =====
-- The device policy of a configuration: the bundle that is compiled for its LAN, and the
-- validation of it there. The path of the selection cache, which only rendering reads, and the
-- bundle's digest and JSON are left out.
use opensurge_fnos.Base.{
  Bool, List, Option, [], false, if◌then◌else◌, none, some, ℕ, ◌&&◌, ◌++◌, ◌==◌, ◌∷◌,
}
use opensurge_fnos.Config.Addresses.{uses_upstream_router, validate_router_bypass}
use opensurge_fnos.Config.Types.{
  Config, DevicePolicyConfig, Outside, PolicyBundle, is_nil, lan_scope, must, same_bool,
  same_lan_mode, ◌&?◌,
}
use opensurge_fnos.Config.Words.{is_blank}
use opensurge_fnos.Device.Accept.{validate_policy_set}
use opensurge_fnos.Device.Compile.{compile_policy_set}
use opensurge_fnos.Device.Compiled.{CompiledPolicy}
use opensurge_fnos.Device.Policy.{PolicyErr, PolicySet}
use opensurge_fnos.Exec.{Result, err, ok}
use opensurge_fnos.Lan.Policy.{active_policy_set, validate_policy_set_for_lan}
use opensurge_fnos.Lan.Scope.{Scope, ScopeErr, network}
use opensurge_fnos.Text.{Text, text, text_eq}

unfoldable pub lan_key : Scope → ℕ × ℕ
unfolding network
lan_key s = (network s, s.ones)

unfoldable pub is_lan : Option (ℕ × ℕ) → Scope → Bool
unfolding lan_key
is_lan none s = false
is_lan (some (n, ones)) s = n == (lan_key s).0 && ones == (lan_key s).1

unfoldable pub bundled :
    PolicySet → Scope → Bool → Result PolicyErr CompiledPolicy → Result Text PolicyBundle
unfolding lan_key
bundled set s ip_only (err e) = err (text "device policy")
bundled set s ip_only (ok compiled) = ok (record {
  policy = set;
  compiled = compiled;
  ip_only_devices_active = ip_only;
  active_lan = some (lan_key s);
})

unfoldable pub when_accepted :
    Option PolicyErr → Result Text PolicyBundle → Result Text PolicyBundle
when_accepted (some e) r = err (text "device policy")
when_accepted none r = r

-- CompilePolicyBundleForLAN.
unfoldable pub compile_policy_bundle : Outside → PolicySet → Scope → Bool → Result Text PolicyBundle
unfolding when_accepted bundled compile_policy_set active_policy_set validate_policy_set
compile_policy_bundle o set s ip_only = when_accepted (validate_policy_set o.net set) (
    bundled set s ip_only
      (compile_policy_set o.net o.print_ip none (active_policy_set o.net s set) ip_only))

unfoldable pub load_bundle : Outside → Option PolicySet → Scope → Bool → Result Text PolicyBundle
unfolding compile_policy_bundle
load_bundle o none s ip_only = err (text "device_policy.file")
load_bundle o (some set) s ip_only = compile_policy_bundle o set s ip_only

unfoldable pub with_bundle : Config → PolicyBundle → Config
with_bundle c b =
    let policy : DevicePolicyConfig = record (c.device_policy) { bundle = some b } in
    record c { device_policy = policy }

unfoldable pub put_bundle : Config → Result Text PolicyBundle → Result Text Config
unfolding with_bundle
put_bundle c (err e) = err e
put_bundle c (ok b) = ok (with_bundle c b)

unfoldable pub ip_only_active : Config → Bool
unfolding text_eq
ip_only_active c = text_eq c.gateway.mode same_lan_mode

-- The bundle was compiled for this LAN and this mode.
unfoldable pub is_current : Config → Scope → PolicyBundle → Bool
unfolding is_lan ip_only_active
is_current c s b = same_bool b.ip_only_devices_active (ip_only_active c) && is_lan b.active_lan s

-- With the bundle that the configuration already carries.
unfoldable pub prepare_bundle : Outside → Config → Scope → Option PolicyBundle → Result Text Config
unfolding is_current put_bundle compile_policy_bundle load_bundle ip_only_active
prepare_bundle o c s (some b) =
    if is_current c s b
    then ok c
    else put_bundle c (compile_policy_bundle o b.policy s (ip_only_active c))
prepare_bundle o c s none =
    put_bundle c (load_bundle o (o.load_policy_set c.device_policy.file) s (ip_only_active c))

unfoldable pub on_scope : Outside → Config → Result ScopeErr Scope → Result Text Config
unfolding prepare_bundle
on_scope o c (err e) = err (text "gateway.lan_ip")
on_scope o c (ok s) = prepare_bundle o c s c.device_policy.bundle

unfoldable pub prepare_device_policy : Outside → Config → Result Text Config
unfolding is_blank on_scope lan_scope
prepare_device_policy o c =
    if is_blank c.device_policy.file then ok c else on_scope o c (lan_scope o c)

-- The addresses that no device may have.
unfoldable pub protected_addresses : Outside → Config → Scope → PolicySet → List Text
unfolding uses_upstream_router active_policy_set
protected_addresses o c s set =
    c.device_policy.protected_ipv4
    ++ (if uses_upstream_router (active_policy_set o.net s set).devices
        then c.dhcp.bypass_gateway ∷ []
        else [])

unfoldable pub named : Option PolicyErr → Option Text
named none = none
named (some e) = some (text "device_policy.file")

unfoldable pub validate_policy_on : Outside → Config → Scope → PolicySet → Option Text
unfolding validate_router_bypass protected_addresses named validate_policy_set_for_lan
    active_policy_set ip_only_active
validate_policy_on o c s set =
    validate_router_bypass o c s (active_policy_set o.net s set)
    &? named
        (validate_policy_set_for_lan o.net s set (protected_addresses o c s set) (ip_only_active c))

unfoldable pub validate_loaded : Outside → Config → Scope → Result Text PolicyBundle → Option Text
unfolding validate_policy_on
validate_loaded o c s (err e) = some e
validate_loaded o c s (ok b) = validate_policy_on o c s b.policy

unfoldable pub validate_bundle : Outside → Config → Scope → Option PolicyBundle → Option Text
unfolding validate_loaded validate_policy_on load_bundle ip_only_active
validate_bundle o c s (some b) = validate_policy_on o c s b.policy
validate_bundle o c s none =
    validate_loaded o c s
      (load_bundle o (o.load_policy_set c.device_policy.file) s (ip_only_active c))

unfoldable pub validate_device_policy : Outside → Config → Scope → Option Text
unfolding is_blank validate_bundle
validate_device_policy o c s =
    if is_blank c.device_policy.file
    then must (is_nil c.device_policy.protected_ipv4) "device_policy.protected_ipv4"
    else validate_bundle o c s c.device_policy.bundle
