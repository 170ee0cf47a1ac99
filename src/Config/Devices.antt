-- ===== src/Config/Devices.antt =====
-- The devices of an accepted configuration.
use opensurge_fnos.Base.{
  Bool, List, Option, false, if◌then◌else◌, none, refl, some, subst, true, ℕ, ◌++◌, ◌∷◌, ◌≡◌, ◌≢◌,
}
use opensurge_fnos.Config.Accepted.{accepted_sections, both}
use opensurge_fnos.Config.Policies.{
  ip_only_active, named, prepare_device_policy, protected_addresses, validate_bundle,
  validate_device_policy, validate_policy_on,
}
use opensurge_fnos.Config.Types.{Config, Outside, PolicyBundle, is_nil, lan_scope, must}
use opensurge_fnos.Config.Validate.{validate, validate_prepared}
use opensurge_fnos.Config.Words.{is_blank}
use opensurge_fnos.Device.Accept.{has_ip, validate_policy_set}
use opensurge_fnos.Device.Compile.{is_left_out}
use opensurge_fnos.Device.Expansion.{in_turn}
use opensurge_fnos.Device.Policy.{ManagedDevice, Parsers, PolicyErr, PolicySet}
use opensurge_fnos.Exec.{Result, err, ok}
use opensurge_fnos.Lan.Policy.{check_on_lan, protected_ips, validate_policy_set_for_lan}
use opensurge_fnos.Lan.Scope.{Scope, contains_ip, usable_host}
use opensurge_fnos.Lan.Validated.{validated_lan_device}

protected_known :
    (net : Parsers) (s : Scope) (set : PolicySet) (ip_only : Bool) (r : Result PolicyErr (List ℕ))
    → check_on_lan net s ip_only set.devices r ≡ none
    → (ips : List ℕ) × (r ≡ ok ips)
unfolding check_on_lan
protected_known net s set ip_only (err e) h = absurd cc
protected_known net s set ip_only (ok ips) h = (ips, refl)

unnamed : (e : Option PolicyErr) → named e ≡ none → e ≡ none
unfolding named
unnamed none h = refl
unnamed (some e) h = absurd cc

-- In an accepted configuration with a policy file, a device that is in use on the LAN has an
-- address that can be assigned, that is not the gateway's and none of the protected ones, among
-- which is the router that devices are sent to, where some device of the LAN is.
pub accepted_device :
    (o : Outside) (c c' : Config) (s : Scope) (b : PolicyBundle) (before after : List ManagedDevice)
    (d : ManagedDevice) (ip : ℕ)
    → validate o c true ≡ none
    → lan_scope o c ≡ ok s
    → prepare_device_policy o c ≡ ok c'
    → is_blank c'.device_policy.file ≡ false
    → c'.device_policy.bundle ≡ some b
    → b.policy.devices ≡ before ++ (d ∷ after)
    → is_left_out (ip_only_active c') d ≡ false
    → o.net.ipv4_of d.ipv4 ≡ some ip
    → contains_ip s ip ≡ true
    → (usable_host s ip ≡ true)
      × (ip ≢ s.gateway)
      × ((ips : List ℕ) × (protected_ips o.net s (protected_addresses o c' s b.policy) ≡ ok ips)
          × (has_ip ip ips ≡ false))
unfolding validate_prepared validate_device_policy validate_bundle validate_policy_on
    validate_policy_set_for_lan
accepted_device o c c' s b before after d ip accepted known prepared file bundle devices used parsed
      inside =
    let sections : validate_prepared o s (ok c') ≡ none =
      subst (λ r. validate_prepared o s r ≡ none) prepared
        (accepted_sections o c true s accepted known).rest in
    let checked : validate_bundle o c' s c'.device_policy.bundle ≡ none =
      subst
        (λ x.
          (if x
            then must (is_nil c'.device_policy.protected_ipv4) "device_policy.protected_ipv4"
            else validate_bundle o c' s c'.device_policy.bundle)
          ≡ none)
        file (both _ _ sections).0 in
    let on_lan : validate_policy_on o c' s b.policy ≡ none =
      subst (λ x. validate_bundle o c' s x ≡ none) bundle checked in
    let valid : validate_policy_set_for_lan o.net s b.policy (protected_addresses o c' s b.policy)
          (ip_only_active c')
        ≡ none =
      unnamed _ (both _ _ on_lan).1 in
    let (ips, ips_known) =
      protected_known o.net s b.policy (ip_only_active c')
        (protected_ips o.net s (protected_addresses o c' s b.policy))
        (in_turn (validate_policy_set o.net b.policy) _ valid).1 in
    let fine =
      validated_lan_device o.net s b.policy (protected_addresses o c' s b.policy)
        (ip_only_active c') ips before after d ip valid ips_known devices used parsed inside in
    (fine.0, fine.1, (ips, ips_known, fine.2))
