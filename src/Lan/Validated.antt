-- ===== src/Lan/Validated.antt =====
-- What the validation on a LAN ensures.
use opensurge_fnos.Base.{
  Bool, List, Option, [], arith, false, if◌then◌else◌, none, not, refl, some, subst, true, ℕ, ◌++◌,
  ◌==◌, ◌∷◌, ◌≡◌, ◌≢◌,
}
use opensurge_fnos.Device.Accept.{has_ip, validate_policy_set}
use opensurge_fnos.Device.Compile.{is_left_out}
use opensurge_fnos.Device.Expansion.{in_turn, required}
use opensurge_fnos.Device.Policy.{
  ManagedDevice, Parsers, PolicyErr, PolicySet, bad_ipv4, duplicate_ipv4, first_of, require,
}
use opensurge_fnos.Exec.{ok}
use opensurge_fnos.Lan.Policy.{
  check_lan_address, check_lan_device, check_lan_ip, check_on_lan, protected_ips,
  validate_policy_set_for_lan,
}
use opensurge_fnos.Lan.Scope.{Scope, contains_ip, usable_host}
use opensurge_fnos.Text.{Text}

-- A loop without an error has passed every element.
first_of-passed :
    {A : Type 0} (f : A → Option PolicyErr) (before : List A) (x : A) (after : List A)
    → first_of f (before ++ (x ∷ after)) ≡ none
    → f x ≡ none
first_of-passed f [] x after h = (in_turn (f x) _ h).0
first_of-passed f (b ∷ before) x after h = first_of-passed f before x after (in_turn (f b) _ h).1

else_checked :
    (b : Bool) (o : Option PolicyErr) → b ≡ false → (if b then none else o) ≡ none → o ≡ none
else_checked true o e h = absurd cc
else_checked false o e h = h

not_gateway : (a b : ℕ) (e : PolicyErr) → require (not (a == b)) e ≡ none → a ≢ b
not_gateway a b e h same = ground (arith, h, same)

not_protected : (b : Bool) (e : PolicyErr) → require (not b) e ≡ none → b ≡ false
not_protected true e h = absurd cc
not_protected false e h = refl

lan_ip-checked :
    (net : Parsers) (s : Scope) (d : ManagedDevice) (ips : List ℕ) (ip : ℕ)
    → check_lan_ip net s d ips ip ≡ none
    → contains_ip s ip ≡ true
    → (usable_host s ip ≡ true) × (ip ≢ s.gateway) × (has_ip ip ips ≡ false)
unfolding check_lan_ip
lan_ip-checked net s d ips ip h inside =
    let checks = else_checked (not (contains_ip s ip)) _ (cc inside) h in
    let usable = in_turn (require (usable_host s ip) (bad_ipv4 d.id)) _ checks in
    let apart = in_turn (require (not (ip == s.gateway)) (bad_ipv4 d.id)) _ usable.1 in
    (
      required (bad_ipv4 d.id) usable.0,
      not_gateway ip s.gateway (bad_ipv4 d.id) apart.0,
      not_protected (has_ip ip ips) (duplicate_ipv4 ip) apart.1,
    )

-- A device that is in use on the LAN, in a policy that validation accepts there, has an address
-- that can be assigned, that is not the gateway's and none of the protected ones.
pub validated_lan_device :
    (net : Parsers) (s : Scope) (set : PolicySet) (protected : List Text) (ip_only : Bool)
    (ips : List ℕ) (before after : List ManagedDevice) (d : ManagedDevice) (ip : ℕ)
    → validate_policy_set_for_lan net s set protected ip_only ≡ none
    → protected_ips net s protected ≡ ok ips
    → set.devices ≡ before ++ (d ∷ after)
    → is_left_out ip_only d ≡ false
    → net.ipv4_of d.ipv4 ≡ some ip
    → contains_ip s ip ≡ true
    → (usable_host s ip ≡ true) × (ip ≢ s.gateway) × (has_ip ip ips ≡ false)
unfolding validate_policy_set_for_lan check_on_lan check_lan_device check_lan_address
validated_lan_device net s set protected ip_only ips before after d ip accepted known devices used
      parsed inside =
    let on_lan = (in_turn (validate_policy_set net set) _ accepted).1 in
    let looped : first_of (check_lan_device net s ip_only ips) (before ++ (d ∷ after)) ≡ none =
      subst (λ ds. first_of (check_lan_device net s ip_only ips) ds ≡ none) devices
        (subst (λ r. check_on_lan net s ip_only set.devices r ≡ none) known on_lan) in
    let address =
      else_checked (is_left_out ip_only d) _ used (first_of-passed _ before d after looped) in
    lan_ip-checked net s d ips ip
      (subst (λ o. check_lan_address net s d ips o ≡ none) parsed address) inside
