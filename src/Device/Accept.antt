-- ===== src/Device/Accept.antt =====
-- ValidatePolicySet of internal/device/policy.go.
use opensurge_fnos.Base.{
  Bool, List, Option, [], false, if◌then◌else◌, is_some, map, none, not, some, true, ℕ, ◌==◌, ◌||◌,
  ◌∷◌,
}
use opensurge_fnos.Device.Names.{
  effective_gateway_target, valid_id, validate_device_name, validate_policy_list,
  validate_unsupported,
}
use opensurge_fnos.Device.Policy.{
  ManagedDevice, Parsers, PolicyErr, PolicySet, Profile, RuleSet, Template, bad_egress_mode,
  bad_gateway_target, bad_id, bad_ipv4, bad_mac, bypass_without_mac, duplicate_id, duplicate_ipv4,
  duplicate_mac, first_of, has, no_default_policies, require, template_of, unknown_profile,
  unknown_rule_set, unknown_template, ◌>>?◌,
}
use opensurge_fnos.Device.Validate.{resolve_profile, validate_rule_set, validate_rules}
use opensurge_fnos.Exec.{Result, err, ok}
use opensurge_fnos.Lists.{length}
use opensurge_fnos.Text.{Text, is_empty, text, text_eq, to_lower, trim_space}

unfoldable pub check_default_policies : List Text → Option PolicyErr
unfolding validate_policy_list
check_default_policies [] = none
check_default_policies (p ∷ ps) = validate_policy_list (p ∷ ps)

unfoldable pub profile_ids : List Text → List Profile → Option PolicyErr
unfolding valid_id
profile_ids seen [] = none
profile_ids seen (p ∷ ps) =
    let rest = profile_ids (p.id ∷ seen) ps in
    require (valid_id p.id) (bad_id p.id)
    >>? require (not (has p.id seen)) (duplicate_id p.id)
    >>? rest

unfoldable pub template_ids : List Text → List Template → Option PolicyErr
unfolding valid_id check_default_policies validate_unsupported
template_ids seen [] = none
template_ids seen (t ∷ ts) =
    let rest = template_ids (t.id ∷ seen) ts in
    require (valid_id t.id) (bad_id t.id)
    >>? require (not (has t.id seen)) (duplicate_id t.id)
    >>? check_default_policies t.default_policies
    >>? validate_unsupported t.on_unsupported
    >>? rest

unfoldable pub rule_set_ids : Parsers → List Text → List RuleSet → Option PolicyErr
unfolding valid_id validate_rule_set
rule_set_ids net seen [] = none
rule_set_ids net seen (s ∷ ss) =
    let rest = rule_set_ids net (s.id ∷ seen) ss in
    require (valid_id s.id) (bad_id s.id)
    >>? require (not (has s.id seen)) (duplicate_id s.id)
    >>? validate_rule_set net s
    >>? rest

unfoldable pub check_template : Parsers → List Text → List Template → Template → Option PolicyErr
unfolding validate_rules
check_template net sets ts t =
    first_of (λ id. require (has id sets) (unknown_rule_set id)) t.rule_sets
    >>? validate_rules net [] sets ts t.rules

unfoldable pub check_resolved :
    Parsers → List Text → List Template → Result PolicyErr Profile → Option PolicyErr
unfolding validate_rules
check_resolved net sets ts (err e) = some e
check_resolved net sets ts (ok p) =
    require (not (length p.default_policies == 0)) (no_default_policies p.id)
    >>? validate_rules net [] sets ts p.rules

unfoldable pub check_profile : Parsers → List Text → List Template → Profile → Option PolicyErr
unfolding check_default_policies validate_unsupported check_resolved resolve_profile
check_profile net sets ts p =
    require (is_empty p.template || is_some (template_of p.template ts))
      (unknown_template p.template)
    >>? check_default_policies p.default_policies
    >>? validate_unsupported p.on_unsupported
    >>? check_resolved net sets ts (resolve_profile p ts)

-- The IDs, MACs and addresses of the devices before this one.
pub record Seen : Type 0 where
  pub ids : List Text
  pub macs : List Text
  pub ips : List ℕ

unfoldable pub has_ip : ℕ → List ℕ → Bool
has_ip a [] = false
has_ip a (b ∷ bs) = a == b || has_ip a bs

-- normalizedMAC
unfoldable pub normalized_mac : Parsers → Text → Option Text
unfolding to_lower
normalized_mac net s = elim (net.mac_of s) [ none ↦ none | some m ↦ some (to_lower m) ]

unfoldable pub check_mac : ManagedDevice → Option Text → List Text → Option PolicyErr
check_mac d none macs = some (bad_mac d.id)
check_mac d (some m) macs = require (not (has m macs)) (duplicate_mac m)

unfoldable pub check_ip : ManagedDevice → Option ℕ → List ℕ → Option PolicyErr
unfolding has_ip
check_ip d none ips = some (bad_ipv4 d.id)
check_ip d (some a) ips = require (not (has_ip a ips)) (duplicate_ipv4 a)

one_of : Text → Text → Text → Bool
unfolding text_eq
one_of s a b = is_empty s || text_eq s a || text_eq s b

unfoldable pub has_mac : ManagedDevice → Bool
unfolding trim_space
has_mac d = not (is_empty (trim_space d.mac))

unfoldable pub check_device : Parsers → List Text → Seen → ManagedDevice → Option PolicyErr
unfolding valid_id validate_device_name has_mac check_mac normalized_mac check_ip one_of text_eq
    effective_gateway_target
check_device net profiles seen d =
    require (valid_id d.id) (bad_id d.id)
    >>? validate_device_name d.name
    >>? require (not (has d.id seen.ids)) (duplicate_id d.id)
    >>? (if has_mac d then check_mac d (normalized_mac net d.mac) seen.macs else none)
    >>? check_ip d (net.ipv4_of d.ipv4) seen.ips
    >>? require (has d.profile profiles) (unknown_profile d.profile)
    >>? require (one_of d.egress_mode (text "inherit_global") (text "dedicated"))
        (bad_egress_mode d.id)
    >>? require (one_of d.gateway_target (text "opensurge") (text "upstream_router"))
        (bad_gateway_target d.id)
    >>? require
        (not (text_eq (effective_gateway_target d.gateway_target) (text "upstream_router"))
          || has_mac d)
        (bypass_without_mac d.id)

unfoldable pub with_mac : Bool → Option Text → List Text → List Text
with_mac true (some m) macs = m ∷ macs
with_mac _ _ macs = macs

unfoldable pub with_ip : Option ℕ → List ℕ → List ℕ
with_ip (some a) ips = a ∷ ips
with_ip none ips = ips

unfoldable pub after_device : Parsers → Seen → ManagedDevice → Seen
unfolding with_mac with_ip has_mac normalized_mac
after_device net seen d = record {
  ids = d.id ∷ seen.ids;
  macs = with_mac (has_mac d) (normalized_mac net d.mac) seen.macs;
  ips = with_ip (net.ipv4_of d.ipv4) seen.ips;
}

unfoldable pub check_devices : Parsers → List Text → Seen → List ManagedDevice → Option PolicyErr
unfolding check_device after_device
check_devices net profiles seen [] = none
check_devices net profiles seen (d ∷ ds) =
    let rest = check_devices net profiles (after_device net seen d) ds in
    check_device net profiles seen d >>? rest

unfoldable pub validate_policy_set : Parsers → PolicySet → Option PolicyErr
unfolding profile_ids template_ids rule_set_ids check_template check_profile check_devices
validate_policy_set net p =
    let sets = map (λ s. s.id) p.rule_sets in
    profile_ids [] p.profiles
    >>? template_ids [] p.templates
    >>? rule_set_ids net [] p.rule_sets
    >>? first_of (check_template net sets p.templates) p.templates
    >>? first_of (check_profile net sets p.templates) p.profiles
    >>? check_devices net (map (λ q. q.id) p.profiles) (record { ids = []; macs = []; ips = [] })
        p.devices
