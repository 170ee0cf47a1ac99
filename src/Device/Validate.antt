-- ===== src/Device/Validate.antt =====
-- The validation of a device policy: ValidatePolicySet of internal/device/policy.go and the checks
-- of its parts. The source's maps of profiles, templates and rule sets have their IDs as keys, and
-- each is checked to have no duplicate before it is looked up.
use opensurge_fnos.Base.{
  Bool, List, Option, [], false, if◌then◌else◌, none, not, some, true, ℕ, ◌&&◌, ◌++◌, ◌+◌, ◌==◌,
  ◌||◌, ◌∷◌,
}
use opensurge_fnos.Device.Names.{
  valid_domain, valid_id, valid_policy, valid_port_range, validate_policy_list,
  validate_unsupported,
}
use opensurge_fnos.Device.Policy.{
  Parsers, PolicyErr, Profile, Rule, RuleMatch, RuleSet, Template, action_with_policies, bad_cidr,
  bad_domain, bad_id, bad_port, bad_protocol, bad_rule_set, duplicate_id, empty_match, first_of,
  has, negsuc, no_action, pos, require, template_combined, template_of, template_without_sets,
  too_many_variants, unknown_rule_set, unknown_template, ℤ, ◌>>?◌,
}
use opensurge_fnos.Device.Variants.{combination_count, within_limit}
use opensurge_fnos.Exec.{Result, err, ok}
use opensurge_fnos.Lists.{length}
use opensurge_fnos.Text.{Text, is_empty, text, text_eq, to_lower, trim_space}

direct_dimensions : RuleMatch → ℕ
direct_dimensions m =
    length m.domains + length m.ip_cidrs + length m.protocols + length m.ports + length m.rule_sets

unfoldable pub has_rule_sets : Text → Option Template → Option PolicyErr
has_rule_sets id none = some (unknown_template id)
has_rule_sets id (some t) = require (not (length t.rule_sets == 0)) (template_without_sets id)

unfoldable pub check_dimensions : RuleMatch → List Template → Option PolicyErr
unfolding direct_dimensions has_rule_sets
check_dimensions m ts =
    if is_empty m.template
    then require (not (direct_dimensions m == 0)) empty_match
    else require (direct_dimensions m == 0) (template_combined m.template)
      >>? has_rule_sets m.template (template_of m.template ts)

valid_protocol : Text → Bool
unfolding text_eq to_lower
valid_protocol p = text_eq (to_lower p) (text "tcp") || text_eq (to_lower p) (text "udp")

unfoldable pub check_values : Parsers → RuleMatch → List Text → Option PolicyErr
unfolding valid_domain valid_protocol valid_port_range
check_values net m sets =
    first_of (λ d. require (valid_domain d) (bad_domain d)) m.domains
    >>? first_of (λ c. require (net.is_cidr c) (bad_cidr c)) m.ip_cidrs
    >>? first_of (λ p. require (valid_protocol p) (bad_protocol p)) m.protocols
    >>? first_of (λ p. require (valid_port_range p) (bad_port p)) m.ports
    >>? first_of (λ id. require (has id sets) (unknown_rule_set id)) m.rule_sets

unfoldable pub validate_match : Parsers → RuleMatch → List Text → List Template → Option PolicyErr
unfolding check_dimensions check_values combination_count within_limit
validate_match net m sets ts =
    check_dimensions m ts
    >>? check_values net m sets
    >>? require (within_limit (combination_count m ts)) too_many_variants

-- A rule has an action, or policies of which a selector is made, and not both.
unfoldable pub check_action : Rule → Option PolicyErr
unfolding valid_policy validate_policy_list
check_action r =
    if length r.policies == 0
    then require (valid_policy r.action) (no_action r.id)
    else require (is_empty r.action) (action_with_policies r.id) >>? validate_policy_list r.policies

unfoldable pub validate_rules :
    Parsers → List Text → List Text → List Template → List Rule → Option PolicyErr
unfolding text_eq valid_id validate_match validate_unsupported check_action
validate_rules net seen sets ts [] = none
validate_rules net seen sets ts (r ∷ rs) =
    let rest = validate_rules net (r.id ∷ seen) sets ts rs in
    require (valid_id r.id && not (text_eq r.id (text "default"))) (bad_id r.id)
    >>? require (not (has r.id seen)) (duplicate_id r.id)
    >>? validate_match net r.matching sets ts
    >>? validate_unsupported r.on_unsupported
    >>? check_action r
    >>? rest

unfoldable pub normalized_rule_set : RuleSet → RuleSet
unfolding to_lower trim_space
normalized_rule_set s =
    let kind = to_lower (trim_space s.kind) in
    let format = to_lower (trim_space s.format) in
    record s {
      kind = if is_empty kind then text "inline" else kind;
      behavior = to_lower (trim_space s.behavior);
      format = if is_empty format then text "yaml" else format;
    }

is_web : Option (Text × Text) → Bool
unfolding text_eq
is_web none = false
is_web (some (scheme, host)) =
    (text_eq scheme (text "http") || text_eq scheme (text "https")) && not (is_empty host)

is_negative : ℤ → Bool
is_negative (pos n) = false
is_negative (negsuc n) = true

check_source : Parsers → RuleSet → Option PolicyErr
unfolding text_eq is_web
check_source net s =
    if text_eq s.kind (text "inline")
    then require (not (length s.payload == 0)) (bad_rule_set s.id)
      >>? require (is_empty s.url) (bad_rule_set s.id)
    else if text_eq s.kind (text "http")
    then require (is_web (net.url_of s.url)) (bad_rule_set s.id)
      >>? require (length s.payload == 0) (bad_rule_set s.id)
    else some (bad_rule_set s.id)

check_format : RuleSet → Option PolicyErr
unfolding text_eq
check_format s =
    if text_eq s.kind (text "http")
    then require
        (text_eq s.format (text "yaml")
          || text_eq s.format (text "text")
          || text_eq s.format (text "mrs"))
        (bad_rule_set s.id)
      >>? require (not (text_eq s.format (text "mrs") && text_eq s.behavior (text "classical")))
          (bad_rule_set s.id)
    else none

check_rule_set : Parsers → RuleSet → Option PolicyErr
unfolding check_source text_eq check_format is_negative
check_rule_set net s =
    check_source net s
    >>? require
        (text_eq s.behavior (text "domain")
          || text_eq s.behavior (text "ipcidr")
          || text_eq s.behavior (text "classical"))
        (bad_rule_set s.id)
    >>? check_format s
    >>? require (not (is_negative s.interval)) (bad_rule_set s.id)

unfoldable pub validate_rule_set : Parsers → RuleSet → Option PolicyErr
unfolding check_rule_set normalized_rule_set
validate_rule_set net s = check_rule_set net (normalized_rule_set s)

resolve_with : Profile → Option Template → Result PolicyErr Profile
resolve_with p none = err (unknown_template p.template)
resolve_with p (some t) = ok (record p {
  template = [];
  default_policies =
      if length p.default_policies == 0 then t.default_policies else p.default_policies;
  on_unsupported = if is_empty p.on_unsupported then t.on_unsupported else p.on_unsupported;
  rules = t.rules ++ p.rules;
})

unfoldable pub resolve_profile : Profile → List Template → Result PolicyErr Profile
unfolding resolve_with
resolve_profile p ts =
    if is_empty p.template then ok p else resolve_with p (template_of p.template ts)
