-- ===== src/Device/Compilable.antt =====
-- What the compilation of an accepted policy relies on: every profile resolves, and every rule of it
-- expands.
use opensurge_fnos.Base.{
  All, List, [], is_some, map, none, not, refl, ◌&&◌, ◌<◌, ◌==◌, ◌||◌, ◌∷◌, ◌≡◌,
}
use opensurge_fnos.Device.Accept.{
  check_default_policies, check_profile, check_resolved, check_template, profile_ids, rule_set_ids,
  template_ids, validate_policy_set,
}
use opensurge_fnos.Device.Accepted.{Expands, some_dimension, validated_match-Expands}
use opensurge_fnos.Device.Countable.{Countable}
use opensurge_fnos.Device.Expansion.{in_turn}
use opensurge_fnos.Device.Names.{valid_id, validate_unsupported}
use opensurge_fnos.Device.Policy.{
  Parsers, PolicyErr, PolicySet, Profile, Rule, Template, bad_id, duplicate_id, first_of, has,
  no_default_policies, require, template_of, unknown_template,
}
use opensurge_fnos.Device.Validate.{check_action, resolve_profile, validate_match, validate_rules}
use opensurge_fnos.Device.Variants.{combination_count, rule_variants}
use opensurge_fnos.Exec.{Result, err, ok}
use opensurge_fnos.Lists.{length}
use opensurge_fnos.Text.{Text, is_empty, text, text_eq}

abbrev pub EachExpands : List Template → List Rule → Type 0
EachExpands ts rs =
    All (λ r. Expands (rule_variants r.matching ts) (combination_count r.matching ts)) rs

-- An int can count the combinations of every rule of the resolved profile.
abbrev pub CountableRules : List Template → Result PolicyErr Profile → Type 0
CountableRules ts (err e) = Unit
CountableRules ts (ok p) = All (λ r. Countable ts r.matching) p.rules

abbrev pub CountableProfiles : PolicySet → Type 0
CountableProfiles set =
    All (λ p. CountableRules set.templates (resolve_profile p set.templates)) set.profiles

rules-EachExpands :
    (net : Parsers) (seen sets : List Text) (ts : List Template) (rs : List Rule)
    → All (λ r. Countable ts r.matching) rs
    → validate_rules net seen sets ts rs ≡ none
    → EachExpands ts rs
unfolding validate_rules
rules-EachExpands net seen sets ts [] fits accepted = tt
rules-EachExpands net seen sets ts (r ∷ rs) fits accepted =
    let named =
      (in_turn (require (valid_id r.id && not (text_eq r.id (text "default"))) (bad_id r.id)) _
        accepted).1 in
    let new = (in_turn (require (not (has r.id seen)) (duplicate_id r.id)) _ named).1 in
    let matched = in_turn (validate_match net r.matching sets ts) _ new in
    let supported = (in_turn (validate_unsupported r.on_unsupported) _ matched.1).1 in
    let acted = (in_turn (check_action r) _ supported).1 in
    (
      validated_match-Expands net r.matching sets ts fits.0 matched.0,
      rules-EachExpands net (r.id ∷ seen) sets ts rs fits.1 acted,
    )

-- A profile with its template's rules and policies, as the compilation uses it.
pub record Usable (ts : List Template) (p : Profile) : Type 0 where
  pub resolved : Profile
  pub resolves : resolve_profile p ts ≡ ok resolved
  pub has_policies : 0 < length resolved.default_policies
  pub expands : EachExpands ts resolved.rules

resolved-Usable :
    (net : Parsers) (sets : List Text) (ts : List Template) (p : Profile)
    (r : Result PolicyErr Profile)
    → CountableRules ts r
    → resolve_profile p ts ≡ r
    → check_resolved net sets ts r ≡ none
    → Usable ts p
unfolding check_resolved
resolved-Usable net sets ts p (err e) fits same accepted = absurd cc
resolved-Usable net sets ts p (ok q) fits same accepted =
    let both =
      in_turn (require (not (length q.default_policies == 0)) (no_default_policies q.id)) _
        accepted in
    record {
      resolved = q;
      resolves = same;
      has_policies = some_dimension (no_default_policies q.id) both.0;
      expands = rules-EachExpands net [] sets ts q.rules fits both.1;
    }

profile-Usable :
    (net : Parsers) (sets : List Text) (ts : List Template) (p : Profile)
    → CountableRules ts (resolve_profile p ts)
    → check_profile net sets ts p ≡ none
    → Usable ts p
unfolding check_profile
profile-Usable net sets ts p fits accepted =
    let known =
      (in_turn
        (require (is_empty p.template || is_some (template_of p.template ts))
          (unknown_template p.template))
        _ accepted).1 in
    let listed = (in_turn (check_default_policies p.default_policies) _ known).1 in
    let supported = (in_turn (validate_unsupported p.on_unsupported) _ listed).1 in
    resolved-Usable net sets ts p (resolve_profile p ts) fits refl supported

profiles-Usable :
    (net : Parsers) (sets : List Text) (ts : List Template) (ps : List Profile)
    → All (λ p. CountableRules ts (resolve_profile p ts)) ps
    → first_of (check_profile net sets ts) ps ≡ none
    → All (Usable ts) ps
profiles-Usable net sets ts [] fits accepted = tt
profiles-Usable net sets ts (p ∷ ps) fits accepted =
    let both = in_turn (check_profile net sets ts p) _ accepted in
    (profile-Usable net sets ts p fits.0 both.0, profiles-Usable net sets ts ps fits.1 both.1)

-- In a policy that validation accepts, and of whose rules an int can count the combinations, every
-- profile resolves with its template, to one with default policies all of whose rules expand without
-- an error, into as many variants as are counted, at most 256.
pub accepted_profiles-Usable :
    (net : Parsers) (p : PolicySet)
    → CountableProfiles p
    → validate_policy_set net p ≡ none
    → All (Usable p.templates) p.profiles
unfolding validate_policy_set
accepted_profiles-Usable net p fits accepted =
    let sets = map (λ s. s.id) p.rule_sets in
    let a = (in_turn (profile_ids [] p.profiles) _ accepted).1 in
    let b = (in_turn (template_ids [] p.templates) _ a).1 in
    let c = (in_turn (rule_set_ids net [] p.rule_sets) _ b).1 in
    let d = (in_turn (first_of (check_template net sets p.templates) p.templates) _ c).1 in
    profiles-Usable net sets p.templates p.profiles fits
      (in_turn (first_of (check_profile net sets p.templates) p.profiles) _ d).0
