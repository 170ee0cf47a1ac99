-- ===== src/Device/Variants.antt =====
-- The expansion of a match into rules: ruleVariants, appendConditionDimension, the conditions of
-- each dimension and combinationCount of internal/device/policy.go.
use opensurge_fnos.Base.{
  Bool, List, Option, [], if◌then◌else◌, leb, map, none, some, ℕ, ◌%◌, ◌*◌, ◌++◌, ◌^◌, ◌||◌, ◌∷◌,
}
use opensurge_fnos.Device.Policy.{
  PolicyErr, RuleMatch, Template, empty_match, template_of, unknown_template,
}
use opensurge_fnos.Exec.{Result, err, ok}
use opensurge_fnos.Lists.{length}
use opensurge_fnos.Text.{Text, is_empty, text, to_lower}

-- The prior conditions, with each condition in turn after them.
unfoldable pub with_each : List Text → List Text → List (List Text)
with_each prior [] = []
with_each prior (c ∷ cs) = (prior ++ (c ∷ [])) ∷ with_each prior cs

unfoldable pub append_each : List (List Text) → List Text → List (List Text)
unfolding with_each
append_each [] cs = []
append_each (prior ∷ existing) cs = with_each prior cs ++ append_each existing cs

unfoldable pub append_condition_dimension : List (List Text) → List Text → List (List Text)
unfolding append_each
append_condition_dimension existing [] = existing
append_condition_dimension existing (c ∷ cs) = append_each existing (c ∷ cs)

unfoldable pub domain_conditions : List Text → List Text
unfolding to_lower
domain_conditions ds = map (λ d. text "DOMAIN-SUFFIX," ++ to_lower d) ds

unfoldable pub ip_cidr_conditions : List Text → List Text
ip_cidr_conditions cs = map (λ c. text "IP-CIDR," ++ c) cs

unfoldable pub protocol_conditions : List Text → List Text
unfolding to_lower
protocol_conditions ps = map (λ p. text "NETWORK," ++ to_lower p) ps

unfoldable pub port_conditions : List Text → List Text
port_conditions ps = map (λ p. text "DST-PORT," ++ p) ps

unfoldable pub rule_set_provider_name : Text → Text
rule_set_provider_name id = text "open-surge-ruleset-" ++ id

unfoldable pub rule_set_conditions : List Text → List Text
unfolding rule_set_provider_name
rule_set_conditions ids = map (λ id. text "RULE-SET," ++ rule_set_provider_name id) ids

unfoldable pub all_variants : RuleMatch → List (List Text)
unfolding append_condition_dimension domain_conditions ip_cidr_conditions protocol_conditions
    port_conditions rule_set_conditions
all_variants m =
    let vs = [] ∷ [] in
    let vs = append_condition_dimension vs (domain_conditions m.domains) in
    let vs = append_condition_dimension vs (ip_cidr_conditions m.ip_cidrs) in
    let vs = append_condition_dimension vs (protocol_conditions m.protocols) in
    let vs = append_condition_dimension vs (port_conditions m.ports) in
    append_condition_dimension vs (rule_set_conditions m.rule_sets)

-- No variant, or an empty first one, is an error.
unfoldable pub checked_variants :
    List (List Text) → List Text → Result PolicyErr (List (List Text) × List Text)
checked_variants [] refs = err empty_match
checked_variants ([] ∷ vs) refs = err empty_match
checked_variants ((c ∷ cs) ∷ vs) refs = ok ((c ∷ cs) ∷ vs, refs)

-- A match on a template stands for the template's rule sets.
unfoldable pub expand_template : RuleMatch → Option Template → Result PolicyErr RuleMatch
expand_template m none = err (unknown_template m.template)
expand_template m (some t) = ok (record m { rule_sets = t.rule_sets; template = [] })

unfoldable pub expanded : RuleMatch → List Template → Result PolicyErr RuleMatch
unfolding expand_template
expanded m ts = if is_empty m.template then ok m else expand_template m (template_of m.template ts)

unfoldable pub variants_of :
    Result PolicyErr RuleMatch → Result PolicyErr (List (List Text) × List Text)
unfolding checked_variants all_variants
variants_of (ok m) = checked_variants (all_variants m) m.rule_sets
variants_of (err e) = err e

-- The variants, and the rule sets that they refer to.
unfoldable pub rule_variants :
    RuleMatch → List Template → Result PolicyErr (List (List Text) × List Text)
unfolding expanded variants_of
rule_variants m ts = variants_of (expanded m ts)

-- `count *= len(dimension)`, on an int of 64 bits as its word; a negative int is one from 2 ^ 63 on.
unfoldable pub times_length : ℕ → List Text → ℕ
times_length count [] = count
times_length count (x ∷ xs) = count * length (x ∷ xs) % 2 ^ 64

-- templates[match.Template] of an unknown template is the zero template.
unfoldable pub sets_of : Option Template → List Text
sets_of none = []
sets_of (some t) = t.rule_sets

unfoldable pub combination_count : RuleMatch → List Template → ℕ
unfolding times_length sets_of
combination_count m ts =
    if is_empty m.template
    then (let n = times_length 1 m.domains in
        let n = times_length n m.ip_cidrs in
        let n = times_length n m.protocols in
        let n = times_length n m.ports in times_length n m.rule_sets)
    else length (sets_of (template_of m.template ts))

-- `combinationCount(...) <= 256`, which a negative int is too.
unfoldable pub within_limit : ℕ → Bool
within_limit count = leb count 256 || leb (2 ^ 63) count
