-- ===== src/Device/Accepted.antt =====
-- A validated match expands without an error, into as many rules as were counted.
use opensurge_fnos.Base.{
  All, Bool, List, Option, [], arith, false, if◌then◌else◌, none, not, refl, some, subst, sym, true,
  ℕ, ◌<◌, ◌==◌, ◌^◌, ◌∙◌, ◌∷◌, ◌≡◌, ◌≤◌,
}
use opensurge_fnos.Device.Countable.{Countable, combination_count-product}
use opensurge_fnos.Device.Expansion.{
  AllFull, all_variants-AllFull, dimensions, in_turn, length-all_variants, multiplied, product,
  product-positive,
}
use opensurge_fnos.Device.Policy.{
  Parsers, PolicyErr, RuleMatch, Template, empty_match, require, template_combined, template_of,
  template_without_sets, too_many_variants, ◌>>?◌,
}
use opensurge_fnos.Device.Validate.{check_dimensions, check_values, has_rule_sets, validate_match}
use opensurge_fnos.Device.Variants.{
  all_variants, checked_variants, combination_count, expand_template, expanded, rule_variants,
  sets_of, variants_of, within_limit,
}
use opensurge_fnos.Exec.{Result, ok}
use opensurge_fnos.Lists.{length}
use opensurge_fnos.Text.{Text, is_empty}

accepted_variants :
    (vs : List (List Text)) (refs : List Text)
    → 0 < length vs
    → AllFull vs
    → checked_variants vs refs ≡ ok (vs, refs)
unfolding checked_variants
accepted_variants [] refs some_variant full = absurd (omega arith)
accepted_variants ([] ∷ vs) refs some_variant full = absurd (omega (arith, full.0))
accepted_variants ((c ∷ cs) ∷ vs) refs some_variant full = refl

-- What is said of the expansion of a match with `n` combinations.
pub record Expands (r : Result PolicyErr (List (List Text) × List Text)) (n : ℕ) : Type 0 where
  pub variants : List (List Text)
  pub refs : List Text
  pub result : r ≡ ok (variants, refs)
  pub counted : length variants ≡ n
  pub bounded : length variants ≤ 256
  pub full : All (λ v. 0 < length v) variants

direct-Expands :
    (m : RuleMatch) (n : ℕ)
    → 0 < dimensions m
    → product m ≡ n
    → n ≤ 256
    → Expands (variants_of (ok m)) n
unfolding variants_of
direct-Expands m n some_condition counted bounded =
    let size = length-all_variants m in
    let positive = product-positive m in
    let full = all_variants-AllFull m some_condition in
    record {
      variants = all_variants m;
      refs = m.rule_sets;
      result = accepted_variants (all_variants m) m.rule_sets (omega arith) full;
      counted = size ∙ counted;
      bounded = omega arith;
      full = full;
    }

multiplied-none : (n : ℕ) (ds : List Text) → length ds ≡ 0 → multiplied n ds ≡ n
multiplied-none n [] none_there = refl
multiplied-none n (d ∷ ds) none_there = absurd (omega arith)

multiplied-one : (ds : List Text) → 0 < length ds → multiplied 1 ds ≡ length ds
multiplied-one [] some_there = absurd (omega arith)
multiplied-one (d ∷ ds) some_there = omega arith

product-sets :
    (m : RuleMatch) (sets : List Text)
    → dimensions m ≡ 0
    → 0 < length sets
    → product (record m { rule_sets = sets; template = [] }) ≡ length sets
product-sets m sets nothing some_set =
    let d = multiplied-none 1 m.domains (omega arith) in
    let c = multiplied-none 1 m.ip_cidrs (omega arith) in
    let r = multiplied-none 1 m.protocols (omega arith) in
    let p = multiplied-none 1 m.ports (omega arith) in
    rw (d, c, r, p) (multiplied-one sets some_set)

template-Expands :
    (m : RuleMatch) (o : Option Template)
    → dimensions m ≡ 0
    → has_rule_sets m.template o ≡ none
    → length (sets_of o) ≤ 256
    → Expands (variants_of (expand_template m o)) (length (sets_of o))
unfolding expand_template sets_of has_rule_sets
template-Expands m none nothing has_sets bounded = absurd cc
template-Expands m (some t) nothing has_sets bounded =
    let some_set : 0 < length t.rule_sets = some_sets t has_sets in
    direct-Expands _ _ (omega arith) (product-sets m t.rule_sets nothing some_set) bounded
  where
    some_sets :
        (t : Template)
        → require (not (length t.rule_sets == 0)) (template_without_sets m.template) ≡ none
        → 0 < length t.rule_sets
    some_sets t h = ground arith

pub some_dimension : {n : ℕ} (e : PolicyErr) → require (not (n == 0)) e ≡ none → 0 < n
some_dimension e h = ground arith

no_dimension : {n : ℕ} (e : PolicyErr) → require (n == 0) e ≡ none → n ≡ 0
no_dimension e h = ground arith

-- A direct match or one on a template, as `direct` says.
branch-Expands :
    (m : RuleMatch) (ts : List Template) (direct : Bool)
    → (if direct
        then require (not (dimensions m == 0)) empty_match
        else require (dimensions m == 0) (template_combined m.template)
          >>? has_rule_sets m.template (template_of m.template ts))
      ≡ none
    → (if direct then product m else length (sets_of (template_of m.template ts))) ≤ 256
    → Expands
        (variants_of (if direct then ok m else expand_template m (template_of m.template ts)))
        (if direct then product m else length (sets_of (template_of m.template ts)))
branch-Expands m ts true checked bounded =
    direct-Expands m (product m) (some_dimension empty_match checked) refl bounded
branch-Expands m ts false checked bounded =
    let both =
      in_turn (require (dimensions m == 0) (template_combined m.template))
        (has_rule_sets m.template (template_of m.template ts)) checked in
    template-Expands m (template_of m.template ts)
      (no_dimension (template_combined m.template) both.0) both.1 bounded

limited : {n : ℕ} (e : PolicyErr) → require (within_limit n) e ≡ none → n < 2 ^ 63 → n ≤ 256
unfolding within_limit
limited e h fits = ground arith

-- What is counted, as `direct` says.
counted_as :
    (m : RuleMatch) (ts : List Template) (direct : Bool)
    → is_empty m.template ≡ direct
    → Countable ts m
    → let n = if direct then product m else length (sets_of (template_of m.template ts)) in
      (combination_count m ts ≡ n) × (n < 2 ^ 63)
counted_as m ts true direct fits = (combination_count-product m ts direct fits, fits.0)
counted_as m ts false direct fits = (unfold combination_count in ground (arith, direct), fits.1)

-- A match that validation accepts, and whose combinations an int can count, expands without an error
-- into exactly combinationCount variants, at most 256, none of them empty.
pub validated_match-Expands :
    (net : Parsers) (m : RuleMatch) (sets : List Text) (ts : List Template)
    → Countable ts m
    → validate_match net m sets ts ≡ none
    → Expands (rule_variants m ts) (combination_count m ts)
unfolding validate_match check_dimensions rule_variants expanded
validated_match-Expands net m sets ts fits accepted =
    let limit = require (within_limit (combination_count m ts)) too_many_variants in
    let first = in_turn (check_dimensions m ts) (check_values net m sets >>? limit) accepted in
    let second = in_turn (check_values net m sets) limit first.1 in
    let n = counted_as m ts (is_empty m.template) refl fits in
    let small : combination_count m ts ≤ 256 =
      limited too_many_variants second.1 (subst (λ k. k < 2 ^ 63) (sym n.0) n.1) in
    subst (Expands (rule_variants m ts)) (sym n.0)
      (branch-Expands m ts (is_empty m.template) first.0 (subst (λ k. k ≤ 256) n.0 small))
