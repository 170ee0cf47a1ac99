-- ===== src/Device/Expansion.antt =====
-- What the validation of a match ensures of its expansion.
use opensurge_fnos.Base.{
  All, Bool, List, Option, [], ap, arith, false, none, refl, some, suc, sym, true, ℕ, ◌*◌, ◌++◌,
  ◌+◌, ◌<◌, ◌∙◌, ◌∷◌, ◌≡◌,
}
use opensurge_fnos.Device.Policy.{PolicyErr, RuleMatch, require, ◌>>?◌}
use opensurge_fnos.Device.Variants.{
  all_variants, append_condition_dimension, append_each, domain_conditions, ip_cidr_conditions,
  port_conditions, protocol_conditions, rule_set_conditions, with_each,
}
use opensurge_fnos.Lists.{length, length-++, length-map}
use opensurge_fnos.Text.{Text}

pub in_turn : (a b : Option PolicyErr) → (a >>? b) ≡ none → (a ≡ none) × (b ≡ none)
in_turn none b h = (refl, h)
in_turn (some e) b h = absurd cc

pub required : {b : Bool} (e : PolicyErr) → require b e ≡ none → b ≡ true
required {b = true} e h = refl
required {b = false} e h = absurd cc

length-with_each : (p cs : List Text) → length (with_each p cs) ≡ length cs
unfolding with_each
length-with_each p [] = refl
length-with_each p (c ∷ cs) = ap suc (length-with_each p cs)

length-append_each :
    (ps : List (List Text)) (cs : List Text) → length (append_each ps cs) ≡ length ps * length cs
unfolding append_each
length-append_each [] cs = omega arith
length-append_each (p ∷ ps) cs =
    let ih = length-append_each ps cs in
    let here = length-with_each p cs in length-++ (with_each p cs) (append_each ps cs) ∙ grind arith

-- The number of variants that a dimension makes of `n`.
abbrev pub multiplied : ℕ → List Text → ℕ
multiplied n [] = n
multiplied n (x ∷ xs) = n * length (x ∷ xs)

-- One dimension multiplies the variants by its conditions, and leaves them if it has none.
length-append_condition_dimension :
    (vs : List (List Text)) (cs ds : List Text)
    → length cs ≡ length ds
    → length (append_condition_dimension vs cs) ≡ multiplied (length vs) ds
unfolding append_condition_dimension
length-append_condition_dimension vs [] [] same = refl
length-append_condition_dimension vs [] (d ∷ ds) same = absurd (omega arith)
length-append_condition_dimension vs (c ∷ cs) [] same = absurd (omega arith)
length-append_condition_dimension vs (c ∷ cs) (d ∷ ds) same =
    length-append_each vs (c ∷ cs) ∙ ap (λ n. length vs * n) same

abbrev pub AllFull : List (List Text) → Type 0
AllFull vs = All (λ v. 0 < length v) vs

AllFull-++ : (vs ws : List (List Text)) → AllFull vs → AllFull ws → AllFull (vs ++ ws)
AllFull-++ [] ws h k = k
AllFull-++ (v ∷ vs) ws h k = (h.0, AllFull-++ vs ws h.1 k)

with_each-AllFull : (p cs : List Text) → AllFull (with_each p cs)
unfolding with_each
with_each-AllFull p [] = tt
with_each-AllFull p (c ∷ cs) =
    let grown = length-++ p (c ∷ []) in (omega arith, with_each-AllFull p cs)

append_each-AllFull : (ps : List (List Text)) (cs : List Text) → AllFull (append_each ps cs)
unfolding append_each
append_each-AllFull [] cs = tt
append_each-AllFull (p ∷ ps) cs =
    AllFull-++ (with_each p cs) (append_each ps cs) (with_each-AllFull p cs)
      (append_each-AllFull ps cs)

append_condition_dimension-AllFull :
    (vs : List (List Text)) (cs : List Text)
    → (length cs ≡ 0 → AllFull vs)
    → AllFull (append_condition_dimension vs cs)
unfolding append_condition_dimension
append_condition_dimension-AllFull vs [] h = h refl
append_condition_dimension-AllFull vs (c ∷ cs) h = append_each-AllFull vs (c ∷ cs)

-- The two lengths of a match and of its conditions agree, dimension by dimension.
length-domain_conditions : (ds : List Text) → length (domain_conditions ds) ≡ length ds
unfolding domain_conditions
length-domain_conditions ds = length-map _ ds

length-ip_cidr_conditions : (ds : List Text) → length (ip_cidr_conditions ds) ≡ length ds
unfolding ip_cidr_conditions
length-ip_cidr_conditions ds = length-map _ ds

length-protocol_conditions : (ds : List Text) → length (protocol_conditions ds) ≡ length ds
unfolding protocol_conditions
length-protocol_conditions ds = length-map _ ds

length-port_conditions : (ds : List Text) → length (port_conditions ds) ≡ length ds
unfolding port_conditions
length-port_conditions ds = length-map _ ds

length-rule_set_conditions : (ds : List Text) → length (rule_set_conditions ds) ≡ length ds
unfolding rule_set_conditions
length-rule_set_conditions ds = length-map _ ds

-- The number of conditions that a variant may draw from.
abbrev pub dimensions : RuleMatch → ℕ
dimensions m =
    length m.domains + length m.ip_cidrs + length m.protocols + length m.ports + length m.rule_sets

abbrev pub product : RuleMatch → ℕ
product m =
    multiplied
      (multiplied (multiplied (multiplied (multiplied 1 m.domains) m.ip_cidrs) m.protocols) m.ports)
      m.rule_sets

pub length-all_variants : (m : RuleMatch) → length (all_variants m) ≡ product m
unfolding all_variants
length-all_variants m =
    length-append_condition_dimension _ _ m.rule_sets (length-rule_set_conditions _)
    ∙ ap (λ n. multiplied n m.rule_sets)
        (length-append_condition_dimension _ _ m.ports (length-port_conditions _)
          ∙ ap (λ n. multiplied n m.ports)
              (length-append_condition_dimension _ _ m.protocols (length-protocol_conditions _)
                ∙ ap (λ n. multiplied n m.protocols)
                    (length-append_condition_dimension _ _ m.ip_cidrs (length-ip_cidr_conditions _)
                      ∙ ap (λ n. multiplied n m.ip_cidrs)
                          (length-append_condition_dimension _ _ m.domains
                            (length-domain_conditions _)))))

none_left :
    (m : RuleMatch)
    → 0 < dimensions m
    → length m.rule_sets ≡ 0
    → length m.ports ≡ 0
    → length m.protocols ≡ 0
    → length m.ip_cidrs ≡ 0
    → length m.domains ≡ 0
    → ⊥
none_left m some_condition s p r c d = omega arith

pub all_variants-AllFull : (m : RuleMatch) → 0 < dimensions m → AllFull (all_variants m)
unfolding all_variants
all_variants-AllFull m some_condition = append_condition_dimension-AllFull _ _ λ no_sets.
    append_condition_dimension-AllFull _ _ λ no_ports.
      append_condition_dimension-AllFull _ _ λ no_protocols.
        append_condition_dimension-AllFull _ _ λ no_cidrs.
          append_condition_dimension-AllFull _ _ λ no_domains. absurd (
            none_left m some_condition (sym (length-rule_set_conditions _) ∙ no_sets)
              (sym (length-port_conditions _) ∙ no_ports)
              (sym (length-protocol_conditions _) ∙ no_protocols)
              (sym (length-ip_cidr_conditions _) ∙ no_cidrs)
              (sym (length-domain_conditions _) ∙ no_domains))

multiplied-positive : (n : ℕ) (ds : List Text) → 0 < n → 0 < multiplied n ds
multiplied-positive n [] h = h
multiplied-positive n (d ∷ ds) h = grind arith

pub product-positive : (m : RuleMatch) → 0 < product m
product-positive m = multiplied-positive _ m.rule_sets (
    multiplied-positive _ m.ports (
      multiplied-positive _ m.protocols
        (multiplied-positive _ m.ip_cidrs (multiplied-positive 1 m.domains (omega arith)))))
