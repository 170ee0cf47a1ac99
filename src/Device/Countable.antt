-- ===== src/Device/Countable.antt =====
-- When combinationCount, an int, counts the variants of a match.
use opensurge_fnos.Base.{
  Bool, List, [], ap, arith, if◌then◌else◌, refl, true, ℕ, ◌%◌, ◌*◌, ◌<◌, ◌^◌, ◌∙◌, ◌∷◌, ◌≡◌, ◌≤◌,
}
use opensurge_fnos.Device.Expansion.{multiplied, product}
use opensurge_fnos.Device.Policy.{RuleMatch, Template, template_of}
use opensurge_fnos.Device.Variants.{combination_count, sets_of, times_length}
use opensurge_fnos.Lists.{length}
use opensurge_fnos.Text.{Text, is_empty}

-- An int of 64 bits counts the variants of the match, and the rule sets of its template.
abbrev pub Countable : List Template → RuleMatch → Type 0
Countable ts m = (product m < 2 ^ 63) × (length (sets_of (template_of m.template ts)) < 2 ^ 63)

multiplied-grows : (n : ℕ) (ds : List Text) → n ≤ multiplied n ds
multiplied-grows n [] = omega arith
multiplied-grows n (d ∷ ds) = grind arith

no_wrap : (n : ℕ) → n < 2 ^ 63 → n % 2 ^ 64 ≡ n
no_wrap n h = omega arith

times_length-multiplied :
    (n k : ℕ) (ds : List Text)
    → n ≡ k
    → multiplied k ds < 2 ^ 63
    → times_length n ds ≡ multiplied k ds
unfolding times_length
times_length-multiplied n k [] same h = same
times_length-multiplied n k (d ∷ ds) same h =
    ap (λ x. x * length (d ∷ ds) % 2 ^ 64) same ∙ no_wrap (k * length (d ∷ ds)) h

when_direct : (b : Bool) (x y k : ℕ) → b ≡ true → x ≡ k → (if b then x else y) ≡ k
when_direct b x y k h same = ground arith

-- A direct count that does not wrap is the number of variants.
pub combination_count-product :
    (m : RuleMatch) (ts : List Template)
    → is_empty m.template ≡ true
    → Countable ts m
    → combination_count m ts ≡ product m
unfolding combination_count
combination_count-product m ts direct h =
    let d = multiplied 1 m.domains in
    let c = multiplied d m.ip_cidrs in
    let r = multiplied c m.protocols in
    let p = multiplied r m.ports in
    let s = multiplied-grows p m.rule_sets in
    let p_fits : p < 2 ^ 63 = omega (arith, s, h.0) in
    let r_fits : r < 2 ^ 63 = omega (arith, multiplied-grows r m.ports, p_fits) in
    let c_fits : c < 2 ^ 63 = omega (arith, multiplied-grows c m.protocols, r_fits) in
    let d_fits : d < 2 ^ 63 = omega (arith, multiplied-grows d m.ip_cidrs, c_fits) in
    when_direct _ _ _ (product m) direct (
      times_length-multiplied _ p m.rule_sets
        (times_length-multiplied _ r m.ports
          (times_length-multiplied _ c m.protocols
            (times_length-multiplied _ d m.ip_cidrs
              (times_length-multiplied 1 1 m.domains refl d_fits) c_fits)
            r_fits)
          p_fits)
        h.0)
