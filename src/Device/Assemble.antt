-- ===== src/Device/Assemble.antt =====
-- The compiled policy of the devices' parts, in their order, with a provider for each rule set in
-- use. The map of rule sets in use is the sorted list of its keys.
use opensurge_fnos.Base.{
  Bool, List, [], false, if◌then◌else◌, ltb, map, true, ◌&&◌, ◌++◌, ◌==◌, ◌||◌, ◌∷◌,
}
use opensurge_fnos.Device.Compiled.{CompiledPolicy, DevicePart, RuleProvider}
use opensurge_fnos.Device.Policy.{PolicyErr, PolicySet, RuleSet, pos}
use opensurge_fnos.Device.Validate.{normalized_rule_set}
use opensurge_fnos.Device.Variants.{rule_set_provider_name}
use opensurge_fnos.Exec.{Result, err, ok}
use opensurge_fnos.Text.{Text, text_eq}

-- Go's order of strings.
unfoldable pub text_leb : Text → Text → Bool
text_leb [] t = true
text_leb (a ∷ s) [] = false
text_leb (a ∷ s) (b ∷ t) = ltb a b || (a == b && text_leb s t)

-- An insertion into the sorted keys of a map.
unfoldable pub with_key : Text → List Text → List Text
unfolding text_leb text_eq
with_key k [] = k ∷ []
with_key k (x ∷ xs) =
    let rest = with_key k xs in
    if text_eq k x then x ∷ xs else if text_leb k x then k ∷ x ∷ xs else x ∷ rest

unfoldable pub sorted_keys : List Text → List Text
unfolding with_key
sorted_keys [] = []
sorted_keys (k ∷ ks) = with_key k (sorted_keys ks)

unfoldable pub rule_set_of : Text → List RuleSet → RuleSet
unfolding text_eq normalized_rule_set
rule_set_of id [] = record {
  id = [];
  kind = [];
  behavior = [];
  format = [];
  url = [];
  interval = pos 0;
  payload = [];
}
rule_set_of id (s ∷ ss) = if text_eq id s.id then normalized_rule_set s else rule_set_of id ss

unfoldable pub rule_provider : RuleSet → RuleProvider
unfolding rule_set_provider_name
rule_provider s = record {
  name = rule_set_provider_name s.id;
  kind = s.kind;
  behavior = s.behavior;
  format = s.format;
  url = s.url;
  interval = s.interval;
  payload = s.payload;
}

abbrev pub each {ℓ} : {A : Type ℓ} → (DevicePart → List A) → List DevicePart → List A
each f [] = []
each f (p ∷ ps) = f p ++ each f ps

unfoldable pub assembled : PolicySet → List DevicePart → CompiledPolicy
unfolding sorted_keys rule_provider rule_set_of
assembled set ps = record {
  reservations = each (λ p. p.reservation) ps;
  selector_groups = each (λ p. p.part.selector_groups) ps;
  rule_providers =
      map (λ id. rule_provider (rule_set_of id set.rule_sets))
        (sorted_keys (each (λ p. p.part.used) ps));
  override_rules = each (λ p. p.part.override_rules) ps;
  dedicated_rules = each (λ p. p.dedicated_rules) ps;
  default_rules = each (λ p. p.default_rules) ps;
  devices = map (λ p. p.device) ps;
  selector_targets = each (λ p. p.part.selector_targets) ps;
  action_targets = each (λ p. p.part.action_targets) ps;
}

unfoldable pub compiled_parts :
    PolicySet → Result PolicyErr (List DevicePart) → Result PolicyErr CompiledPolicy
unfolding assembled
compiled_parts set (err e) = err e
compiled_parts set (ok ps) = ok (assembled set ps)
