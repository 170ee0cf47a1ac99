-- ===== src/Device/Slots.antt =====
-- The default selector and the rules of one device in compilePolicySet.
use opensurge_fnos.Base.{
  Bool, List, Option, [], if◌then◌else◌, none, not, some, ◌&&◌, ◌++◌, ◌==◌, ◌∷◌,
}
use opensurge_fnos.Device.Compiled.{Part, no_part, ◌⊕◌}
use opensurge_fnos.Device.Policy.{PolicyErr, Rule, Template}
use opensurge_fnos.Device.Resolution.{
  Adjustment, Resolution, device_group_name, is_builtin, resolve_selector, skip_rule,
  target_available,
}
use opensurge_fnos.Device.Variants.{rule_variants}
use opensurge_fnos.Exec.{Result, err, ok}
use opensurge_fnos.Lists.{length}
use opensurge_fnos.Text.{Text, is_empty, text, text_eq}

unfoldable pub some_adjustment : Option Adjustment → List Adjustment
some_adjustment none = []
some_adjustment (some a) = a ∷ []

unfoldable pub resolve_unsupported : Text → Text → Text
resolve_unsupported rule profile =
    if not (is_empty rule) then rule else if not (is_empty profile) then profile else text "reject"

unfoldable pub action_can_fall_through : Text → Bool
unfolding is_builtin
action_can_fall_through action = not (is_builtin action)

wrapped : List Text → Text
wrapped [] = []
wrapped (p ∷ []) = text "(" ++ (p ++ text ")")
wrapped (p ∷ ps) = text "(" ++ (p ++ (text ")," ++ wrapped ps))

unfoldable pub compose_rule : List Text → Text → Text
unfolding wrapped
compose_rule (p ∷ []) action = p ++ (text "," ++ action)
compose_rule ps action = text "AND,(" ++ (wrapped ps ++ (text ")," ++ action))

unfoldable pub source_match : Text → Text
source_match ip = text "SRC-IP-CIDR," ++ (ip ++ text "/32")

-- The rules of one action, each with its rejection where the target may not carry a request.
unfoldable pub variant_rules : Text → Text → Bool → List (List Text) → List Text
unfolding compose_rule source_match
variant_rules ip action rejects [] = []
variant_rules ip action rejects (v ∷ vs) =
    let rest = variant_rules ip action rejects vs in
    let payloads = source_match ip ∷ v in
    compose_rule payloads action
    ∷ (if rejects then compose_rule payloads (text "REJECT") ∷ rest else rest)

unfoldable pub with_variants :
    Part
    → Text
    → Text
    → Text
    → Result PolicyErr (List (List Text) × List Text)
    → Result PolicyErr Part
unfolding variant_rules action_can_fall_through text_eq
with_variants p ip action unsupported (err e) = err e
with_variants p ip action unsupported (ok (variants, referenced)) = ok (record p {
  override_rules =
      variant_rules ip action
        (text_eq unsupported (text "reject") && action_can_fall_through action) variants;
  used = referenced;
})

-- A slot without a target.
unfoldable pub adjusted : Option Adjustment → Part
unfolding some_adjustment
adjusted a = record no_part { adjustments = some_adjustment a }

unfoldable pub rule_seen : Rule → Option Adjustment → Part
unfolding adjusted
rule_seen rule a = record (adjusted a) { matches = (rule.id, rule.matching) ∷ [] }

-- A slot with a selector group of its own.
unfoldable pub own_selector : Part → Text → Text → List Text → Part
unfolding device_group_name
own_selector seen device slot policies =
    let group = device_group_name device slot in
    record seen {
      slots = (slot, group) ∷ [];
      selector_groups = record { name = group; policies = policies } ∷ [];
      selector_targets = policies;
    }

-- The selector of the slot `default`.
unfoldable pub default_selector : Text → List Text × Option Adjustment → Part
unfolding adjusted own_selector
default_selector device (policies, adjustment) =
    if length policies == 0
    then adjusted adjustment
    else own_selector (adjusted adjustment) device (text "default") policies

unfoldable pub joined : Result PolicyErr Part → Result PolicyErr Part → Result PolicyErr Part
unfolding ◌⊕◌
joined (err e) b = err e
joined (ok p) (err e) = err e
joined (ok p) (ok q) = ok (p ⊕ q)

unfoldable pub with_action : Text → Part → Part
with_action action seen = record seen { action_targets = action ∷ [] }

module _ (res : Option Resolution) (ts : List Template) (device ip : Text) where
  -- A rule with candidates of its own.
  unfoldable pub selector_rule : Rule → Text → List Text × Option Adjustment → Result PolicyErr Part
  unfolding with_variants rule_variants rule_seen device_group_name own_selector
  selector_rule rule unsupported (policies, adjustment) =
      if length policies == 0
      then ok (rule_seen rule adjustment)
      else with_variants (own_selector (rule_seen rule adjustment) device rule.id policies) ip
          (device_group_name device rule.id) unsupported (rule_variants rule.matching ts)

  -- A rule with an action.
  unfoldable pub action_rule : Rule → Text → Result PolicyErr Part
  unfolding with_variants rule_variants target_available with_action rule_seen
  action_rule rule unsupported =
      let skip : Adjustment = record {
        slot = rule.id;
        effect = skip_rule;
        missing_targets = rule.action ∷ [];
        selected = [];
      } in
      if not (target_available res rule.action)
      then ok (rule_seen rule (some skip))
      else with_variants (with_action rule.action (rule_seen rule none)) ip rule.action unsupported
          (rule_variants rule.matching ts)

  unfoldable pub compile_rule : Text → Rule → Result PolicyErr Part
  unfolding selector_rule action_rule resolve_selector resolve_unsupported
  compile_rule profile_unsupported rule =
      let unsupported = resolve_unsupported rule.on_unsupported profile_unsupported in
      if length rule.policies == 0
      then action_rule rule unsupported
      else selector_rule rule unsupported (resolve_selector res device rule.id rule.policies)

  unfoldable pub compile_rules : Text → List Rule → Result PolicyErr Part
  unfolding compile_rule joined
  compile_rules profile_unsupported [] = ok no_part
  compile_rules profile_unsupported (r ∷ rs) =
      joined (compile_rule profile_unsupported r) (compile_rules profile_unsupported rs)
