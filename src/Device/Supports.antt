-- ===== src/Device/Supports.antt =====
-- What the parts of a device need, and that the compilation of its slots keeps it.
use opensurge_fnos.Base.{
  All, All-++, List, Option, [], arith, false, if_holds, none, not, refl, subst, sym, ℕ, ◌<◌, ◌==◌,
  ◌∷◌, ◌≡◌,
}
use opensurge_fnos.Device.Compiled.{Part, ◌⊕◌}
use opensurge_fnos.Device.Policy.{PolicyErr, Rule, Template}
use opensurge_fnos.Device.Resolution.{Adjustment, Resolution, target_available}
use opensurge_fnos.Device.Slots.{
  action_rule, adjusted, compile_rule, compile_rules, default_selector, joined, own_selector,
  resolve_unsupported, rule_seen, selector_rule, with_action, with_variants,
}
use opensurge_fnos.Device.Targets.{IsAvailable, IsSupported, IsUsable, selector-All}
use opensurge_fnos.Exec.{Result, err, ok}
use opensurge_fnos.Lists.{length}
use opensurge_fnos.Text.{Text, text}

pub none-IsSupported :
    (res : Option Resolution) (p : Part)
    → p.selector_groups ≡ []
    → p.selector_targets ≡ []
    → p.action_targets ≡ []
    → IsSupported res p
none-IsSupported res p g t a = record {
  groups_usable = subst (All (IsUsable res)) (sym g) tt;
  targets_available = subst (All (IsAvailable res)) (sym t) tt;
  actions_available = subst (All (IsAvailable res)) (sym a) tt;
}

pub ⊕-IsSupported :
    (res : Option Resolution) (p q : Part)
    → IsSupported res p
    → IsSupported res q
    → IsSupported res (p ⊕ q)
unfolding ◌⊕◌
⊕-IsSupported res p q a b = record {
  groups_usable = All-++ (IsUsable res) _ _ a.groups_usable b.groups_usable;
  targets_available = All-++ (IsAvailable res) _ _ a.targets_available b.targets_available;
  actions_available = All-++ (IsAvailable res) _ _ a.actions_available b.actions_available;
}

-- A part that is produced is supported.
unfoldable pub Supports : Option Resolution → Result PolicyErr Part → Type 0
Supports res (ok p) = IsSupported res p
Supports res (err e) = Unit

with_variants-Supports :
    (res : Option Resolution) (p : Part) (ip action unsupported : Text)
    (vs : Result PolicyErr (List (List Text) × List Text))
    → IsSupported res p
    → Supports res (with_variants p ip action unsupported vs)
unfolding with_variants Supports
with_variants-Supports res p ip action unsupported (err e) s = tt
with_variants-Supports res p ip action unsupported (ok v) s = record {
  groups_usable = s.groups_usable;
  targets_available = s.targets_available;
  actions_available = s.actions_available;
}

joined-Supports :
    (res : Option Resolution) (a b : Result PolicyErr Part)
    → Supports res a
    → Supports res b
    → Supports res (joined a b)
unfolding joined Supports
joined-Supports res (err e) b ha hb = tt
joined-Supports res (ok p) (err e) ha hb = tt
joined-Supports res (ok p) (ok q) ha hb = ⊕-IsSupported res p q ha hb

some_length : (n : ℕ) → (n == 0) ≡ false → 0 < n
some_length n h = ground arith

own_selector-IsSupported :
    (res : Option Resolution) (seen : Part) (device slot : Text) (policies : List Text)
    → (length policies == 0) ≡ false
    → All (IsAvailable res) policies
    → seen.action_targets ≡ []
    → IsSupported res (own_selector seen device slot policies)
unfolding own_selector
own_selector-IsSupported res seen device slot policies some_policy available none_yet = record {
  groups_usable = (record { some_policy = some_length _ some_policy; available = available }, tt);
  targets_available = available;
  actions_available = subst (All (IsAvailable res)) (sym none_yet) tt;
}

with_action-IsSupported :
    (res : Option Resolution) (action : Text) (seen : Part)
    → seen.selector_groups ≡ []
    → seen.selector_targets ≡ []
    → not (target_available res action) ≡ false
    → IsSupported res (with_action action seen)
unfolding with_action
with_action-IsSupported res action seen no_group no_target available = record {
  groups_usable = subst (All (IsUsable res)) (sym no_group) tt;
  targets_available = subst (All (IsAvailable res)) (sym no_target) tt;
  actions_available = (ground (arith, available), tt);
}

module _ (res : Option Resolution) (ts : List Template) (device ip : Text) where
  selector_rule-Supports :
      (rule : Rule) (unsupported : Text) (policies : List Text) (a : Option Adjustment)
      → All (IsAvailable res) policies
      → Supports res (selector_rule res ts device ip rule unsupported (policies, a))
  unfolding selector_rule rule_seen adjusted
  selector_rule-Supports rule unsupported policies a available =
      if_holds (Supports res) (length policies == 0) _ _
        (λ _. unfold Supports in none-IsSupported res _ refl refl refl)
        (λ some_policy. with_variants-Supports res _ ip _ unsupported _ (
          own_selector-IsSupported res (rule_seen rule a) device rule.id policies some_policy
            available refl))

  action_rule-Supports :
      (rule : Rule) (unsupported : Text)
      → Supports res (action_rule res ts device ip rule unsupported)
  unfolding action_rule rule_seen adjusted
  action_rule-Supports rule unsupported =
      if_holds (Supports res) (not (target_available res rule.action)) _ _
        (λ _. unfold Supports in none-IsSupported res _ refl refl refl)
        (λ available.
          with_variants-Supports res _ ip _ unsupported _
            (with_action-IsSupported res rule.action (rule_seen rule none) refl refl available))

  pub compile_rules-Supports :
      (unsupported : Text) (rules : List Rule)
      → Supports res (compile_rules res ts device ip unsupported rules)
  unfolding compile_rules compile_rule
  compile_rules-Supports unsupported [] = unfold Supports in none-IsSupported res _ refl refl refl
  compile_rules-Supports unsupported (r ∷ rs) =
      joined-Supports res _ _
        (if_holds (Supports res) (length r.policies == 0) _ _
          (λ _. action_rule-Supports r (resolve_unsupported r.on_unsupported unsupported))
          (λ _.
            selector_rule-Supports r (resolve_unsupported r.on_unsupported unsupported) _ _
              (selector-All res device r.id r.policies)))
        (compile_rules-Supports unsupported rs)

pub default_selector-IsSupported :
    (res : Option Resolution) (device : Text) (policies : List Text) (a : Option Adjustment)
    → All (IsAvailable res) policies
    → IsSupported res (default_selector device (policies, a))
unfolding default_selector adjusted
default_selector-IsSupported res device policies a available =
    if_holds (IsSupported res) (length policies == 0) _ _
      (λ _. none-IsSupported res _ refl refl refl)
      (λ some_policy.
        own_selector-IsSupported res (adjusted a) device (text "default") policies some_policy
          available refl)
