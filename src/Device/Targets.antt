-- ===== src/Device/Targets.antt =====
-- Every target that a compiled policy names is in the inventory it was resolved against.
use opensurge_fnos.Base.{
  All, All-++, List, Option, [], arith, false, if_holds, none, not, refl, some, true, ◌&&◌, ◌++◌,
  ◌<◌, ◌==◌, ◌||◌, ◌∷◌, ◌≡◌,
}
use opensurge_fnos.Device.Compiled.{Part, SelectorGroup}
use opensurge_fnos.Device.Resolution.{
  Adjustment, Resolution, device_group_name, effective_selection, filtered, resolve_selector,
  selection, target_available, to_front, where_available,
}
use opensurge_fnos.Lists.{length}
use opensurge_fnos.Text.{Text, is_empty, text_eq}

module _ (res : Option Resolution) where
  abbrev pub IsAvailable : Text → Type 0
  IsAvailable target = target_available res target ≡ true

  -- A selector with candidates, all of them available.
  pub record IsUsable (g : SelectorGroup) : Type 0 where
    pub some_policy : 0 < length g.policies
    pub available : All IsAvailable g.policies

  pub record IsSupported (p : Part) : Type 0 where
    pub groups_usable : All IsUsable p.selector_groups
    pub targets_available : All IsAvailable p.selector_targets
    pub actions_available : All IsAvailable p.action_targets

where_available-All :
    (r : Resolution) (cs : List Text) → All (IsAvailable (some r)) (where_available true r cs)
unfolding where_available
where_available-All r [] = tt
where_available-All r (c ∷ cs) =
    let rest = where_available-All r cs in
    if_holds (All (IsAvailable (some r))) (target_available (some r) c) _ _ (λ e. (e, rest))
      (λ _. rest)

to_front-All :
    (P : Text → Type 0) (s : Text) (before xs : List Text)
    → P s
    → All P before
    → All P xs
    → All P (to_front s before xs)
unfolding to_front
to_front-All P s before [] ps hb hx = hb
to_front-All P s before (x ∷ xs) ps hb hx =
    let later =
      to_front-All P s (before ++ (x ∷ [])) xs ps (All-++ P before (x ∷ []) hb (hx.0, tt)) hx.1 in
    if_holds (All P) (text_eq s x) _ _ (λ _. (ps, All-++ P before xs hb hx.1)) (λ _. later)

everything-All : (cs : List Text) → All (IsAvailable none) cs
unfolding target_available
everything-All [] = tt
everything-All (c ∷ cs) = (refl, everything-All cs)

-- What a selector is resolved to.
abbrev Choice : Type 0
Choice = List Text × Option Adjustment

pub selector-All :
    (res : Option Resolution) (device slot : Text) (cs : List Text)
    → All (IsAvailable res) (resolve_selector res device slot cs).0
unfolding resolve_selector filtered
selector-All none device slot cs = everything-All cs
selector-All (some r) device slot cs =
    let available = where_available-All r cs in
    if_holds (λ (x : Choice). All (IsAvailable (some r)) x.0)
      (length (where_available false r cs) == 0) _ _ (λ _. available)
      (λ _.
        if_holds (λ (x : Choice). All (IsAvailable (some r)) x.0)
          (length (where_available true r cs) == 0
            || (is_empty (selection (device_group_name device slot) r.selections)
                && r.selections_unavailable)
            || not (
                target_available (some r) (
                  effective_selection (selection (device_group_name device slot) r.selections) cs)))
          _ _ (λ _. tt)
          (λ kept. to_front-All (IsAvailable (some r)) _ [] _ (ground (arith, kept)) tt available))
