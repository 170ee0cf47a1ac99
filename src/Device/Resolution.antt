-- ===== src/Device/Resolution.antt =====
-- How a selector's candidates are resolved against the targets of one run (resolution.go). A map
-- of the source is the list of its entries, read from the first one with the key.
use opensurge_fnos.Base.{
  Bool, List, Option, [], false, if◌then◌else◌, none, not, some, true, ◌&&◌, ◌++◌, ◌==◌, ◌||◌, ◌∷◌,
}
use opensurge_fnos.Device.Policy.{has}
use opensurge_fnos.Lists.{length}
use opensurge_fnos.Text.{Text, is_empty, text, text_eq, to_upper}

pub record Resolution : Type 0 where
  pub available_targets : List Text
  pub selections : List (Text × Text)
  pub selections_unavailable : Bool

pub data Effect : Type 0 where
  inherit_global skip_rule filter_candidates : Effect

pub record Adjustment : Type 0 where
  pub slot : Text
  pub effect : Effect
  pub missing_targets : List Text
  pub selected : Text

unfoldable pub device_group_name : Text → Text → Text
device_group_name device slot = text "device/" ++ (device ++ (text "/" ++ slot))

-- The targets that every engine has, and that cannot fall through.
unfoldable pub is_builtin : Text → Bool
unfolding text_eq to_upper
is_builtin target =
    let t = to_upper target in
    text_eq t (text "DIRECT")
    || text_eq t (text "REJECT")
    || text_eq t (text "REJECT-DROP")
    || text_eq t (text "REJECT-TINYGIF")

unfoldable pub target_available : Option Resolution → Text → Bool
unfolding is_builtin
target_available none target = true
target_available (some r) target = is_builtin target || has target r.available_targets

-- The candidates of which the test says so, in their order.
unfoldable pub where_available : Bool → Resolution → List Text → List Text
unfolding target_available
where_available b r [] = []
where_available b r (c ∷ cs) =
    let rest = where_available b r cs in
    if target_available (some r) c
    then (if b then c ∷ rest else rest)
    else (if b then rest else c ∷ rest)

unfoldable pub selection : Text → List (Text × Text) → Text
unfolding text_eq
selection group [] = []
selection group ((g, s) ∷ rest) = if text_eq group g then s else selection group rest

-- A selection that is no candidate gives way to the first one.
unfoldable pub effective_selection : Text → List Text → Text
effective_selection s [] = s
effective_selection s (c ∷ cs) = if has s (c ∷ cs) then s else c

-- The list with the first occurrence moved to the front, where it has one.
unfoldable pub to_front : Text → List Text → List Text → List Text
unfolding text_eq
to_front s before [] = before
to_front s before (x ∷ xs) =
    let later = to_front s (before ++ (x ∷ [])) xs in
    if text_eq s x then s ∷ (before ++ xs) else later

unfoldable pub skipped : Text → Effect
unfolding text_eq
skipped slot = if text_eq slot (text "default") then inherit_global else skip_rule

-- With targets missing.
unfoldable pub filtered :
    Resolution → Text → Text → List Text → List Text → List Text → List Text × Option Adjustment
unfolding selection effective_selection to_front skipped device_group_name target_available
filtered r device slot candidates available missing =
    let chosen = selection (device_group_name device slot) r.selections in
    let unknown = is_empty chosen && r.selections_unavailable in
    let selected = effective_selection chosen candidates in
    if length available == 0 || unknown || not (target_available (some r) selected)
    then (
      [],
      some (record {
        slot = slot;
        effect = skipped slot;
        missing_targets = missing;
        selected = selected;
      }),
    )
    else (
      to_front selected [] available,
      some (record {
        slot = slot;
        effect = filter_candidates;
        missing_targets = missing;
        selected = selected;
      }),
    )

unfoldable pub resolve_selector :
    Option Resolution → Text → Text → List Text → List Text × Option Adjustment
unfolding filtered where_available
resolve_selector none device slot candidates = (candidates, none)
resolve_selector (some r) device slot candidates =
    let available = where_available true r candidates in
    let missing = where_available false r candidates in
    if length missing == 0
    then (available, none)
    else filtered r device slot candidates available missing
