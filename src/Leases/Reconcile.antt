-- ===== src/Leases/Reconcile.antt =====
-- ReconcilePolicyLeases. Reading and replacing the file are input and output: what was read comes
-- in, and what is written is the result. net.ParseMAC, which accepts and prints an address, is the
-- parameter `parse_mac`.
use opensurge_fnos.Base.{
  Bool, List, Option, [], false, if◌then◌else◌, is_some, none, not, some, ℕ, ◌++◌, ◌==◌, ◌||◌, ◌∷◌,
}
use opensurge_fnos.Device.Compiled.{Reservation}
use opensurge_fnos.Lists.{length}
use opensurge_fnos.Text.{Text, is_empty, is_space, text_eq, to_lower}

pub data Reading : Type 0 where
  missing unreadable : Reading
  content : Text → Reading

pub data Outcome : Type 0 where
  unchanged failed : Outcome
  replaced : Text → Outcome

-- strings.TrimSuffix of a newline.
unfoldable pub trim_newline : Text → Text
trim_newline [] = []
trim_newline (c ∷ []) = if c == 10 then [] else c ∷ []
trim_newline (c ∷ d ∷ s) = c ∷ trim_newline (d ∷ s)

unfoldable pub onto_first : ℕ → List Text → List Text
onto_first c [] = (c ∷ []) ∷ []
onto_first c (l ∷ ls) = (c ∷ l) ∷ ls

-- strings.Split at the newlines.
unfoldable pub split_lines : Text → List Text
unfolding onto_first
split_lines [] = [] ∷ []
split_lines (c ∷ s) = let rest = split_lines s in if c == 10 then [] ∷ rest else onto_first c rest

-- strings.Join with newlines.
unfoldable pub join_lines : List Text → Text
join_lines [] = []
join_lines (l ∷ []) = l
join_lines (l ∷ m ∷ ls) = l ++ (10 ∷ join_lines (m ∷ ls))

with_word : Text → List Text → List Text
with_word [] ws = ws
with_word (c ∷ w) ws = (c ∷ w) ∷ ws

-- strings.Fields, with a word begun.
fields_from : Text → Text → List Text
unfolding with_word is_space
fields_from w [] = with_word w []
fields_from w (c ∷ s) =
    let ended = fields_from [] s in
    let going_on = fields_from (w ++ (c ∷ [])) s in
    if is_space c then with_word w ended else going_on

unfoldable pub fields : Text → List Text
unfolding fields_from
fields s = fields_from [] s

-- The map of the expected addresses: a later reservation of a MAC replaces an earlier one.
unfoldable pub expected : List Reservation → Text → Option Text
unfolding text_eq to_lower
expected [] mac = none
expected (r ∷ rs) mac =
    let later = expected rs mac in
    if is_some later then later else if text_eq (to_lower r.mac) mac then some r.ipv4 else none

unfoldable pub differs : Text → Option Text → Bool
unfolding text_eq
differs address none = false
differs address (some want) = not (text_eq address want)

module _ (parse_mac : Text → Option Text) (rs : List Reservation) where
  unfoldable pub stale_row : Option Text → Text → Bool
  unfolding expected differs to_lower
  stale_row none address = false
  stale_row (some mac) address = differs address (expected rs (to_lower mac))

  unfoldable pub stale_fields : List Text → Bool
  unfolding stale_row
  stale_fields (a ∷ mac ∷ address ∷ more) = stale_row (parse_mac mac) address
  stale_fields _ = false

  -- A lease of a reserved MAC at another address.
  unfoldable pub is_stale : Text → Bool
  unfolding stale_fields fields
  is_stale line = stale_fields (fields line)

  unfoldable pub kept_lines : List Text → List Text
  unfolding is_stale
  kept_lines [] = []
  kept_lines (l ∷ ls) = let rest = kept_lines ls in if is_stale l then rest else l ∷ rest

  unfoldable pub any_stale : List Text → Bool
  unfolding is_stale
  any_stale [] = false
  any_stale (l ∷ ls) = is_stale l || any_stale ls

  unfoldable pub file_of : List Text → Text
  unfolding join_lines
  file_of ls = let result = join_lines ls in if is_empty result then [] else result ++ (10 ∷ [])

  unfoldable pub reconcile_content : Text → Outcome
  unfolding split_lines trim_newline any_stale kept_lines file_of
  reconcile_content s =
      let ls = split_lines (trim_newline s) in
      if any_stale ls then replaced (file_of (kept_lines ls)) else unchanged

  unfoldable pub reconcile_policy_leases : Reading → Outcome
  unfolding reconcile_content
  reconcile_policy_leases reading = if length rs == 0 then unchanged else elim reading [
    | missing ↦ unchanged
    | unreadable ↦ failed
    | content s ↦ reconcile_content s
  ]
