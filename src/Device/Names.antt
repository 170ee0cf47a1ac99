-- ===== src/Device/Names.antt =====
-- The checks of single values in internal/device/policy.go: validID, validPolicy, validDomain,
-- validPortRange, validateDeviceName, validateUnsupported and validatePolicyList.
use opensurge_fnos.Base.{
  Bool, List, Option, [], all, false, if◌then◌else◌, is_some, leb, ltb, none, not, some, suc, true,
  ℕ, ◌&&◌, ◌*◌, ◌++◌, ◌+◌, ◌-◌, ◌==◌, ◌||◌, ◌∷◌,
}
use opensurge_fnos.Device.Policy.{
  PolicyErr, bad_name, bad_unsupported, duplicate_policy, empty_policies, has, invalid_policy,
  require, ◌>>?◌,
}
use opensurge_fnos.Text.{Text, is_empty, text, text_eq, trim_space}

is_id_char : ℕ → Bool
is_id_char c =
    (leb 65 c && leb c 90)
    || (leb 97 c && leb c 122)
    || (leb 48 c && leb c 57)
    || c == 95
    || c == 45

-- ^[A-Za-z0-9_-]+$
unfoldable pub valid_id : Text → Bool
unfolding is_id_char
valid_id s = not (is_empty s) && all is_id_char s

-- strings.ContainsAny
contains_any : Text → Text → Bool
contains_any chars [] = false
contains_any chars (c ∷ s) = not (all (λ x. not (x == c)) chars) || contains_any chars s

-- A comma, a tab, a carriage return or a line feed would break the rule that the name is put in.
abbrev separators : Text
separators = 44 ∷ 9 ∷ 13 ∷ 10 ∷ []

unfoldable pub valid_policy : Text → Bool
unfolding contains_any text_eq trim_space
valid_policy s = not (is_empty s) && text_eq (trim_space s) s && not (contains_any separators s)

-- Nor a slash, a colon or a space.
unfoldable pub valid_domain : Text → Bool
unfolding contains_any text_eq trim_space
valid_domain s =
    not (is_empty s)
    && text_eq (trim_space s) s
    && not (contains_any (separators ++ (47 ∷ 58 ∷ 32 ∷ [])) s)

-- The part before the first hyphen, and what follows it.
cut : Text → Text × Option Text
cut [] = ([], none)
cut (c ∷ s) = let (first, rest) = cut s in if c == 45 then ([], some s) else (c ∷ first, rest)

digits : ℕ → Text → Option ℕ
digits n [] = some n
digits n (c ∷ s) = if leb 48 c && leb c 57 then digits (n * 10 + (c - 48)) s else none

-- strconv.Atoi of a part without a hyphen.
atoi : Text → Option ℕ
unfolding digits
atoi [] = none
atoi (c ∷ []) = digits 0 (c ∷ [])
atoi (c ∷ d ∷ s) = if c == 43 then digits 0 (d ∷ s) else digits 0 (c ∷ d ∷ s)

-- The number of the part, if it is one from `low` to 65535.
port_from : ℕ → Option ℕ → Option ℕ
port_from low none = none
port_from low (some n) = if leb low n && leb n 65535 then some n else none

last_part : ℕ → Text × Option Text → Bool
unfolding port_from atoi
last_part first (last, none) = is_some (port_from first (atoi last))
last_part first (last, some _) = false

port_range : Option ℕ → Option Text → Bool
unfolding last_part cut
port_range none rest = false
port_range (some first) none = true
port_range (some first) (some rest) = last_part first (cut rest)

unfoldable pub valid_port_range : Text → Bool
unfolding port_range port_from atoi cut
valid_port_range s = let (first, rest) = cut s in port_range (port_from 1 (atoi first)) rest

-- utf8.RuneCountInString: every byte but the continuation bytes starts a rune.
rune_count : Text → ℕ
rune_count [] = 0
rune_count (c ∷ s) = if leb 128 c && leb c 191 then rune_count s else suc (rune_count s)

-- unicode.IsControl: U+0000 to U+001F, and U+007F to U+009F.
has_control : Text → Bool
has_control [] = false
has_control (c ∷ []) = ltb c 32 || c == 127
has_control (c ∷ d ∷ s) =
    ltb c 32 || c == 127 || (c == 194 && leb 128 d && leb d 159) || has_control (d ∷ s)

unfoldable pub validate_device_name : Text → Option PolicyErr
unfolding text_eq trim_space rune_count has_control
validate_device_name [] = none
validate_device_name name =
    require (text_eq (trim_space name) name) (bad_name name)
    >>? require (leb (rune_count name) 80) (bad_name name)
    >>? require (not (has_control name)) (bad_name name)

unfoldable pub validate_unsupported : Text → Option PolicyErr
unfolding text_eq
validate_unsupported s =
    require (is_empty s || text_eq s (text "reject") || text_eq s (text "fallthrough"))
      bad_unsupported

each_policy : List Text → List Text → Option PolicyErr
unfolding valid_policy
each_policy seen [] = none
each_policy seen (p ∷ ps) =
    let rest = each_policy (p ∷ seen) ps in
    require (valid_policy p) (invalid_policy p)
    >>? require (not (has p seen)) (duplicate_policy p)
    >>? rest

unfoldable pub validate_policy_list : List Text → Option PolicyErr
unfolding each_policy
validate_policy_list [] = some empty_policies
validate_policy_list ps = each_policy [] ps

unfoldable pub effective_gateway_target : Text → Text
effective_gateway_target [] = text "opensurge"
effective_gateway_target t = t

unfoldable pub effective_egress_mode : Text → Text
effective_egress_mode [] = text "legacy_fallback"
effective_egress_mode m = m
