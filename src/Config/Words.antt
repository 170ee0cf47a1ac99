-- ===== src/Config/Words.antt =====
-- The tests on single settings. A loop over runes is one over bytes: the bytes of a rune that is
-- not ASCII are all above 127.
use opensurge_fnos.Base.{
  Bool, Option, [], all, false, if◌then◌else◌, is_some, leb, ltb, none, not, some, ℕ, ◌&&◌, ◌==◌,
  ◌||◌, ◌∷◌,
}
use opensurge_fnos.Config.Types.{Outside, must, ◌&?◌}
use opensurge_fnos.Device.Policy.{negsuc, pos, ℤ}
use opensurge_fnos.Lists.{length}
use opensurge_fnos.Text.{Text, contains, is_empty, text, text_eq, trim_space}

unfoldable pub is_blank : Text → Bool
unfolding trim_space
is_blank s = is_empty (trim_space s)

unfoldable pub has_control_char : Text → Bool
has_control_char [] = false
has_control_char (c ∷ s) = ltb c 32 || c == 127 || has_control_char s

unfoldable is_one_of : ℕ → Text → Bool
is_one_of c [] = false
is_one_of c (d ∷ chars) = c == d || is_one_of c chars

-- strings.ContainsAny.
unfoldable pub contains_any : Text → Text → Bool
unfolding is_one_of
contains_any [] chars = false
contains_any (c ∷ s) chars = is_one_of c chars || contains_any s chars

unfoldable pub valid_rule_token : Text → Bool
unfolding trim_space text_eq contains_any has_control_char
valid_rule_token s =
    text_eq (trim_space s) s
    && not (is_empty s)
    && not (contains_any s (44 ∷ 9 ∷ 10 ∷ 13 ∷ 32 ∷ []))
    && not (has_control_char s)

unfoldable pub valid_domain_rule : Text → Bool
unfolding valid_rule_token contains_any
valid_domain_rule s = valid_rule_token s && not (contains_any s (text "/:"))

unfoldable first_is : ℕ → Text → Bool
first_is c [] = false
first_is c (d ∷ s) = c == d

unfoldable last_is : ℕ → Text → Bool
last_is c [] = false
last_is c (d ∷ []) = c == d
last_is c (d ∷ e ∷ s) = last_is c (e ∷ s)

unfoldable pub valid_dns_label : Text → Bool
unfolding first_is last_is
valid_dns_label s =
    not (is_empty s)
    && leb (length s) 63
    && not (first_is 45 s)
    && not (last_is 45 s)
    && all (λ c. (leb 97 c && leb c 122) || (leb 48 c && leb c 57) || c == 45) s

unfoldable pub valid_sha256_digest : Text → Bool
valid_sha256_digest s =
    length s == 64 && all (λ c. (leb 48 c && leb c 57) || (leb 97 c && leb c 102)) s

unfoldable pub valid_port : ℤ → Bool
valid_port (pos n) = ltb 0 n && leb n 65535
valid_port (negsuc n) = false

unfoldable pub valid_optional_port : ℤ → Bool
valid_optional_port (pos n) = leb n 65535
valid_optional_port (negsuc n) = false

unfoldable pub is_zero : ℤ → Bool
is_zero (pos n) = n == 0
is_zero (negsuc n) = false

-- strings.Cut at "#": the part before, and the part after where there is one.
unfoldable pub cut_hash : Text → Text × Option Text
cut_hash [] = ([], none)
cut_hash (c ∷ s) =
    let (before, after) = cut_hash s in if c == 35 then ([], some s) else (c ∷ before, after)

unfoldable valid_number : Option ℤ → Bool
unfolding valid_port
valid_number none = false
valid_number (some n) = valid_port n

unfoldable port_checked : Outside → Option Text → Option Text
unfolding contains valid_number
port_checked o none = none
port_checked o (some t) =
    if contains t (text "#")
    then some (text "dns.upstream")
    else must (valid_number (o.atoi t)) "dns.upstream port"

unfoldable pub validate_dns_upstream : Outside → Text → Option Text
unfolding trim_space cut_hash port_checked
validate_dns_upstream o value =
    let (host, port) = cut_hash (trim_space value) in
    if is_empty (trim_space value)
    then none
    else must (is_some (o.net.ipv4_of host)) "dns.upstream" &? port_checked o port
