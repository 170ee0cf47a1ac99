-- ===== src/Traffic/Egress.antt =====
-- connectionEgress and primaryEgress. The bytes and connections of an outlet are counts; the map
-- from the outlets is the list of its entries in the order of the iteration.
use opensurge_fnos.Base.{
  Bool, List, [], false, if◌then◌else◌, ltb, true, ℕ, ◌&&◌, ◌++◌, ◌==◌, ◌||◌, ◌∷◌,
}
use opensurge_fnos.Text.{Text, is_empty, trim_space}

pub record Usage : Type 0 where
  pub egress : Text
  pub connections : ℕ
  pub bytes : ℕ

-- Go's order of strings.
unfoldable pub text_ltb : Text → Text → Bool
text_ltb s [] = false
text_ltb [] (b ∷ t) = true
text_ltb (a ∷ s) (b ∷ t) = ltb a b || (a == b && text_ltb s t)

-- The condition under which an entry replaces the best one.
unfoldable pub beats : Usage → Usage → Bool
unfolding text_ltb
beats u best =
    ltb best.bytes u.bytes
    || (u.bytes == best.bytes && ltb best.connections u.connections)
    || (u.bytes == best.bytes && u.connections == best.connections && text_ltb u.egress best.egress)

unfoldable pub pick : Usage → Usage → Usage
unfolding beats
pick best u = if is_empty best.egress || beats u best then u else best

unfoldable pub pick_all : Usage → List Usage → Usage
unfolding pick
pick_all best [] = best
pick_all best (u ∷ us) = pick_all (pick best u) us

unfoldable pub primary_egress : List Usage → Text
unfolding pick_all
primary_egress us = (pick_all (record { egress = []; connections = 0; bytes = 0 }) us).egress

trimmed : List Text → List Text
unfolding trim_space
trimmed [] = []
trimmed (c ∷ cs) =
    let rest = trimmed cs in if is_empty (trim_space c) then rest else trim_space c ∷ rest

-- " → " in UTF-8.
arrow : Text
arrow = 32 ∷ 226 ∷ 134 ∷ 146 ∷ 32 ∷ []

joined_parts : List Text → Text
unfolding arrow
joined_parts [] = []
joined_parts (p ∷ []) = p
joined_parts (p ∷ q ∷ ps) = p ++ (arrow ++ joined_parts (q ∷ ps))

unfoldable pub connection_egress : List Text → Text
unfolding trimmed joined_parts
connection_egress chains = joined_parts (trimmed chains)
