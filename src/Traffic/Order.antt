-- ===== src/Traffic/Order.antt =====
-- The order of the outlets.
use opensurge_fnos.Base.{Bool, [], arith, false, refl, true, ◌∷◌, ◌≡◌}
use opensurge_fnos.Text.{Text}
use opensurge_fnos.Traffic.Egress.{Usage, beats, text_ltb}

text_ltb_trans : (s t u : Text) → text_ltb s t ≡ true → text_ltb t u ≡ true → text_ltb s u ≡ true
unfolding text_ltb
text_ltb_trans s t [] h g = absurd cc
text_ltb_trans s [] (c ∷ u) h g = absurd cc
text_ltb_trans [] (b ∷ t) (c ∷ u) h g = refl
text_ltb_trans (a ∷ s) (b ∷ t) (c ∷ u) h g =
    let later = text_ltb_trans s t u in ground (arith, h, g, later)

text_ltb_total : (s t : Text) → text_ltb s t ≡ false → text_ltb t s ≡ false → s ≡ t
unfolding text_ltb
text_ltb_total [] [] h g = refl
text_ltb_total [] (b ∷ t) h g = absurd cc
text_ltb_total (a ∷ s) [] h g = absurd cc
text_ltb_total (a ∷ s) (b ∷ t) h g =
    let rest : s ≡ t = text_ltb_total s t (ground (arith, h, g)) (ground (arith, h, g)) in
    let first : a ≡ b = ground (arith, h, g) in cc (rest, first)

pub beats_trans : (x y z : Usage) → beats x y ≡ true → beats y z ≡ true → beats x z ≡ true
unfolding beats
beats_trans x y z h g =
    let later = text_ltb_trans x.egress y.egress z.egress in ground (arith, h, g, later)

-- Of two entries neither of which beats the other, both have one name.
pub beats_total : (x y : Usage) → beats x y ≡ false → beats y x ≡ false → x.egress ≡ y.egress
unfolding beats
beats_total x y h g = text_ltb_total x.egress y.egress (ground (arith, h, g)) (ground (arith, h, g))

text_ltb_irrefl : (s : Text) → text_ltb s s ≡ false
unfolding text_ltb
text_ltb_irrefl [] = refl
text_ltb_irrefl (a ∷ s) = ground (arith, text_ltb_irrefl s)

pub beats_irrefl : (x : Usage) → beats x x ≡ false
unfolding beats
beats_irrefl x = ground (arith, text_ltb_irrefl x.egress)

text_ltb_cotrans :
    (s t u : Text) → text_ltb s t ≡ false → text_ltb t u ≡ false → text_ltb s u ≡ false
unfolding text_ltb
text_ltb_cotrans s t [] h g = refl
text_ltb_cotrans s [] (c ∷ u) h g = absurd cc
text_ltb_cotrans [] (b ∷ t) (c ∷ u) h g = absurd cc
text_ltb_cotrans (a ∷ s) (b ∷ t) (c ∷ u) h g =
    let later = text_ltb_cotrans s t u in ground (arith, h, g, later)

pub beats_cotrans : (x y z : Usage) → beats x y ≡ false → beats y z ≡ false → beats x z ≡ false
unfolding beats
beats_cotrans x y z h g =
    let later = text_ltb_cotrans x.egress y.egress z.egress in ground (arith, h, g, later)

-- What beats an entry is not beaten by what that entry leaves unbeaten.
pub beats_overtaken : (x y z : Usage) → beats y x ≡ true → beats y z ≡ false → beats x z ≡ false
beats_overtaken x y z h g = by_test (beats x z) refl
  where
    by_test : (b : Bool) → beats x z ≡ b → beats x z ≡ false
    by_test true e = absurd (cc (g, beats_trans y x z h e))
    by_test false e = e
