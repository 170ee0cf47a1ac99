-- ===== src/Traffic/Primary.antt =====
-- The outlet that is shown does not hang on the order of a map's iteration.
use opensurge_fnos.Base.{
  All, List, [], false, if_holds, if◌then◌else◌, inl, inr, refl, subst, sym, ◌∙◌, ◌∷◌, ◌≡◌, ◌⊎◌,
}
use opensurge_fnos.Text.{Text, is_empty}
use opensurge_fnos.Traffic.Egress.{Usage, beats, pick, pick_all, primary_egress}
use opensurge_fnos.Traffic.Order.{beats_cotrans, beats_irrefl, beats_overtaken, beats_total}

unfoldable pub Listed : Usage → List Usage → Type 0
Listed w [] = ⊥
Listed w (u ∷ us) = (w ≡ u) ⊎ Listed w us

Listed-All : (P : Usage → Type 0) (w : Usage) (us : List Usage) → Listed w us → All P us → P w
unfolding Listed
Listed-All P w [] l h = absurd l
Listed-All P w (u ∷ us) (inl e) h = subst P (sym e) h.0
Listed-All P w (u ∷ us) (inr l) h = Listed-All P w us l h.1

-- Every outlet has a name, as connectionEgress has it.
unfoldable pub IsNamed : List Usage → Type 0
IsNamed us = All (λ u. is_empty u.egress ≡ false) us

record IsBest (w best : Usage) (us : List Usage) : Type 0 where
  of_them : Listed w (best ∷ us)
  over_best : beats best w ≡ false
  over_all : All (λ u. beats u w ≡ false) us

pick_named :
    (best u : Usage)
    → is_empty best.egress ≡ false
    → pick best u ≡ (if beats u best then u else best)
unfolding pick
pick_named best u named = cc named

pick_all-IsBest :
    (best : Usage) (us : List Usage)
    → is_empty best.egress ≡ false
    → IsNamed us
    → IsBest (pick_all best us) best us
unfolding pick_all IsNamed Listed
pick_all-IsBest best [] named h = record {
  of_them = inl refl;
  over_best = beats_irrefl best;
  over_all = tt;
}
pick_all-IsBest best (u ∷ us) named h =
    let taken = pick_all-IsBest u us h.0 h.1 in
    let kept = pick_all-IsBest best us named h.1 in
    subst (λ b. IsBest (pick_all b us) best (u ∷ us)) (sym (pick_named best u named))
      (if_holds (λ b. IsBest (pick_all b us) best (u ∷ us)) (beats u best) _ _
        (λ better. record {
          of_them = inr taken.of_them;
          over_best = beats_overtaken best u (pick_all u us) better taken.over_best;
          over_all = (taken.over_best, taken.over_all);
        })
        (λ worse. record {
          of_them = past u kept.of_them;
          over_best = kept.over_best;
          over_all = (beats_cotrans u best (pick_all best us) worse kept.over_best, kept.over_all);
        }))
  where
    past : {w : Usage} (u : Usage) → (w ≡ best) ⊎ Listed w us → (w ≡ best) ⊎ ((w ≡ u) ⊎ Listed w us)
    past u (inl e) = inl e
    past u (inr l) = inr (inr l)

-- The outlet shown is one of the entries, and no entry beats it.
record IsPrimary (name : Text) (us : List Usage) : Type 0 where
  entry : Usage
  shown : name ≡ entry.egress
  listed : Listed entry us
  unbeaten : All (λ u. beats u entry ≡ false) us

primary_egress-IsPrimary :
    (u : Usage) (us : List Usage) → IsNamed (u ∷ us) → IsPrimary (primary_egress (u ∷ us)) (u ∷ us)
unfolding primary_egress pick_all pick IsNamed
primary_egress-IsPrimary u us h =
    let best = pick_all-IsBest u us h.0 h.1 in
    record {
      entry = pick_all u us;
      shown = refl;
      listed = best.of_them;
      unbeaten = (best.over_best, best.over_all);
    }

-- The primary outlet of a map is the same in whatever order its entries come: two lists of named
-- entries, each with the entries of the other, have one primary outlet.
pub primary_egress_lem :
    (us vs : List Usage)
    → IsNamed us
    → IsNamed vs
    → ((w : Usage) → Listed w us → Listed w vs)
    → ((w : Usage) → Listed w vs → Listed w us)
    → primary_egress us ≡ primary_egress vs
unfolding Listed
primary_egress_lem [] [] hu hv there back = refl
primary_egress_lem [] (v ∷ vs) hu hv there back = absurd (back v (inl refl))
primary_egress_lem (u ∷ us) [] hu hv there back = absurd (there u (inl refl))
primary_egress_lem (u ∷ us) (v ∷ vs) hu hv there back =
    let a = primary_egress-IsPrimary u us hu in
    let b = primary_egress-IsPrimary v vs hv in
    let one =
      Listed-All (λ x. beats x b.entry ≡ false) a.entry (v ∷ vs) (there a.entry a.listed)
        b.unbeaten in
    let other =
      Listed-All (λ x. beats x a.entry ≡ false) b.entry (u ∷ us) (back b.entry b.listed)
        a.unbeaten in
    a.shown ∙ beats_total a.entry b.entry one other ∙ sym b.shown
