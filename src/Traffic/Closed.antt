-- ===== src/Traffic/Closed.antt =====
-- The IDs that a refresh closes.
use opensurge_fnos.Base.{
  Bool, List, [], ap, arith, false, if_holds, not, refl, true, ◌&&◌, ◌||◌, ◌∙◌, ◌∷◌, ◌≡◌,
}
use opensurge_fnos.Device.Policy.{has}
use opensurge_fnos.Text.{Text, is_empty, text_eq, text_eq_refl, text_eq_sound, trim_space}
use opensurge_fnos.Traffic.Connections.{
  Connection, any_wanted, distinct, is_wanted, matching_connection_ids, matching_ids,
}

same_has : (s t : Text) (ts : List Text) → text_eq s t ≡ true → has s ts ≡ has t ts
same_has s t ts e = ap (λ x. has x ts) (text_eq_sound s t e)

unlike_empty : (s t : Text) → is_empty s ≡ false → is_empty t ≡ true → text_eq s t ≡ false
unfolding text_eq
unlike_empty [] t h g = absurd cc
unlike_empty (a ∷ s) [] h g = refl
unlike_empty (a ∷ s) (b ∷ t) h g = absurd cc

-- One connection, by its tests: `same` that it has the ID asked for, `listed` that this ID was
-- seen, and `rest` that a later connection is wanted for it.
skip_unwanted :
    (same matched listed rest : Bool)
    → (same && matched) ≡ false
    → (rest && not listed) ≡ (((same && matched) || rest) && not listed)
skip_unwanted same matched listed rest h = ground (arith, h)

skip_seen :
    (same matched listed rest : Bool)
    → (same ≡ true → listed ≡ true)
    → (rest && not listed) ≡ (((same && matched) || rest) && not listed)
skip_seen same matched listed rest h = ground (arith, h)

take_new :
    (same matched listed rest : Bool)
    → matched ≡ true
    → (same ≡ true → listed ≡ false)
    → (same || (rest && not (same || listed))) ≡ (((same && matched) || rest) && not listed)
take_new same matched listed rest m h = ground (arith, m, h)

module _ (matches : Connection → Bool) where
  has-matching_ids :
      (id : Text) (seen : List Text) (cs : List Connection)
      → is_empty id ≡ false
      → has id (matching_ids matches seen cs) ≡ (any_wanted matches id cs && not (has id seen))
  unfolding matching_ids any_wanted is_wanted has
  has-matching_ids id seen [] named = refl
  has-matching_ids id seen (c ∷ cs) named =
      let this = trim_space c.id in
      let same = text_eq id this in
      let rest = any_wanted matches id cs in
      let skipped = has-matching_ids id seen cs named in
      let taken = has-matching_ids id (this ∷ seen) cs named in
      if_holds (λ ids. has id ids ≡ (((same && matches c) || rest) && not (has id seen)))
        (is_empty this || not (matches c)) _ _
        (λ out.
          skipped
          ∙ skip_unwanted same (matches c) (has id seen) rest
              (unwanted same (matches c) (is_empty this) (unlike_empty id this named) out))
        (λ in_use.
          if_holds (λ ids. has id ids ≡ (((same && matches c) || rest) && not (has id seen)))
            (has this seen) _ _
            (λ known.
              skipped
              ∙ skip_seen same (matches c) (has id seen) rest
                  (λ e. same_has id this seen e ∙ known))
            (λ new.
              ap (λ b. same || b) taken
              ∙ take_new same (matches c) (has id seen) rest (ground (arith, in_use))
                  (λ e. same_has id this seen e ∙ new)))
    where
      unwanted :
          (same matched blank : Bool)
          → (blank ≡ true → same ≡ false)
          → (blank || not matched) ≡ true
          → (same && matched) ≡ false
      unwanted same matched blank h out = ground (arith, h, out)

  distinct-matching_ids :
      (seen : List Text) (cs : List Connection) → distinct (matching_ids matches seen cs) ≡ true
  unfolding matching_ids distinct has
  distinct-matching_ids seen [] = refl
  distinct-matching_ids seen (c ∷ cs) =
      let this = trim_space c.id in
      let skipped = distinct-matching_ids seen cs in
      let taken = distinct-matching_ids (this ∷ seen) cs in
      if_holds (λ ids. distinct ids ≡ true) (is_empty this || not (matches c)) _ _ (λ _. skipped)
        (λ in_use.
          if_holds (λ ids. distinct ids ≡ true) (has this seen) _ _ (λ _. skipped)
            (λ _. both (gone this (not_blank in_use)) taken))
    where
      not_blank :
          (is_empty (trim_space c.id) || not (matches c)) ≡ false
          → is_empty (trim_space c.id) ≡ false
      not_blank h = ground (arith, h)

      gone :
          (this : Text)
          → is_empty this ≡ false
          → has this (matching_ids matches (this ∷ seen) cs) ≡ false
      gone this named =
          has-matching_ids this (this ∷ seen) cs named ∙ ground (arith, text_eq_refl this)

      both : {a b : Bool} → a ≡ false → b ≡ true → (not a && b) ≡ true
      both h g = ground (arith, h, g)

  no_blank :
      (seen : List Text) (cs : List Connection) → has [] (matching_ids matches seen cs) ≡ false
  unfolding matching_ids has
  no_blank seen [] = refl
  no_blank seen (c ∷ cs) =
      let this = trim_space c.id in
      let skipped = no_blank seen cs in
      let taken = no_blank (this ∷ seen) cs in
      if_holds (λ ids. has [] ids ≡ false) (is_empty this || not (matches c)) _ _ (λ _. skipped)
        (λ in_use.
          if_holds (λ ids. has [] ids ≡ false) (has this seen) _ _ (λ _. skipped)
            (λ _. neither (named this (ground (arith, in_use))) taken))
    where
      named : (this : Text) → is_empty this ≡ false → text_eq [] this ≡ false
      named [] h = absurd cc
      named (a ∷ t) h = unfold text_eq in refl

      neither : {a b : Bool} → a ≡ false → b ≡ false → (a || b) ≡ false
      neither h g = ground (arith, h, g)

  -- The IDs that are closed are distinct, and a text is one of them just if it is the trimmed ID,
  -- not empty, of a connection that matches.
  pub closed_ids :
      (cs : List Connection)
      → (distinct (matching_connection_ids matches cs) ≡ true)
        × ((id : Text)
            → has id (matching_connection_ids matches cs)
              ≡ (not (is_empty id) && any_wanted matches id cs))
  unfolding matching_connection_ids has
  closed_ids cs = (distinct-matching_ids [] cs, by_id)
    where
      always : (b : Bool) → (b && not false) ≡ (true && b)
      always true = refl
      always false = refl

      by_id :
          (id : Text)
          → has id (matching_ids matches [] cs) ≡ (not (is_empty id) && any_wanted matches id cs)
      by_id [] = no_blank [] cs
      by_id (a ∷ t) = has-matching_ids (a ∷ t) [] cs refl ∙ always (any_wanted matches (a ∷ t) cs)
