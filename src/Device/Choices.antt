-- ===== src/Device/Choices.antt =====
-- A selector that loses candidates keeps the selection that is in use.
use mathlib.Core.List.{Perm, append_assoc, perm_middle}
use mathlib.Core.List.Perm
use opensurge_fnos.Base.{
  Bool, Bool-cases, List, Option, [], arith, false, if_holds, inl, inr, none, not, refl, some,
  subst, true, ◌&&◌, ◌++◌, ◌<◌, ◌==◌, ◌||◌, ◌∷◌, ◌≡◌, ◌⊎◌,
}
use opensurge_fnos.Device.Policy.{has}
use opensurge_fnos.Device.Resolution.{
  Adjustment, Resolution, device_group_name, effective_selection, filter_candidates, filtered,
  resolve_selector, selection, skipped, target_available, to_front, where_available,
}
use opensurge_fnos.Lists.{length}
use opensurge_fnos.Text.{Text, is_empty, text_eq, text_eq_refl, text_eq_sound}

FrontIs : Text → List Text → List Text → Type 0
FrontIs s ys all_of = (rest : List Text) × (ys ≡ s ∷ rest) × Perm ys all_of

to_front-FrontIs :
    (s : Text) (before xs : List Text)
    → has s xs ≡ true
    → FrontIs s (to_front s before xs) (before ++ xs)
unfolding to_front FrontIs has
to_front-FrontIs s before [] h = absurd cc
to_front-FrontIs s before (x ∷ xs) h =
    let later = to_front-FrontIs s (before ++ (x ∷ [])) xs in
    if_holds (λ ys. FrontIs s ys (before ++ (x ∷ xs))) (text_eq s x) _ _
      (λ e. (
        before ++ xs,
        refl,
        subst (λ z. Perm (s ∷ (before ++ xs)) (before ++ (z ∷ xs))) (text_eq_sound s x e)
            (Perm.symm (perm_middle before xs)),
      ))
      (λ other.
        subst (FrontIs s (to_front s (before ++ (x ∷ [])) xs)) (append_assoc before (x ∷ []) xs)
          (later (ground (arith, h, other))))

-- An available text stays among the available ones.
has-where_available :
    (r : Resolution) (s : Text) (cs : List Text)
    → has s cs ≡ true
    → target_available (some r) s ≡ true
    → has s (where_available true r cs) ≡ true
unfolding where_available has
has-where_available r s [] h available = h
has-where_available r s (c ∷ cs) h available =
    let later = λ (known : has s cs ≡ true). has-where_available r s cs known available in
    if_holds (λ ys. has s ys ≡ true) (target_available (some r) c) _ _
      (λ _. by_head (text_eq s c) _ _ h later) (λ gone. later (in_tail (text_eq s c) refl gone h))
  where
    by_head :
        (b before after : Bool)
        → (b || before) ≡ true
        → (before ≡ true → after ≡ true)
        → (b || after) ≡ true
    by_head b before after h later = ground (arith, h, later)

    in_tail :
        (b : Bool)
        → text_eq s c ≡ b
        → target_available (some r) c ≡ false
        → (b || has s cs) ≡ true
        → has s cs ≡ true
    in_tail true e gone h = absurd (
        cc (
          gone,
          available,
          subst (λ z. target_available (some r) z ≡ true) (text_eq_sound s c e) available,
        ))
    in_tail false e gone h = h

has-effective_selection :
    (s : Text) (cs : List Text) → 0 < length cs → has (effective_selection s cs) cs ≡ true
unfolding effective_selection has
has-effective_selection s [] h = absurd (omega arith)
has-effective_selection s (c ∷ cs) h =
    if_holds (λ t. has t (c ∷ cs) ≡ true) (has s (c ∷ cs)) _ _ (λ e. e) (λ _. cc (text_eq_refl c))

effective_selection_known :
    (s : Text) (cs : List Text) → has s cs ≡ true → effective_selection s cs ≡ s
unfolding effective_selection has
effective_selection_known s [] h = absurd cc
effective_selection_known s (c ∷ cs) h =
    if_holds (λ t. t ≡ s) (has s (c ∷ cs)) _ _ (λ _. refl) (λ e. ground (arith, h, e))

kept_selection :
    (s : Text) (cs : List Text)
    → (has s cs ≡ true) ⊎ (has s cs ≡ false)
    → (has s cs ≡ false) ⊎ (effective_selection s cs ≡ s)
kept_selection s cs (inl known) = inr (effective_selection_known s cs known)
kept_selection s cs (inr gone) = inl gone

available_candidates :
    (r : Resolution) (cs : List Text)
    → (length (where_available true r cs) == 0) ≡ false
    → 0 < length cs
unfolding where_available
available_candidates r [] h = absurd cc
available_candidates r (c ∷ cs) h = omega arith

skip_cases :
    (xs : List Text) (chosen : Text) (unread usable : Bool)
    → (length xs == 0 || (is_empty chosen && unread) || not usable) ≡ true
    → (xs ≡ []) ⊎ ((chosen ≡ []) × (unread ≡ true)) ⊎ (usable ≡ false)
skip_cases [] chosen unread usable h = inl refl
skip_cases (x ∷ xs) [] true usable h = inr (inl (refl, refl))
skip_cases (x ∷ xs) [] false usable h = inr (inr (ground (arith, h)))
skip_cases (x ∷ xs) (c ∷ cs) unread usable h = inr (inr (ground (arith, h)))

serve_cases :
    (xs : List Text) (chosen : Text) (unread usable : Bool)
    → (length xs == 0 || (is_empty chosen && unread) || not usable) ≡ false
    → (0 < length xs) × ((0 < length chosen) ⊎ (unread ≡ false)) × (usable ≡ true)
serve_cases [] chosen unread usable h = absurd cc
serve_cases (x ∷ xs) [] unread usable h = (omega arith, inr (ground (arith, h)), ground (arith, h))
serve_cases (x ∷ xs) (c ∷ cs) unread usable h = (omega arith, inl (omega arith), ground (arith, h))

some_length : {A : Type 0} (xs : List A) → (length xs == 0) ≡ false → 0 < length xs
some_length [] h = absurd cc
some_length (x ∷ xs) h = omega arith

no_length : {A : Type 0} (xs : List A) → (length xs == 0) ≡ true → xs ≡ []
no_length [] h = refl
no_length (x ∷ xs) h = absurd (ground arith)

module _ (r : Resolution) (device slot : Text) (cs : List Text) where
  abbrev pub chosen : Text
  chosen = selection (device_group_name device slot) r.selections

  abbrev pub missing : List Text
  missing = where_available false r cs

  abbrev pub available : List Text
  available = where_available true r cs

  -- No candidate is left, or the recorded selection cannot be read, or what is selected is missing.
  abbrev pub CannotServe : Type 0
  CannotServe =
      (available ≡ [])
      ⊎ ((chosen ≡ []) × (r.selections_unavailable ≡ true))
      ⊎ (target_available (some r) (effective_selection chosen cs) ≡ false)

  abbrev pub CanServe : Type 0
  CanServe =
      (0 < length available)
      × ((0 < length chosen) ⊎ (r.selections_unavailable ≡ false))
      × (target_available (some r) (effective_selection chosen cs) ≡ true)

  -- The adjustment `a` for missing targets, with what is left of the selector.
  pub record Adjusts (policies : List Text) (a : Adjustment) : Type 0 where
    pub names_missing : a.missing_targets ≡ missing
    pub of_slot : a.slot ≡ slot
    pub selected : a.selected ≡ effective_selection chosen cs
    pub known_selection : (has chosen cs ≡ false) ⊎ (a.selected ≡ chosen)
    pub outcome :
        (CannotServe × (a.effect ≡ skipped slot) × (policies ≡ []))
        ⊎ (CanServe
            × (a.effect ≡ filter_candidates)
            × ((rest : List Text) × (policies ≡ a.selected ∷ rest) × Perm policies available))

  unfoldable pub Keeps : List Text → Option Adjustment → Type 0
  Keeps policies none = (missing ≡ []) × (policies ≡ available)
  Keeps policies (some a) = (0 < length missing) × Adjusts policies a

  skipped_for :
      (length available == 0
          || (is_empty chosen && r.selections_unavailable)
          || not (target_available (some r) (effective_selection chosen cs)))
        ≡ true
      → CannotServe
  skipped_for h = skip_cases available chosen _ _ h

  served_for :
      (length available == 0
          || (is_empty chosen && r.selections_unavailable)
          || not (target_available (some r) (effective_selection chosen cs)))
        ≡ false
      → CanServe
  served_for h = serve_cases available chosen _ _ h

  -- A selector resolved against an inventory keeps its available candidates, in their order, and no
  -- adjustment is reported, just if none is missing. Where some are missing, the adjustment names
  -- them, the slot, and the selection: the recorded one, if that is a candidate. The slot is skipped,
  -- and has no candidates, where none is available, or the selected one is not, or the selections
  -- could not be read and none is recorded; elsewhere it has exactly the available candidates, the
  -- selected one first.
  pub resolved-Keeps :
      Keeps
        (resolve_selector (some r) device slot cs).0
        (resolve_selector (some r) device slot cs).1
  unfolding resolve_selector filtered Keeps FrontIs
  resolved-Keeps =
      if_holds (λ (x : List Text × Option Adjustment). Keeps x.0 x.1) (length missing == 0) _ _
        (λ e. (no_length missing e, refl))
        (λ some_missing.
          if_holds (λ (x : List Text × Option Adjustment). Keeps x.0 x.1)
            (length available == 0
              || (is_empty chosen && r.selections_unavailable)
              || not (target_available (some r) (effective_selection chosen cs)))
            _ _
            (λ gone. (
              some_length missing some_missing,
              record {
                names_missing = refl;
                of_slot = refl;
                selected = refl;
                known_selection = kept_selection chosen cs (Bool-cases (has chosen cs));
                outcome = inl (skipped_for gone, refl, refl);
              },
            ))
            (λ kept.
              let front = to_front-FrontIs (effective_selection chosen cs) [] available (
                has-where_available r (effective_selection chosen cs) cs
                  (has-effective_selection chosen cs
                    (available_candidates r cs (ground (arith, kept))))
                  (ground (arith, kept))) in
              (
                some_length missing some_missing,
                record {
                  names_missing = refl;
                  of_slot = refl;
                  selected = refl;
                  known_selection = kept_selection chosen cs (Bool-cases (has chosen cs));
                  outcome = inr (served_for kept, refl, front);
                },
              )))
