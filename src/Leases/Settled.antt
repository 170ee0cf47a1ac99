-- ===== src/Leases/Settled.antt =====
-- What a reconciliation leaves in the lease file.
use opensurge_fnos.Base.{
  All, Bool, List, Option, [], ap, false, if_holds, if◌then◌else◌, refl, subst, sym, true, ◌++◌,
  ◌∙◌, ◌∷◌, ◌≡◌,
}
use opensurge_fnos.Device.Compiled.{Reservation}
use opensurge_fnos.Leases.Lines.{
  IsLine, split-join, split_lines-All, trim_newline-++, trim_newline-nil,
}
use opensurge_fnos.Leases.Reconcile.{
  any_stale, fields, file_of, is_stale, join_lines, kept_lines, reconcile_content, replaced,
  split_lines, stale_fields, trim_newline, unchanged,
}
use opensurge_fnos.Text.{Text, is_empty}

module _ (parse_mac : Text → Option Text) (rs : List Reservation) where
  IsFresh : Text → Type 0
  IsFresh l = is_stale parse_mac rs l ≡ false

  kept_lines-All :
      (P : Text → Type 0) (ls : List Text) → All P ls → All P (kept_lines parse_mac rs ls)
  unfolding kept_lines
  kept_lines-All P [] h = tt
  kept_lines-All P (l ∷ ls) h =
      let rest = kept_lines-All P ls h.1 in
      if_holds (All P) (is_stale parse_mac rs l) _ _ (λ _. rest) (λ _. (h.0, rest))

  kept_lines-fresh : (ls : List Text) → any_stale parse_mac rs (kept_lines parse_mac rs ls) ≡ false
  unfolding kept_lines any_stale
  kept_lines-fresh [] = refl
  kept_lines-fresh (l ∷ ls) =
      let rest = kept_lines-fresh ls in
      if_holds (λ ks. any_stale parse_mac rs ks ≡ false) (is_stale parse_mac rs l) _ _ (λ _. rest)
        (λ fresh. cc (fresh, rest))

  -- The lines that a written file is read as again.
  unfoldable pub reread : List Text → List Text
  reread [] = [] ∷ []
  reread (l ∷ ls) = l ∷ ls

  file_of-reread :
      (ks : List Text)
      → All IsLine ks
      → split_lines (trim_newline (file_of parse_mac rs ks)) ≡ reread ks
  unfolding file_of reread
  file_of-reread [] h = unfold join_lines split_lines trim_newline in refl
  file_of-reread (l ∷ ls) h = by_result (join_lines (l ∷ ls)) refl
    where
      by_result :
          (s : Text)
          → join_lines (l ∷ ls) ≡ s
          → split_lines (trim_newline (if is_empty s then [] else s ++ (10 ∷ []))) ≡ l ∷ ls
      by_result [] e = ap split_lines (trim_newline-nil ∙ sym e) ∙ split-join l ls h
      by_result (c ∷ s) e = ap split_lines (trim_newline-++ (c ∷ s) ∙ sym e) ∙ split-join l ls h

  reread-fresh :
      (ks : List Text)
      → any_stale parse_mac rs ks ≡ false
      → any_stale parse_mac rs (reread ks) ≡ false
  unfolding reread
  reread-fresh [] h = unfold any_stale is_stale stale_fields fields in refl
  reread-fresh (l ∷ ls) h = h

  rewritten :
      (ls : List Text) (after : Text) (stale : Bool)
      → All IsLine ls
      → (if stale then replaced (file_of parse_mac rs (kept_lines parse_mac rs ls)) else unchanged)
        ≡ replaced after
      → split_lines (trim_newline after) ≡ reread (kept_lines parse_mac rs ls)
  rewritten ls after false h e = absurd cc
  rewritten ls after true h e =
      subst (λ s. split_lines (trim_newline s) ≡ reread (kept_lines parse_mac rs ls))
        (written _ _ e) (file_of-reread _ (kept_lines-All IsLine ls h))
    where
      written : (a b : Text) → replaced a ≡ replaced b → a ≡ b
      written a b e = cc

  -- A lease file that a reconciliation has written has the lines of before that are no stale
  -- lease, in their order, or is empty if there is none, and a further reconciliation leaves it
  -- unchanged.
  pub reconciled_content :
      (before after : Text)
      → reconcile_content parse_mac rs before ≡ replaced after
      → (split_lines (trim_newline after)
          ≡ reread (kept_lines parse_mac rs (split_lines (trim_newline before))))
        × (reconcile_content parse_mac rs after ≡ unchanged)
  unfolding reconcile_content
  reconciled_content before after h =
      let ls = split_lines (trim_newline before) in
      let same =
        rewritten ls after (any_stale parse_mac rs ls) (split_lines-All (trim_newline before)) h in
      (same, cc (same, reread-fresh (kept_lines parse_mac rs ls) (kept_lines-fresh ls)))
