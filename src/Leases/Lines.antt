-- ===== src/Leases/Lines.antt =====
-- Splitting into lines and joining them.
use opensurge_fnos.Base.{All, List, [], arith, if_holds, refl, ℕ, ◌++◌, ◌==◌, ◌∷◌, ◌≡◌, ◌≢◌}
use opensurge_fnos.Leases.Reconcile.{join_lines, onto_first, split_lines, trim_newline}
use opensurge_fnos.Text.{Text}

unfoldable pub IsLine : Text → Type 0
IsLine l = All (λ c. c ≢ 10) l

pub trim_newline-nil : trim_newline [] ≡ []
unfolding trim_newline
trim_newline-nil = refl

pub trim_newline-++ : (s : Text) → trim_newline (s ++ (10 ∷ [])) ≡ s
unfolding trim_newline
trim_newline-++ [] = refl
trim_newline-++ (c ∷ []) = refl
trim_newline-++ (c ∷ d ∷ s) = cc (trim_newline-++ (d ∷ s))

onto_first-lines : (c : ℕ) (ls : List Text) → c ≢ 10 → All IsLine ls → All IsLine (onto_first c ls)
unfolding onto_first IsLine
onto_first-lines c [] new h = ((new, tt), tt)
onto_first-lines c (l ∷ ls) new h = ((new, h.0), h.1)

pub split_lines-All : (s : Text) → All IsLine (split_lines s)
unfolding split_lines IsLine
split_lines-All [] = (tt, tt)
split_lines-All (c ∷ s) =
    let rest = split_lines-All s in
    if_holds (All IsLine) (c == 10) _ _ (λ _. (tt, rest))
      (λ other. onto_first-lines c (split_lines s) (λ same. ground (arith, other, same)) rest)

-- A line in front of a newline is split off.
split_lines-line : (l s : Text) → IsLine l → split_lines (l ++ (10 ∷ s)) ≡ l ∷ split_lines s
unfolding split_lines IsLine onto_first
split_lines-line [] s h = refl
split_lines-line (c ∷ l) s h =
    if_holds (λ ls. ls ≡ (c ∷ l) ∷ split_lines s) (c == 10) _ _
      (λ same. absurd (h.0 (ground (arith, same)))) (λ _. cc (split_lines-line l s h.1))

split_lines-last : (l : Text) → IsLine l → split_lines l ≡ l ∷ []
unfolding split_lines IsLine onto_first
split_lines-last [] h = refl
split_lines-last (c ∷ l) h =
    if_holds (λ ls. ls ≡ (c ∷ l) ∷ []) (c == 10) _ _ (λ same. absurd (h.0 (ground (arith, same))))
      (λ _. cc (split_lines-last l h.1))

pub split-join :
    (l : Text) (ls : List Text) → All IsLine (l ∷ ls) → split_lines (join_lines (l ∷ ls)) ≡ l ∷ ls
unfolding join_lines
split-join l [] h = split_lines-last l h.0
split-join l (m ∷ ls) h = cc (split_lines-line l (join_lines (m ∷ ls)) h.0, split-join m ls h.1)
