-- ===== src/Packet/Neighbors.antt =====
-- The table never binds an address to a second MAC, whatever it observes.
use opensurge_fnos.Base.{
  Bool-cases, List, Option, arith, false, inl, inr, none, refl, some, true, ℕ, ◌≡◌,
}
use opensurge_fnos.Packet.Frames.{NeighborTable, find_mac, lookup, observe, observe_known}
use opensurge_fnos.Text.{text_eq, text_eq_refl, text_eq_sound}

kept_by_known :
    (t : NeighborTable) (ip jp mac m : List ℕ) (o : Option (List ℕ))
    → lookup t jp ≡ o
    → lookup t ip ≡ some m
    → lookup (observe_known t jp o mac).0 ip ≡ some m
unfolding observe_known lookup
kept_by_known t ip jp mac m none unknown known = elim (Bool-cases (text_eq jp ip)) [
  | inl same ↦ let e = text_eq_sound jp ip same in absurd (clash t ip jp m e unknown known)
  | inr other ↦ unfold find_mac in rw other known
]
  where
    clash :
        (t : NeighborTable) (ip jp m : List ℕ)
        → jp ≡ ip
        → lookup t jp ≡ none
        → lookup t ip ≡ some m
        → ⊥
    clash t ip jp m e unknown known = cc
kept_by_known t ip jp mac m (some current) unknown known = elim (Bool-cases (text_eq current mac)) [
  | inl same ↦ rw same known
  | inr other ↦ rw other known
]

-- What the table knows it keeps.
pub lookup-observe_kept :
    (t : NeighborTable) (ip jp mac m : List ℕ)
    → lookup t ip ≡ some m
    → lookup (observe t jp mac).0 ip ≡ some m
unfolding observe
lookup-observe_kept t ip jp mac m known = kept_by_known t ip jp mac m (lookup t jp) refl known

bound_by_known :
    (t : NeighborTable) (ip mac : List ℕ) (o : Option (List ℕ))
    → lookup t ip ≡ o
    → (observe_known t ip o mac).1 ≡ true
    → lookup (observe_known t ip o mac).0 ip ≡ some mac
unfolding observe_known lookup find_mac
bound_by_known t ip mac none unknown done = rw (text_eq_refl ip)
bound_by_known t ip mac (some current) known done = elim (Bool-cases (text_eq current mac)) [
  | inl same ↦ let e = text_eq_sound current mac same in rw same (rw (← e) known)
  | inr other ↦ absurd (clash other)
]
  where
    clash : text_eq current mac ≡ false → ⊥
    clash other = ground arith

-- An address that is accepted is bound to the MAC that it was seen with.
pub lookup-observe :
    (t : NeighborTable) (ip mac : List ℕ)
    → (observe t ip mac).1 ≡ true
    → lookup (observe t ip mac).0 ip ≡ some mac
unfolding observe
lookup-observe t ip mac done = bound_by_known t ip mac (lookup t ip) refl done
