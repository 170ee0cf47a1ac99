-- ===== src/Recovery/Incidents.antt =====
-- How an incident ends: with healthy samples, or with a failure that is not retried.
use opensurge_fnos.Base.{
  Bool, List, [], all, arith, false, none, not, refl, subst, true, ◌&&◌, ◌||◌, ◌∷◌, ◌≡◌,
}
use opensurge_fnos.Recovery.Controller.{
  Controller, failure, finish_automatic, finish_manual, is_failed, is_recovering, new_controller,
  observe_failure, observe_healthy, observe_unknown,
}
use opensurge_fnos.Recovery.Samples.{Verdict, failing, healthy, observe, unknown}

unfoldable pub observations : List Verdict → Controller → Controller
unfolding observe
observations [] c = c
observations (v ∷ vs) c = observations vs (observe v c).0

-- Whether one of the verdicts would have the engine restarted.
unfoldable pub any_asked : List Verdict → Controller → Bool
unfolding observe
any_asked [] c = false
any_asked (v ∷ vs) c = (observe v c).1 || any_asked vs (observe v c).0

-- Two healthy samples in a row, with no operation active, end every incident: the controller is
-- as a new one.
pub two_healthy_samples :
    (c : Controller)
    → c.operation_active ≡ false
    → observations (healthy ∷ healthy ∷ []) c ≡ new_controller
unfolding observations observe observe_healthy new_controller
two_healthy_samples c idle_op = ground arith

unfoldable pub is_bad : Verdict → Bool
is_bad healthy = false
is_bad _ = true

unfoldable pub is_failing : Verdict → Bool
is_failing (failing r) = true
is_failing _ = false

unfoldable pub any_failing : List Verdict → Bool
unfolding is_failing
any_failing [] = false
any_failing (v ∷ vs) = is_failing v || any_failing vs

IsSpent : Bool → Controller → Type 0
IsSpent seen c =
    (c.operation_active ≡ false)
    × (c.attempted ≡ true)
    × (is_recovering c.state ≡ not seen)
    × (is_failed c.state ≡ seen)

IsSpent-observe :
    (seen : Bool) (v : Verdict) (c : Controller)
    → is_bad v ≡ true
    → IsSpent seen c
    → IsSpent (seen || is_failing v) (observe v c).0 × ((observe v c).1 ≡ false)
unfolding IsSpent observe observe_unknown observe_failure failure is_failing is_bad is_failed
    is_recovering
IsSpent-observe seen unknown c bad w = ground arith
IsSpent-observe seen healthy c bad w = absurd cc
IsSpent-observe seen (failing r) c bad w = ground arith

IsSpent-observations :
    (seen : Bool) (vs : List Verdict) (c : Controller)
    → all is_bad vs ≡ true
    → IsSpent seen c
    → IsSpent (seen || any_failing vs) (observations vs c) × (any_asked vs c ≡ false)
unfolding observations any_asked any_failing
IsSpent-observations seen [] c bad w = (subst (λ b. IsSpent b c) (or_false seen) w, refl)
  where
    or_false : (b : Bool) → b ≡ (b || false)
    or_false true = refl
    or_false false = refl
IsSpent-observations seen (v ∷ vs) c bad w =
    let (first_bad, rest_bad) = both (is_bad v) (all is_bad vs) bad in
    let (once, unasked) = IsSpent-observe seen v c first_bad w in
    let (later, rest_unasked) =
      IsSpent-observations (seen || is_failing v) vs (observe v c).0 rest_bad once in
    (
      subst (λ b. IsSpent b (observations vs (observe v c).0))
          (or_assoc seen (is_failing v) (any_failing vs)) later,
      cc,
    )
  where
    both : (a b : Bool) → (a && b) ≡ true → (a ≡ true) × (b ≡ true)
    both true b h = (refl, h)
    both false b h = absurd cc

    or_assoc : (a b d : Bool) → ((a || b) || d) ≡ (a || (b || d))
    or_assoc true b d = refl
    or_assoc false b d = refl

-- A restart, automatic or by hand, that has returned without an error is not retried: whatever
-- samples follow without a healthy one, no further restart is asked for, and the incident is failed
-- just if there is a failure among them.
pub no_retry :
    (c : Controller) (vs : List Verdict)
    → c.attempted ≡ true
    → all is_bad vs ≡ true
    → (any_asked vs (finish_automatic none c) ≡ false)
      × (any_asked vs (finish_manual none c) ≡ false)
      × (is_failed (observations vs (finish_automatic none c)).state ≡ any_failing vs)
      × (is_failed (observations vs (finish_manual none c)).state ≡ any_failing vs)
unfolding IsSpent finish_automatic finish_manual is_recovering is_failed
no_retry c vs attempted bad =
    let automatic =
      IsSpent-observations false vs (finish_automatic none c) bad (refl, attempted, refl, refl) in
    let by_hand =
      IsSpent-observations false vs (finish_manual none c) bad (refl, refl, refl, refl) in
    (automatic.1, by_hand.1, automatic.0.3, by_hand.0.3)
