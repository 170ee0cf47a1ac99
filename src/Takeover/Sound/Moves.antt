-- ===== src/Takeover/Sound/Moves.antt =====
-- Which stages a request may lead to, told apart from the handlers, and how a stage is known.
use opensurge_fnos.Base.{
  Bool, Bool-cases, ap, arith, if◌then◌else◌, inl, inr, refl, subst, sym, true, ℕ, ◌&&◌, ◌<◌, ◌==◌,
  ◌||◌, ◌∙◌, ◌≡◌, ◌⊎◌,
}
use opensurge_fnos.Takeover.Stage.{
  Stage, allowed_recovery_transition, is_stage, other_stage, recovery_client_validated,
  recovery_client_validation_skipped, recovery_complete, recovery_complete_static,
  recovery_gateway_active, recovery_gateway_stopped, recovery_idle, recovery_mac_static,
  recovery_prepared, recovery_router_dhcp_disabled_confirmed, recovery_router_dhcp_restored,
  stage_number,
}
use opensurge_fnos.Takeover.World.{
  Request, abandon_takeover, discard_recovery, finish_manually, prepare_recovery, run_action,
  update_notes,
}

-- The workflow goes by allowedRecoveryTransition. A preparation may begin at any stage, and what
-- the user confirms, discards or abandons ends it.
unfoldable pub may_move : Request → Stage → Stage → Bool
unfolding is_stage allowed_recovery_transition
may_move (update_notes body) from to = stage_number from == stage_number to
may_move (prepare_recovery body) from to = is_stage recovery_prepared to
may_move discard_recovery from to = is_stage recovery_prepared from && is_stage recovery_idle to
may_move abandon_takeover from to =
    (is_stage recovery_mac_static from || is_stage recovery_router_dhcp_disabled_confirmed from)
    && (is_stage recovery_complete to || is_stage recovery_complete_static to)
may_move (finish_manually body) from to =
    is_stage recovery_gateway_stopped from && is_stage recovery_complete to
may_move (run_action a id) from to = stage_number from == stage_number to
may_move _ from to = allowed_recovery_transition from to

stage_at : ℕ → Stage
stage_at n =
    if n == 0
    then recovery_idle
    else if n == 1
    then recovery_prepared
    else if n == 2
    then recovery_mac_static
    else if n == 3
    then recovery_router_dhcp_disabled_confirmed
    else if n == 4
    then recovery_gateway_active
    else if n == 5
    then recovery_client_validated
    else if n == 6
    then recovery_client_validation_skipped
    else if n == 7
    then recovery_gateway_stopped
    else if n == 8
    then recovery_router_dhcp_restored
    else if n == 9
    then recovery_complete
    else recovery_complete_static

number_cases : (s : Stage) → (stage_number s ≡ 11) ⊎ (stage_at (stage_number s) ≡ s)
unfolding stage_number stage_at
number_cases recovery_idle = inr refl
number_cases recovery_prepared = inr refl
number_cases recovery_mac_static = inr refl
number_cases recovery_router_dhcp_disabled_confirmed = inr refl
number_cases recovery_gateway_active = inr refl
number_cases recovery_client_validated = inr refl
number_cases recovery_client_validation_skipped = inr refl
number_cases recovery_gateway_stopped = inr refl
number_cases recovery_router_dhcp_restored = inr refl
number_cases recovery_complete = inr refl
number_cases recovery_complete_static = inr refl
number_cases (other_stage s) = inl refl

-- What holds of a constant holds of the stage that compares equal to it.
pub at_constant {ℓ} :
    (P : Stage → Type ℓ) (constant s : Stage)
    → stage_number constant < 11
    → is_stage constant s ≡ true
    → P constant
    → P s
unfolding is_stage
at_constant P constant s l h p = elim (number_cases constant) [
  | inl e ↦ absurd (ground arith)
  | inr e ↦ elim (number_cases s) [
    | inl e' ↦ absurd (ground arith)
    | inr e' ↦ subst P (sym e ∙ ap stage_at (ground arith) ∙ e') p
  ]
]

pub at_either {ℓ} :
    (P : Stage → Type ℓ) (a b s : Stage)
    → stage_number a < 11
    → stage_number b < 11
    → is_stage a s || is_stage b s ≡ true
    → P a
    → P b
    → P s
at_either P a b s la lb h pa pb = elim (Bool-cases (is_stage a s)) [
  | inl e ↦ at_constant P a s la e pa
  | inr e ↦ at_constant P b s lb (ground (arith, h, e)) pb
]
