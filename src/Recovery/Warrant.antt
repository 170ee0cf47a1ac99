-- ===== src/Recovery/Warrant.antt =====
-- What an automatic restart rests on.
use opensurge_fnos.Base.{
  Bool, List, Option, [], false, if◌then◌else◌, none, refl, some, subst, true, ◌∷◌, ◌≡◌,
}
use opensurge_fnos.Recovery.Controller.{Reason, controller_refused, process_missing}
use opensurge_fnos.Recovery.Samples.{
  Sample, Status, classify, confirm, failing, failure_reason, if_quiet, of_reason, of_status,
  stage_allowed, unknown, with_config, with_stage,
}
use opensurge_fnos.Text.{Text, text, text_eq}

-- A sample that the controller may take for a failure: the configuration loads, no operation runs
-- at either question, the runtime is active, its engine fails for that reason, and the recovery
-- stage of the store allows a restart.
pub record IsWarranted (r : Reason) (s : Sample) : Type 0 where
  pub topology : Text
  pub current_stage : Text
  pub current : Status
  pub loaded : s.mode ≡ some topology
  pub quiet : s.busy ≡ some false
  pub read : s.status ≡ some current
  pub is_active : text_eq current.runtime_state (text "active") ≡ true
  pub fails : failure_reason current ≡ some r
  pub still_quiet : s.busy_again ≡ some false
  pub stored : s.stage ≡ some current_stage
  pub allowed : stage_allowed topology current_stage ≡ true

-- The restart has a reason: the latest sample is a failure for it, and one of a refused controller
-- follows another.
unfoldable pub HasReason : Reason → List Sample → Type 0
HasReason r [] = ⊥
HasReason process_missing (s ∷ ss) = IsWarranted process_missing s
HasReason controller_refused (s ∷ []) = ⊥
HasReason controller_refused (s ∷ t ∷ ss) =
    IsWarranted controller_refused s × IsWarranted controller_refused t

module _ (topology : Text) (st : Status) where
  abbrev read_sample : Option Bool → Option Text → Sample
  read_sample again stage = record {
    mode = some topology;
    busy = some false;
    status = some st;
    busy_again = again;
    stage = stage;
  }

  -- The verdict on a failure, and what it takes.
  failure-IsWarranted :
      (r q : Reason) (again : Option Bool) (stage : Option Text)
      → text_eq st.runtime_state (text "active") ≡ true
      → failure_reason st ≡ some q
      → confirm topology q (read_sample again stage) again ≡ failing r
      → IsWarranted r (read_sample again stage)
  unfolding confirm with_stage
  failure-IsWarranted r q none stage active fails h = absurd cc
  failure-IsWarranted r q (some true) stage active fails h = absurd cc
  failure-IsWarranted r q (some false) none active fails h = absurd cc
  failure-IsWarranted r q (some false) (some stage) active fails h =
      let (allowed, same) = permitted (stage_allowed topology stage) refl h in
      record {
        topology = topology;
        current_stage = stage;
        current = st;
        loaded = refl;
        quiet = refl;
        read = refl;
        is_active = active;
        fails = subst (λ x. failure_reason st ≡ some x) same fails;
        still_quiet = refl;
        stored = refl;
        allowed = allowed;
      }
    where
      permitted :
          (b : Bool)
          → stage_allowed topology stage ≡ b
          → (if b then failing q else unknown) ≡ failing r
          → (stage_allowed topology stage ≡ true) × (q ≡ r)
      permitted true e h = (e, cc)
      permitted false e h = absurd cc

  status-IsWarranted :
      (r : Reason) (again : Option Bool) (stage : Option Text) (running : Bool)
      → text_eq st.runtime_state (text "active") ≡ running
      → (found : Option Reason) → failure_reason st ≡ found
      → (if running then of_reason topology (read_sample again stage) found else unknown)
        ≡ failing r
      → IsWarranted r (read_sample again stage)
  unfolding of_reason
  status-IsWarranted r again stage false active found fails h = absurd cc
  status-IsWarranted r again stage true active none fails h = absurd cc
  status-IsWarranted r again stage true active (some q) fails h =
      failure-IsWarranted r q again stage active fails h

-- A verdict of failure has everything that warrants a restart.
pub classify-IsWarranted : (r : Reason) (s : Sample) → classify s ≡ failing r → IsWarranted r s
unfolding classify with_config if_quiet of_status
classify-IsWarranted r s h = by_readings s.mode s.busy s.status s.busy_again s.stage h
  where
    read : Option Text → Option Bool → Option Status → Option Bool → Option Text → Sample
    read mode busy status again stage = record {
      mode = mode;
      busy = busy;
      status = status;
      busy_again = again;
      stage = stage;
    }

    by_readings :
        (mode : Option Text) (busy : Option Bool) (status : Option Status) (again : Option Bool)
        (stage : Option Text)
        → classify (read mode busy status again stage) ≡ failing r
        → IsWarranted r (read mode busy status again stage)
    by_readings none busy status again stage h = absurd cc
    by_readings (some t) none status again stage h = absurd cc
    by_readings (some t) (some true) status again stage h = absurd cc
    by_readings (some t) (some false) none again stage h = absurd cc
    by_readings (some t) (some false) (some st) again stage h =
        status-IsWarranted t st r again stage _ refl _ refl h
