-- ===== src/Recovery/Controller.antt =====
-- mihomoRecoveryController and its operations. The mutex makes each operation one step. The
-- strings of the state and of the reason are data types; the empty reason is `none`.
use opensurge_fnos.Base.{
  Bool, Option, [], false, if◌then◌else◌, leb, ltb, none, some, true, ℕ, ◌&&◌, ◌+◌, ◌||◌,
}
use opensurge_fnos.Text.{Text, text}

pub data Phase : Type 0 where
  idle observing recovering failed : Phase

pub data Reason : Type 0 where
  process_missing controller_refused : Reason

pub record Controller : Type 0 where
  pub state : Phase
  pub reason : Option Reason
  pub error : Text
  pub refused_count : ℕ
  pub healthy_count : ℕ
  pub attempted : Bool
  pub operation_active : Bool

unfoldable pub new_controller : Controller
new_controller = record {
  state = idle;
  reason = none;
  error = [];
  refused_count = 0;
  healthy_count = 0;
  attempted = false;
  operation_active = false;
}

unfoldable pub healthy_confirmations : ℕ
healthy_confirmations = 2

unfoldable pub unhealthy_after_restart : Text
unhealthy_after_restart = text "mihomo remained unhealthy after restart"

unfoldable pub is_recovering : Phase → Bool
is_recovering recovering = true
is_recovering _ = false

unfoldable pub is_failed : Phase → Bool
is_failed failed = true
is_failed _ = false

unfoldable pub same_reason : Option Reason → Reason → Bool
same_reason (some process_missing) process_missing = true
same_reason (some controller_refused) controller_refused = true
same_reason _ _ = false

abbrev closed : Controller → Controller
closed c = record c {
  state = idle;
  reason = none;
  error = [];
  refused_count = 0;
  healthy_count = 0;
  attempted = false;
}

abbrev confirming : Controller → Controller
confirming c = record c { healthy_count = c.healthy_count + 1; state = recovering; error = [] }

unfoldable pub observe_healthy : Controller → Controller
unfolding healthy_confirmations
observe_healthy c =
    if c.operation_active
    then c
    else if c.attempted && ltb (c.healthy_count + 1) healthy_confirmations
    then confirming c
    else closed c

unfoldable pub observe_unknown : Controller → Controller
observe_unknown c =
    if c.operation_active then c else record c { healthy_count = 0; refused_count = 0 }

-- The counting of the last part of observeFailure, on a reason that is recorded.
unfoldable pub counted : Reason → Controller → Controller × Bool
counted process_missing c = (c, true)
counted controller_refused c =
    (record c { refused_count = c.refused_count + 1 }, leb 2 (c.refused_count + 1))

unfoldable pub with_reason : Reason → Controller → Controller
unfolding same_reason
with_reason r c =
    if same_reason c.reason r then c else record c { reason = some r; refused_count = 0 }

-- observeFailure past its first test.
unfoldable pub failure : Reason → Controller → Controller × Bool
unfolding counted with_reason is_recovering is_failed unhealthy_after_restart
failure r c =
    if c.attempted && is_recovering c.state
    then (
      record c {
        healthy_count = 0;
        state = failed;
        reason = some r;
        error = unhealthy_after_restart;
      },
      false,
    )
    else if c.attempted || is_failed c.state
    then (record c { healthy_count = 0 }, false)
    else counted r
        (record (with_reason r (record c { healthy_count = 0 })) { state = observing; error = [] })

-- The controller afterwards, and whether a restart is asked for.
unfoldable pub observe_failure : Reason → Controller → Controller × Bool
unfolding failure
observe_failure r c = if c.operation_active then (c, false) else failure r c

unfoldable pub begin : Reason → Controller → Controller × Bool
unfolding is_recovering is_failed
begin r c = if c.attempted || is_recovering c.state || is_failed c.state then (c, false) else (
  record c {
    state = recovering;
    reason = some r;
    error = [];
    attempted = true;
    healthy_count = 0;
    operation_active = true;
  },
  true,
)

unfoldable pub begin_manual : Controller → Controller
begin_manual c = record c {
  state = recovering;
  error = [];
  attempted = true;
  healthy_count = 0;
  operation_active = true;
}

unfoldable pub finish_automatic : Option Text → Controller → Controller
finish_automatic (some e) c = record c { operation_active = false; state = failed; error = e }
finish_automatic none c = record c { operation_active = false; state = recovering; error = [] }

unfoldable pub finish_manual : Option Text → Controller → Controller
finish_manual (some e) c = record c {
  operation_active = false;
  attempted = true;
  refused_count = 0;
  state = failed;
  error = e;
}
finish_manual none c = record c {
  operation_active = false;
  attempted = true;
  refused_count = 0;
  state = recovering;
  error = [];
}
