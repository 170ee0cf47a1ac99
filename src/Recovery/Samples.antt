-- ===== src/Recovery/Samples.antt =====
-- What one evaluation reads, and the verdict that evaluateMihomoRecovery draws from it. A reading
-- that returned an error is `none`.
use opensurge_fnos.Base.{Bool, Option, false, if◌then◌else◌, none, not, some, true, ◌||◌}
use opensurge_fnos.Recovery.Controller.{
  Controller, Reason, controller_refused, observe_failure, observe_healthy, observe_unknown,
  process_missing,
}
use opensurge_fnos.Text.{Text, contains, has_prefix, text, text_eq, to_lower}

-- The fields of the gateway's status that are read.
pub record Status : Type 0 where
  pub runtime_state : Text
  pub mihomo : Text
  pub mihomo_error : Text
  pub tun_error : Text

pub record Sample : Type 0 where
  pub mode : Option Text  -- of the configuration, where it loads
  pub busy : Option Bool
  pub status : Option Status
  pub busy_again : Option Bool
  pub stage : Option Text

pub data Verdict : Type 0 where
  unknown healthy : Verdict
  failing : Reason → Verdict

unfoldable pub connection_refused : Text → Bool
unfolding contains to_lower
connection_refused value = contains (to_lower value) (text "connection refused")

unfoldable pub failure_reason : Status → Option Reason
unfolding has_prefix connection_refused
failure_reason s =
    if not (has_prefix s.mihomo (text "running"))
    then some process_missing
    else if connection_refused s.mihomo_error || connection_refused s.tun_error
    then some controller_refused
    else none

unfoldable pub stage_allowed : Text → Text → Bool
unfolding text_eq
stage_allowed topology stage =
    if not (text_eq topology (text "same_wifi_dhcp"))
    then true
    else text_eq stage (text "gateway_active")
      || text_eq stage (text "client_validated")
      || text_eq stage (text "client_validation_skipped")

-- The recovery stage of the store is read last.
unfoldable pub with_stage : Text → Reason → Option Text → Verdict
unfolding stage_allowed
with_stage mode r none = unknown
with_stage mode r (some stage) = if stage_allowed mode stage then failing r else unknown

-- The second question whether an operation runs.
unfoldable pub confirm : Text → Reason → Sample → Option Bool → Verdict
unfolding with_stage
confirm mode r s (some false) = with_stage mode r s.stage
confirm mode r s _ = unknown

unfoldable pub of_reason : Text → Sample → Option Reason → Verdict
unfolding confirm
of_reason mode s none = healthy
of_reason mode s (some r) = confirm mode r s s.busy_again

unfoldable pub of_status : Text → Sample → Option Status → Verdict
unfolding of_reason failure_reason text_eq
of_status mode s none = unknown
of_status mode s (some st) =
    if text_eq st.runtime_state (text "active")
    then of_reason mode s (failure_reason st)
    else unknown

unfoldable pub if_quiet : Text → Sample → Option Bool → Verdict
unfolding of_status
if_quiet mode s (some false) = of_status mode s s.status
if_quiet mode s _ = unknown

unfoldable pub with_config : Sample → Option Text → Verdict
unfolding if_quiet
with_config s none = unknown
with_config s (some mode) = if_quiet mode s s.busy

unfoldable pub classify : Sample → Verdict
unfolding with_config
classify s = with_config s s.mode

-- The observation that the evaluation makes, and whether it goes on to a restart.
unfoldable pub observe : Verdict → Controller → Controller × Bool
unfolding observe_healthy observe_unknown observe_failure
observe unknown c = (observe_unknown c, false)
observe healthy c = (observe_healthy c, false)
observe (failing r) c = observe_failure r c
