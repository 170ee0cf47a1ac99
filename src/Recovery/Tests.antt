-- ===== src/Recovery/Tests.antt =====
-- Samples of a gateway whose engine is refused twice, restarted, and healthy again.
use opensurge_fnos.Base.{List, [], all, false, none, refl, some, true, ◌*◌, ◌+◌, ◌∷◌, ◌≡◌, ◌≤◌}
use opensurge_fnos.Recovery.Asked.{asked_restart-HasReason}
use opensurge_fnos.Recovery.Budget.{healthy_samples, restart_budget}
use opensurge_fnos.Recovery.Controller.{
  Controller, begin, begin_manual, controller_refused, counted, failure, finish_automatic,
  finish_manual, is_failed, is_recovering, new_controller, observe_failure, observe_healthy,
  process_missing, same_reason, with_reason,
}
use opensurge_fnos.Recovery.Incidents.{
  any_asked, any_failing, is_bad, no_retry, observations, two_healthy_samples,
}
use opensurge_fnos.Recovery.Monitor.{
  Monitor, Reachable, asked, attempt, begun, evaluate, first_monitor, next, next_stand,
  restart_begun, sampled, start, try_restart,
}
use opensurge_fnos.Recovery.Samples.{
  Sample, Status, Verdict, classify, confirm, connection_refused, failing, failure_reason, healthy,
  if_quiet, observe, of_reason, of_status, stage_allowed, unknown, with_config, with_stage,
}
use opensurge_fnos.Recovery.Warrant.{HasReason}
use opensurge_fnos.Text.{Text, contains, has_prefix, text, text_eq, to_lower}

abbrev active : Text → Status
active refusal = record {
  runtime_state = text "active";
  mihomo = text "running (pid 7)";
  mihomo_error = refusal;
  tun_error = [];
}

abbrev sample : Text → Sample
sample refusal = record {
  mode = some (text "same_wifi_dhcp");
  busy = some false;
  status = some (active refusal);
  busy_again = some false;
  stage = some (text "client_validated");
}

abbrev refused : Sample
refused = sample (text "dial tcp: Connection refused")

-- Opens the monitor.
run_monitor : Unit {0}
unfolding classify with_config if_quiet of_status of_reason failure_reason confirm with_stage
    stage_allowed connection_refused contains has_prefix to_lower text_eq observe observe_failure
    observe_healthy failure counted with_reason same_reason is_recovering is_failed sampled
    next_stand attempt begun restart_begun begin begin_manual first_monitor new_controller
    healthy_samples
run_monitor = tt

twice : Monitor
unfolding sampled first_monitor
twice = sampled refused (sampled refused first_monitor)

twice-asked : twice.stand ≡ asked controller_refused
unfolding twice run_monitor
twice-asked = refl

twice-Reachable : Reachable twice
unfolding twice run_monitor
twice-Reachable = next (next start (evaluate _ refused refl)) (evaluate _ refused refl)

restarted : Monitor
unfolding attempt twice
restarted = attempt controller_refused none twice none

restarted-Reachable : Reachable restarted
unfolding restarted twice run_monitor
restarted-Reachable = next twice-Reachable (try_restart twice controller_refused none refl)

restarted_once : restarted.restarts ≡ 1
unfolding restarted twice run_monitor
restarted_once = refl

restart_budget_example : 2 * restarted.restarts ≤ healthy_samples restarted.samples + 2
restart_budget_example = restart_budget restarted restarted-Reachable

asked_restart-HasReason_example : HasReason controller_refused twice.samples
asked_restart-HasReason_example =
    asked_restart-HasReason twice controller_refused twice-Reachable twice-asked

finished : Controller
unfolding finish_automatic restarted
finished = finish_automatic none restarted.controller

finished_idle : finished.operation_active ≡ false
unfolding finished finish_automatic
finished_idle = refl

two_healthy_samples_example : observations (healthy ∷ healthy ∷ []) finished ≡ new_controller
two_healthy_samples_example = two_healthy_samples finished finished_idle

after_restart : List Verdict
after_restart = unknown ∷ failing process_missing ∷ failing process_missing ∷ []

all_bad : all is_bad after_restart ≡ true
unfolding after_restart is_bad
all_bad = refl

restarted_attempted : restarted.controller.attempted ≡ true
unfolding restarted twice run_monitor
restarted_attempted = refl

no_retry_example :
    (any_asked after_restart (finish_automatic none restarted.controller) ≡ false)
    × (any_asked after_restart (finish_manual none restarted.controller) ≡ false)
    × (is_failed (observations after_restart (finish_automatic none restarted.controller)).state
        ≡ any_failing after_restart)
    × (is_failed (observations after_restart (finish_manual none restarted.controller)).state
        ≡ any_failing after_restart)
no_retry_example = no_retry restarted.controller after_restart restarted_attempted all_bad
