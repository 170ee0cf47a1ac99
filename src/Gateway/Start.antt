-- ===== src/Gateway/Start.antt =====
-- Manager.startWithCommit of internal/gateway/manager.go, in the parts that its comments and
-- progress reports divide it into.
pub mod Plan
pub mod Steps
use opensurge_fnos.Base.{Bool, false, if◌then◌else◌, is_some, none, not, true}
use opensurge_fnos.Exec.{pure, raise, when◌run◌otherwise◌, ◌>>=◌, ◌>>◌}
use opensurge_fnos.Gateway.Start.Plan.{
  commit_candidate, prepare_start, record_runtime, validate_start,
}
use opensurge_fnos.Gateway.Start.Steps.{
  apply_firewall, attempt, start_dns, start_engine, start_forwarding, start_ipv6, take_system_dns,
  take_system_proxy,
}
use opensurge_fnos.Gateway.Tracked.{collect}
use opensurge_fnos.Gateway.Types.{
  Config, State, commit_required, initiating_tailscale, warm_tailscale, warmup_started,
  warmup_unavailable,
}
use opensurge_fnos.Gateway.World.{M, ask, check_context, report}

-- Best effort: a failed warm-up is a notice.
unfoldable pub warm_managed_tailscale : Config → M (Unit {0})
unfolding report ask collect
warm_managed_tailscale c = when not c.tailscale_enabled run pure tt otherwise do
  report initiating_tailscale
  failed ← collect none (ask warm_tailscale)
  report (if is_some failed then warmup_unavailable else warmup_started)

-- From the first change of the host to the end.
unfoldable pub takeover : Config → Bool → State → M State
takeover c ipv6 s = do
  s ← start_forwarding c s
  s ← start_engine c s
  s ← start_ipv6 c ipv6 s
  s ← start_dns c s
  s ← apply_firewall c s
  s ← take_system_dns c s
  take_system_proxy c s
  warm_managed_tailscale c
  attempt c s (is_some s.system_proxy) check_context
  pure s

-- `commits` says whether the caller passes a commit of its desired configuration.
unfoldable pub start_with_commit : Config → Bool → M (Unit {0})
start_with_commit c commits = do
  plan ← validate_start c
  plan ← prepare_start plan
  commit_candidate commits
  s ← record_runtime plan
  takeover plan.config plan.resolution.effective s
  pure tt

-- Manager.start and StartLocked
unfoldable pub start_gateway : Config → M (Unit {0})
start_gateway c = start_with_commit c false

-- StartCandidateLocked
unfoldable pub start_candidate : Config → Bool → M (Unit {0})
start_candidate c commits =
    when not commits run raise commit_required otherwise start_with_commit c true
