-- ===== src/Gateway/Restart.antt =====
-- Manager.restartMihomo of internal/gateway/manager.go: the proxy engine alone is replaced.
use opensurge_fnos.Base.{Bool, Option, if◌then◌else◌, none, some, true, ℕ, ◌==◌}
use opensurge_fnos.Exec.{or_else, pure, raise, when◌run◌otherwise◌, ◌>>=◌, ◌>>◌}
use opensurge_fnos.Gateway.Reload.{require_running}
use opensurge_fnos.Gateway.Services.{enable_system_dns, start_daemon, stop_daemon}
use opensurge_fnos.Gateway.Start.{warm_managed_tailscale}
use opensurge_fnos.Gateway.Start.Plan.{require_root}
use opensurge_fnos.Gateway.Start.Steps.{identify}
use opensurge_fnos.Gateway.Stop.{give_back_proxy}
use opensurge_fnos.Gateway.Tracked.{collect, restore_dns, stop_tracked, tracked_running}
use opensurge_fnos.Gateway.Types.{
  Config, DnsSnapshot, Err, Fingerprint, State, archive_log, checking_runtime, clock,
  digest_profile, enabling_dns, join, mihomo, mihomo_service, profile_differs, starting_mihomo,
  stopping_mihomo, validate_written, validating_config,
}
use opensurge_fnos.Gateway.World.{M, answer, ask, load, observe, report, save}

unfoldable pub require_same_profile : ℕ → ℕ → M (Unit {0})
require_same_profile desired applied =
    when desired == applied run pure tt otherwise raise profile_differs

-- The state whose DNS is no longer verified, and no longer managed once it is somebody else's.
released_dns : Bool → Option DnsSnapshot → Option DnsSnapshot
released_dns again none = none
released_dns again (some d) = if again then some (record d { verified_at = 0 }) else none

-- errors.Join of a cause with errors that follow it.
abbrev pub raise_with : {A : Type 0} → Err → Option Err → M A
raise_with cause none = raise cause
raise_with cause (some e) = raise (join cause e)

-- The old process still runs: its identity is recorded again.
unfoldable pub keep_old : State → ℕ → Fingerprint → Err → M (Unit {0})
unfolding collect
keep_old s pid digest cause = do
  failed ← collect none (save (record s { pid_mihomo = pid; mihomo_fingerprint = digest }))
  raise_with cause failed

unfoldable pub lose_old : State → Err → M (Unit {0})
unfolding collect
lose_old s cause = do
  failed ← collect none (give_back_proxy s.system_proxy)
  failed ← collect failed (save s)
  raise_with cause failed

-- What the manager does when the old process could not be stopped.
unfoldable pub after_failed_stop : State → ℕ → Fingerprint → Err → M (Unit {0})
unfolding keep_old lose_old
after_failed_stop s pid digest cause = do
  alive ← tracked_running mihomo pid digest
  when alive run keep_old s pid digest cause otherwise lose_old s cause

unfoldable pub with_proxy_back : {A : Type 0} → State → Err → M A
unfolding collect
with_proxy_back s cause = do
  failed ← collect none (give_back_proxy s.system_proxy)
  raise_with cause failed

unfoldable pub abandon_new : {A : Type 0} → State → ℕ → Err → M A
unfolding collect
abandon_new s pid cause = do
  failed ← collect none (give_back_proxy s.system_proxy)
  failed ← collect failed (stop_daemon mihomo pid)
  raise_with cause failed

unfoldable pub release_dns_after : {A : Type 0} → State → Err → M A
unfolding collect
release_dns_after s cause = do
  failed ← collect none (restore_dns s.system_dns)
  raise_with cause failed

-- The old process is stopped and a new one started; the resolver is not captured meanwhile.
unfoldable pub replace_engine : State → ℕ → Fingerprint → M State
unfolding after_failed_stop with_proxy_back abandon_new
replace_engine s old_pid old_digest = do
  report stopping_mihomo
  or_else (stop_tracked mihomo old_pid old_digest) (after_failed_stop s old_pid old_digest)
  or_else (ask archive_log) (with_proxy_back s)
  report starting_mihomo
  pid ← or_else (start_daemon mihomo true) (with_proxy_back s)
  found ← or_else (identify mihomo pid) (abandon_new s pid)
  let s = record s { pid_mihomo = pid; mihomo_fingerprint = found }
  or_else (save s) (abandon_new s pid)
  pure s

unfoldable pub capture_again : State → DnsSnapshot → M (Unit {0})
unfolding release_dns_after
capture_again s d = do
  report enabling_dns
  or_else enable_system_dns (release_dns_after s)
  now ← observe clock (λ w. w.env.number w.tick)
  let s = record s { system_dns = some (record d { verified_at = now }) }
  or_else (save s) (release_dns_after s)

unfoldable pub reapply_dns : Bool → State → Option DnsSnapshot → M (Unit {0})
unfolding capture_again
reapply_dns true s (some d) = capture_again s d
reapply_dns _ s _ = pure tt

unfoldable pub restart_mihomo : Config → M (Unit {0})
unfolding ask answer report load require_same_profile released_dns replace_engine reapply_dns
restart_mihomo c = do
  report checking_runtime
  require_root
  existing ← load
  s ← require_running existing
  desired ← answer digest_profile (λ w. w.env.profile)
  require_same_profile desired s.profile_digest
  report validating_config
  ask (validate_written mihomo_service)
  again ← restore_dns s.system_dns
  let kept = released_dns again s.system_dns
  let marked = record s { system_dns = kept; pid_mihomo = 0; mihomo_fingerprint = none }
  save marked
  started ← replace_engine marked s.pid_mihomo s.mihomo_fingerprint
  reapply_dns again started kept
  warm_managed_tailscale c
