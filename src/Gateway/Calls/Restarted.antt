-- ===== src/Gateway/Calls/Restarted.antt =====
-- Replacing the proxy engine leaves the rest of the gateway alone.
use opensurge_fnos.Base.{
  All, Bool, Option, [], arith, false, none, refl, some, subst, sym, true, ℕ, ◌≡◌,
}
use opensurge_fnos.Exec.{◌>>=◌}
use opensurge_fnos.Gateway.Calls.{
  Only, Only-answer, Only-ask, Only-bind, Only-change, Only-collect, Only-gets, Only-load,
  Only-observe, Only-or_else, Only-pure, Only-raise, Only-report, Only-save, Only-when,
}
use opensurge_fnos.Gateway.Reload.{require_running}
use opensurge_fnos.Gateway.Restart.{
  abandon_new, after_failed_stop, capture_again, keep_old, lose_old, raise_with, reapply_dns,
  release_dns_after, replace_engine, require_same_profile, restart_mihomo, with_proxy_back,
}
use opensurge_fnos.Gateway.Services.{
  enable_system_dns, fingerprint_of, process_matches, process_running, restore_dns_snapshot,
  restore_system_proxy, start_daemon, stop_daemon,
}
use opensurge_fnos.Gateway.Start.{warm_managed_tailscale}
use opensurge_fnos.Gateway.Start.Plan.{require_root}
use opensurge_fnos.Gateway.Start.Steps.{identify, require_identity}
use opensurge_fnos.Gateway.Stop.{give_back_proxy}
use opensurge_fnos.Gateway.Tracked.{both_running, restore_dns, stop_tracked, tracked_running}
use opensurge_fnos.Gateway.Types.{
  Call, Config, DnsSnapshot, Err, Fingerprint, ProxySnapshot, State, add_gateway, mihomo, pf_load,
  pf_unload, proxy_enable, remove_gateway, remove_state, start, stop, sysctl_enable, sysctl_restore,
  withdraw,
}
use opensurge_fnos.Gateway.World.{M, World, answer, ask, observe, report}

-- The calls that start, stop or signal no process but the engine, and change neither the firewall
-- nor forwarding nor the IPv6 path, nor set a proxy.
abbrev pub spares_network : Call → Bool
spares_network (start mihomo) = true
spares_network (start d) = false
spares_network (stop mihomo pid) = true
spares_network (stop d pid) = false
spares_network sysctl_enable = false
spares_network (sysctl_restore v) = false
spares_network (pf_load e) = false
spares_network (pf_unload d) = false
spares_network add_gateway = false
spares_network remove_gateway = false
spares_network withdraw = false
spares_network proxy_enable = false
spares_network remove_state = false
spares_network c = true

abbrev OnlyEngine : {A : Type 0} → M A → Type 0
OnlyEngine m = Only spares_network m

restored_dns : (o : Option DnsSnapshot) → OnlyEngine (restore_dns o)
unfolding restore_dns restore_dns_snapshot
restored_dns none = Only-pure false
restored_dns (some d) =
    Only-when _ (Only-pure false)
      (Only-bind (Only-report _ refl) (λ u. record { at = λ w h. ground arith }))

restored_proxy : (o : Option ProxySnapshot) → OnlyEngine (give_back_proxy o)
unfolding give_back_proxy restore_system_proxy
restored_proxy none = Only-pure tt
restored_proxy (some p) = Only-bind (Only-report _ refl) (λ u. Only-change _ _ refl)

raised : {A : Type 0} (e : Err) (o : Option Err) → OnlyEngine (raise_with {A = A} e o)
raised e none = Only-raise e
raised e (some x) = Only-raise _

stopped : (pid : ℕ) → OnlyEngine (stop_daemon mihomo pid)
unfolding stop_daemon
stopped pid = Only-change _ _ refl

matched : (pid digest : ℕ) → OnlyEngine (process_matches mihomo pid digest)
unfolding process_matches
matched pid digest = record { at = λ w h. ground arith }

seen_running : (pid : ℕ) → OnlyEngine (process_running mihomo pid)
unfolding process_running
seen_running pid = record { at = λ w h. ground arith }

tracked_stop : (pid : ℕ) (o : Fingerprint) → OnlyEngine (stop_tracked mihomo pid o)
unfolding stop_tracked
tracked_stop pid none = stopped pid
tracked_stop pid (some digest) =
    Only-bind (matched pid digest) λ same. Only-when _ (stopped pid) (Only-pure tt)

tracked_look : (pid : ℕ) (o : Fingerprint) → OnlyEngine (tracked_running mihomo pid o)
unfolding tracked_running both_running
tracked_look pid none = seen_running pid
tracked_look pid (some digest) =
    Only-bind (Only-or_else (matched pid digest) (λ e. Only-pure false))
      λ same. Only-when _ (seen_running pid) (Only-pure false)

started_engine : (wanted : Bool) → OnlyEngine (start_daemon mihomo wanted)
unfolding start_daemon
started_engine wanted = record { at = λ w h. ground arith }

identified : (pid : ℕ) → OnlyEngine (identify mihomo pid)
unfolding identify require_identity fingerprint_of ◌>>=◌
identified pid = record { at = λ w h. ground arith }

proxy_back : {A : Type 0} (s : State) (e : Err) → OnlyEngine (with_proxy_back {A = A} s e)
unfolding with_proxy_back
proxy_back s e = Only-bind (Only-collect none (restored_proxy _)) (λ o. raised e o)

abandoned : {A : Type 0} (s : State) (pid : ℕ) (e : Err) → OnlyEngine (abandon_new {A = A} s pid e)
unfolding abandon_new
abandoned s pid e =
    Only-bind (Only-collect none (restored_proxy _))
      λ o. Only-bind (Only-collect o (stopped pid)) λ o. raised e o

dns_released : {A : Type 0} (s : State) (e : Err) → OnlyEngine (release_dns_after {A = A} s e)
unfolding release_dns_after
dns_released s e = Only-bind (Only-collect none (restored_dns _)) (λ o. raised e o)

still_there :
    (s : State) (pid : ℕ) (o : Fingerprint) (e : Err) → OnlyEngine (after_failed_stop s pid o e)
unfolding after_failed_stop keep_old lose_old
still_there s pid o e = Only-bind (tracked_look pid o) λ alive.
    Only-when alive (Only-bind (Only-collect none (Only-save _ refl)) (λ f. raised e f)) (
      Only-bind (Only-collect none (restored_proxy _))
        λ f. Only-bind (Only-collect f (Only-save _ refl)) λ f. raised e f)

replaced : (s : State) (pid : ℕ) (o : Fingerprint) → OnlyEngine (replace_engine s pid o)
unfolding replace_engine
replaced s pid o = Only-bind (Only-report _ refl) λ u.
    Only-bind (Only-or_else (tracked_stop pid o) (still_there s pid o)) λ u.
      Only-bind (Only-or_else (Only-ask _ refl) (proxy_back s)) λ u.
        Only-bind (Only-report _ refl) λ u.
          Only-bind (Only-or_else (started_engine true) (proxy_back s)) λ new.
            Only-bind (Only-or_else (identified new) (abandoned s new)) λ found.
              Only-bind
                (Only-or_else (Only-save _ refl) (λ e.
                  abandoned (record s { pid_mihomo = new; mihomo_fingerprint = found }) new e))
                λ u. Only-pure _

captured : (s : State) (d : DnsSnapshot) → OnlyEngine (capture_again s d)
unfolding capture_again enable_system_dns
captured s d = Only-bind (Only-report _ refl) λ u.
    Only-bind (Only-or_else (Only-change _ _ refl) (dns_released s)) λ u.
      Only-bind (Only-observe _ _ refl) λ now.
        Only-or_else (Only-save _ refl)
          (λ e. dns_released (record s { system_dns = some (record d { verified_at = now }) }) e)

reapplied : (again : Bool) (s : State) (o : Option DnsSnapshot) → OnlyEngine (reapply_dns again s o)
unfolding reapply_dns
reapplied true s (some d) = captured s d
reapplied _ s _ = Only-pure tt

warmed : (c : Config) → OnlyEngine (warm_managed_tailscale c)
unfolding warm_managed_tailscale ask answer report observe ◌>>=◌
warmed c = record { at = λ w h. ground arith }

found_running : (o : Option State) → OnlyEngine (require_running o)
unfolding require_running
found_running none = Only-raise _
found_running (some s) =
    Only-bind (Only-answer _ _ refl) λ session. Only-when _ (Only-pure s) (Only-raise _)

pub restart_mihomo-Only : (c : Config) → OnlyEngine (restart_mihomo c)
unfolding restart_mihomo require_root require_same_profile
restart_mihomo-Only c = Only-bind (Only-report _ refl) λ u.
    Only-bind (Only-bind (Only-gets _) (λ root. Only-when _ (Only-pure tt) (Only-raise _))) λ u.
      Only-bind (Only-load refl) λ o. Only-bind (found_running o) λ s.
        Only-bind (Only-answer _ _ refl) λ p.
          Only-bind (Only-when _ (Only-pure tt) (Only-raise _)) λ u.
            Only-bind (Only-report _ refl) λ u. Only-bind (Only-ask _ refl) λ u.
              Only-bind (restored_dns _) λ again. Only-bind (Only-save _ refl) λ u.
                Only-bind (replaced _ _ _) λ new. Only-bind (reapplied again new _) λ u. warmed c

-- A restart of the proxy engine, whether or not it returns an error, calls nothing that starts or
-- stops dnsmasq or the packet broker, changes the firewall, forwarding or the IPv6 path, sets a
-- proxy or removes the state file.
pub restart_spares_network :
    (c : Config) (w : World)
    → w.trace ≡ []
    → All (λ k. spares_network k ≡ true) (restart_mihomo c w).1.trace
restart_spares_network c w fresh =
    (restart_mihomo-Only c).at w (subst (λ t. All (λ k. spares_network k ≡ true) t) (sym fresh) tt)
