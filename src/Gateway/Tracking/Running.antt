-- ===== src/Gateway/Tracking/Running.antt =====
-- The last steps of a start, and a whole start.
use opensurge_fnos.Base.{Bool, Option, arith, false, is_some, none, not, some, true, ℕ, ◌≡◌}
use opensurge_fnos.Exec.{◌>>=◌}
use opensurge_fnos.Exec.Rules.{Ensures, Ensures-bind, Ensures-pure, Ensures-when}
use opensurge_fnos.Gateway.Services.{enable_system_dns, enable_system_proxy}
use opensurge_fnos.Gateway.Start.{warm_managed_tailscale}
use opensurge_fnos.Gateway.Start.Steps.{attempt, dns_for, proxy_for}
use opensurge_fnos.Gateway.Tracking.{IsFree, Tracks}
use opensurge_fnos.Gateway.Tracking.Takeover.{
  FirewallUp, Up, attempt-Undone, checked-Up, report-Up, saved-Up,
}
use opensurge_fnos.Gateway.Tracking.Undo.{Undone}
use opensurge_fnos.Gateway.Types.{
  Config, DnsSnapshot, Err, ProxySnapshot, State, capture, clock, enabling_dns, enabling_proxy,
  manage_system_dns,
}
use opensurge_fnos.Gateway.World.{Host, World, check_context, mixed, observe, save}

abbrev pub ResolverTaken : Option DnsSnapshot → Host → Type 0
ResolverTaken none h = Unit
ResolverTaken (some d) h = (d.owned ≡ true) × (h.resolver ≡ capture)

abbrev pub ProxyTaken : Config → Option ProxySnapshot → Host → Type 0
ProxyTaken c none h = Unit
ProxyTaken c (some p) h = h.proxy ≡ mixed c.mixed_port

abbrev pub ResolverUp : Bool → Bool → State → Host → Type 0
ResolverUp wanted ipv6 s h = FirewallUp wanted ipv6 s h × ResolverTaken s.system_dns h

-- A gateway that has started: every part of it runs, the state file records all of it, and with
-- what the file records the host `b` can be restored.
pub record IsRunning (b : Host) (c : Config) (wanted ipv6 : Bool) (s : State) (w : World)
    : Type 0 where
  pub tracks : Tracks b s (is_some s.system_proxy) w.host
  pub file : w.file ≡ some s
  pub services : ResolverUp wanted ipv6 s w.host
  pub proxy : ProxyTaken c s.system_proxy w.host
  pub managed :
      (is_some s.system_dns ≡ manage_system_dns c)
      × (is_some s.system_proxy ≡ c.system_proxy_enabled)

module _ (b : Host) (free : IsFree b) (c : Config) (wanted ipv6 : Bool) where
  owned_dns :
      (s : State) (d : DnsSnapshot)
      → s.system_dns ≡ some d
      → let s' : State = record s { system_dns = some (record d { owned = true }) } in
        Ensures
          (Up b c s s (FirewallUp wanted ipv6))
          (attempt c s false (save s'))
          (λ u. Up b c s' s' (FirewallUp wanted ipv6))
          (Undone b)
  unfolding save
  owned_dns s d e =
      attempt-Undone b free c s false false (record { at = λ w h. ground arith }) (λ e. e)

  captured_dns :
      (s : State) (d : DnsSnapshot)
      → let s' : State = record s { system_dns = some (record d { owned = true }) } in
        Ensures
          (Up b c s' s' (FirewallUp wanted ipv6))
          (attempt c s' false enable_system_dns)
          (λ u. Up b c s' s' (ResolverUp wanted ipv6))
          (Undone b)
  unfolding enable_system_dns
  captured_dns s d =
      attempt-Undone b free c (record s { system_dns = some (record d { owned = true }) }) false
        false (record { at = λ w h. ground arith }) (λ e. e)

  verified_dns :
      (s : State) (d : DnsSnapshot) (g : World → ℕ)
      → let s' : State = record s { system_dns = some (record d { owned = true }) } in
        Ensures {E = Err}
          (Up b c s' s' (ResolverUp wanted ipv6))
          (observe clock g)
          (λ now.
            Up b c
              (record s { system_dns = some (record d { owned = true; verified_at = now }) })
              s'
              (ResolverUp wanted ipv6))
          (Undone b)
  unfolding observe
  verified_dns s d g = record { at = λ w h. ground arith }

  pub dns_for-Up :
      (s : State) (o : Option DnsSnapshot)
      → s.system_dns ≡ o
      → Ensures
          (Up b c s s (FirewallUp wanted ipv6))
          (dns_for c s o)
          (λ s'. Up b c s' s' (ResolverUp wanted ipv6))
          (Undone b)
  unfolding dns_for
  dns_for-Up s none e = record { at = λ w h. ground arith }
  dns_for-Up s (some d) e = Ensures-bind (report-Up b free c s s enabling_dns) λ u.
      Ensures-bind (checked-Up b free c s s) λ u. Ensures-bind (owned_dns s d e) λ u.
        Ensures-bind (captured_dns s d) λ u.
          Ensures-bind (verified_dns s d (λ w. w.env.number w.tick)) λ now.
            let s' : State = record s {
              system_dns = some (record d { owned = true; verified_at = now });
            } in
            Ensures-bind
              (saved-Up b free c s' (record s { system_dns = some (record d { owned = true }) }))
              λ u. Ensures-pure _ s' (λ w h. h)

  proxy_taken :
      (s : State) (p : ProxySnapshot)
      → s.system_proxy ≡ some p
      → Ensures
          (Up b c s s (ResolverUp wanted ipv6))
          (attempt c s true (enable_system_proxy c.mixed_port))
          (λ u. IsRunning b c wanted ipv6 s)
          (Undone b)
  unfolding enable_system_proxy
  proxy_taken s p e =
      attempt-Undone b free c s true true (record { at = λ w h. ground arith }) (λ e. e)

  pub proxy_for-IsRunning :
      (s : State) (o : Option ProxySnapshot)
      → s.system_proxy ≡ o
      → Ensures
          (Up b c s s (ResolverUp wanted ipv6))
          (proxy_for c s o)
          (λ u. IsRunning b c wanted ipv6 s)
          (Undone b)
  unfolding proxy_for
  proxy_for-IsRunning s none e = record { at = λ w h. ground arith }
  proxy_for-IsRunning s (some p) e =
      Ensures-bind (report-Up b free c s s enabling_proxy)
        λ u. Ensures-bind (checked-Up b free c s s) λ u. proxy_taken s p e

  pub warmed-IsRunning :
      (s : State)
      → Ensures
          (IsRunning b c wanted ipv6 s)
          (warm_managed_tailscale c)
          (λ u. IsRunning b c wanted ipv6 s)
          (Undone b)
  unfolding warm_managed_tailscale ◌>>=◌
  warmed-IsRunning s =
      Ensures-when (not c.tailscale_enabled) _ _ (λ off. record { at = λ w h. h })
        (λ on. record { at = λ w h. ground arith })

  pub last_check :
      (s : State)
      → Ensures
          (IsRunning b c wanted ipv6 s)
          (attempt c s (is_some s.system_proxy) check_context)
          (λ u. IsRunning b c wanted ipv6 s)
          (Undone b)
  unfolding check_context
  last_check s =
      attempt-Undone b free c s (is_some s.system_proxy) (is_some s.system_proxy)
        (record { at = λ w h. ground arith }) (λ e. e)
