-- ===== src/Gateway/Tracking/Plan.antt =====
-- The first half of a start ends with a state file that records an untouched host.
use opensurge_fnos.Base.{Option, arith, false, is_some, none, not, refl, some, ◌∙◌, ◌≡◌}
use opensurge_fnos.Exec.{◌>>=◌}
use opensurge_fnos.Exec.Rules.{Ensures, Ensures-bind, Ensures-given, Ensures-pure, Ensures-when}
use opensurge_fnos.Gateway.Quiet.{Quiet-ask, Quiet-check_context, Quiet-report}
use opensurge_fnos.Gateway.Services.{prepare_system_dns, prepare_system_proxy}
use opensurge_fnos.Gateway.Start.Plan.{
  Plan, prepare_start, snapshot_dns, snapshot_proxy, with_snapshot,
}
use opensurge_fnos.Gateway.Tracking.{DnsRecorded, ProxyRecorded, dns_owned}
use opensurge_fnos.Gateway.Tracking.Undo.{Undone}
use opensurge_fnos.Gateway.Tracking.Validated.{Serves, Untouched, quiet}
use opensurge_fnos.Gateway.Types.{Config, DnsSnapshot, manage_system_dns}
use opensurge_fnos.Gateway.World.{Host}

-- The snapshots are those of the host, and are taken where the configuration asks for them.
pub record Fits (b : Host) (c : Config) (plan : Plan) : Type 0 where
  pub serves : Serves c plan.config
  pub dns : DnsRecorded b.resolver plan.dns_snapshot
  pub unowned : dns_owned plan.dns_snapshot ≡ false
  pub dns_managed : is_some plan.dns_snapshot ≡ manage_system_dns c
  pub proxy : ProxyRecorded b.proxy b.proxy plan.proxy_snapshot
  pub proxy_managed : is_some plan.proxy_snapshot ≡ c.system_proxy_enabled

module _ (b : Host) where
  fitted_proxy :
      (c : Config)
      → Ensures
          (Untouched b)
          (snapshot_proxy c)
          (λ o w.
            Untouched b w
            × (ProxyRecorded b.proxy b.proxy o × (is_some o ≡ c.system_proxy_enabled)))
          (Undone b)
  unfolding snapshot_proxy prepare_system_proxy ◌>>=◌
  fitted_proxy c =
      Ensures-when (not c.system_proxy_enabled) _ _ (λ off. record { at = λ w h. ground arith })
        (λ on. record { at = λ w h. ground arith })

  fitted_dns :
      (c : Config)
      → Ensures
          (Untouched b)
          (snapshot_dns c)
          (λ o w.
            Untouched b w
            × (DnsRecorded b.resolver o
                × (dns_owned o ≡ false)
                × (is_some o ≡ manage_system_dns c)))
          (Undone b)
  unfolding snapshot_dns prepare_system_dns ◌>>=◌
  fitted_dns c =
      Ensures-when (not (manage_system_dns c)) _ _ (λ off. record { at = λ w h. ground arith })
        (λ on. record { at = λ w h. ground arith })

  with_snapshot-Serves :
      (c c' : Config) (o : Option DnsSnapshot) → Serves c c' → Serves c (with_snapshot c' o)
  unfolding with_snapshot
  with_snapshot-Serves c c' none s = s
  with_snapshot-Serves c c' (some d) s = ground arith

  pub Serves-managed : (c c' : Config) → Serves c c' → manage_system_dns c' ≡ manage_system_dns c
  unfolding manage_system_dns
  Serves-managed c c' s = ground arith

  pub prepare_start-Fits :
      (c : Config) (plan : Plan)
      → Serves c plan.config
      → Ensures
          (Untouched b)
          (prepare_start plan)
          (λ plan' w. Untouched b w × (Fits b c plan' × (plan'.resolution ≡ plan.resolution)))
          (Undone b)
  unfolding prepare_start
  prepare_start-Fits c plan s = Ensures-bind (fitted_proxy plan.config) λ proxy. Ensures-given λ p.
      Ensures-bind (fitted_dns plan.config) λ dns. Ensures-given λ d.
        Ensures-bind (quiet b (Quiet-report _)) λ u. Ensures-bind (quiet b (Quiet-ask _)) λ u.
          Ensures-bind (quiet b (Quiet-ask _)) λ u. Ensures-bind (quiet b (Quiet-ask _)) λ u.
            Ensures-bind (quiet b (Quiet-report _)) λ u. Ensures-bind (quiet b (Quiet-ask _)) λ u.
              Ensures-bind (quiet b Quiet-check_context) λ u. Ensures-pure _ _ (λ w h. (
                h,
                (
                  record {
                    serves = with_snapshot-Serves c plan.config dns s;
                    dns = d.0;
                    unowned = d.1;
                    dns_managed = d.2 ∙ Serves-managed c plan.config s;
                    proxy = p.0;
                    proxy_managed = p.1 ∙ s.proxy_enabled;
                  },
                  refl,
                ),
              ))
