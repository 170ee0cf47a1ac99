-- ===== src/Gateway/Tracking/Undo.antt =====
-- A rollback and a stop undo all that the state records, in the order that never leaves the
-- resolver or the proxy on an engine that has stopped.
use opensurge_fnos.Base.{Bool, Option, arith, false, none, not, refl, some, true, ◌≡◌}
use opensurge_fnos.Exec.{pure, ◌>>=◌}
use opensurge_fnos.Exec.Rules.{Ensures, Ensures-bind, Ensures-when}
use opensurge_fnos.Gateway.Rollback.{restore_proxy_if, undo_takeover}
use opensurge_fnos.Gateway.Services.{restore_dns_snapshot, restore_system_proxy}
use opensurge_fnos.Gateway.Stop.{give_back_proxy, stop_services}
use opensurge_fnos.Gateway.Tracked.{restore_dns}
use opensurge_fnos.Gateway.Tracking.{AllBack, DnsBack, ProxyBack}
use opensurge_fnos.Gateway.Tracking.Stops.{
  Kept, Never, Stage, dnsmasq-Stage, firewall-Stage, forwarding-Stage, ipv6-Stage, mihomo-Stage,
}
use opensurge_fnos.Gateway.Types.{
  Call, Config, DnsSnapshot, Err, Phase, State, cleanup_failed, dns_retained, proxy_retained,
  restoring_network, restoring_system_dns, rollback_failed, stopping_dns, stopping_ipv6,
  stopping_mihomo, uncleaned,
}
use opensurge_fnos.Gateway.World.{Host, World, observe, report}

-- Something of the gateway may be left: a rollback says so in its error, or a call that failed has
-- failed to undo what it had done itself.
abbrev pub cleanup_missed : Err → Bool
cleanup_missed (uncleaned k) = true
cleanup_missed (dns_retained cause e) = true
cleanup_missed (proxy_retained cause e) = true
cleanup_missed (rollback_failed cause e) = true
cleanup_missed (cleanup_failed cause e) = true
cleanup_missed e = false

-- An error after which no cleanup was missed leaves the host `b` and no state file.
abbrev pub Undone : Host → Err → World → Type 0
Undone b e w = cleanup_missed e ≡ false → (w.host ≡ b) × (w.file ≡ none)

module _ (b : Host) (s : State) (t : Bool) (f : Option State) where
  pub report-Kept :
      {X : Err → World → Type 0} (p : Phase)
      → Ensures (Kept b s t f) (report p) (λ u. Kept b s t f) X
  unfolding report
  report-Kept p = record { at = λ w h. (h.0, h.1) }

  pub observe-Kept :
      {A : Type 0} {X : Err → World → Type 0} (k : Call) (g : World → A)
      → Ensures (Kept b s t f) (observe k g) (λ u. Kept b s t f) X
  unfolding observe
  observe-Kept k g = record { at = λ w h. (h.0, h.1) }

  report-Stage :
      {Back : Host → Host → Type 0} (acc : Option Err) (p : Phase)
      → Ensures (Stage b s t f Back acc) (report p) (λ u. Stage b s t f Back acc) Never
  unfolding report
  report-Stage acc p = record {
    at = λ w h. record { tracks = h.tracks; file = h.file; back = h.back };
  }

  owned_back :
      (d : DnsSnapshot)
      → s.system_dns ≡ some d
      → d.owned ≡ true
      → Ensures
          (Kept b s t f)
          (restore_dns_snapshot d)
          (λ o w. Kept b s t f w × DnsBack b w.host)
          (λ e. Kept b s t f)
  unfolding restore_dns_snapshot
  owned_back d recorded owned = record { at = λ w h. ground arith }

  unowned_back :
      (d : DnsSnapshot)
      → s.system_dns ≡ some d
      → not d.owned ≡ true
      → Ensures {E = Err}
          (Kept b s t f)
          (pure false)
          (λ o w. Kept b s t f w × DnsBack b w.host)
          (λ e. Kept b s t f)
  unowned_back d recorded foreign = record { at = λ w h. ground arith }

  restore_dns-DnsBack :
      (o : Option DnsSnapshot)
      → s.system_dns ≡ o
      → Ensures
          (Kept b s t f)
          (restore_dns o)
          (λ o w. Kept b s t f w × DnsBack b w.host)
          (λ e. Kept b s t f)
  unfolding restore_dns
  restore_dns-DnsBack none e = record { at = λ w h. ground arith }
  restore_dns-DnsBack (some d) e = Ensures-when _ _ _ (unowned_back d e) (λ owned.
      Ensures-bind (report-Kept restoring_system_dns) (λ u. owned_back d e (ground arith)))

  pub dns_back :
      Ensures
        (Kept b s t f)
        (restore_dns s.system_dns)
        (λ o w. Kept b s t f w × DnsBack b w.host)
        (λ e. Kept b s t f)
  dns_back = restore_dns-DnsBack s.system_dns refl

  -- The proxy is given back where the state holds a snapshot and it may have been set.
  pub proxy_back :
      (restore : Bool)
      → (t ≡ true → restore ≡ true)
      → Ensures
          (λ w. Kept b s t f w × DnsBack b w.host)
          (restore_proxy_if restore s.system_proxy)
          (λ u w. Kept b s t f w × ProxyBack b w.host)
          (λ e. Kept b s t f)
  unfolding restore_proxy_if restore_system_proxy
  proxy_back restore enough = record { at = λ w h. ground arith }

  pub given_back :
      Ensures
        (λ w. Kept b s t f w × DnsBack b w.host)
        (give_back_proxy s.system_proxy)
        (λ u w. Kept b s t f w × ProxyBack b w.host)
        (λ e. Kept b s t f)
  unfolding give_back_proxy restore_system_proxy ◌>>=◌
  given_back = record { at = λ w h. ground arith }

  pub begin-Stage :
      (w : World) → Kept b s t f w × ProxyBack b w.host → Stage b s t f ProxyBack none w
  begin-Stage w h = record { tracks = h.0.0; file = h.0.1; back = λ e. h.1 }

  pub undo_takeover-Stage :
      (c : Config)
      → Ensures (Stage b s t f ProxyBack none) (undo_takeover c s) (Stage b s t f AllBack) Never
  unfolding undo_takeover
  undo_takeover-Stage c = Ensures-bind (dnsmasq-Stage b s t f none) λ acc.
      Ensures-bind (ipv6-Stage b s t f c acc) λ acc.
        Ensures-bind (mihomo-Stage b s t f acc)
          λ acc. Ensures-bind (firewall-Stage b s t f acc) λ acc. forwarding-Stage b s t f acc

  pub stop_services-Stage :
      (c : Config)
      → Ensures (Stage b s t f ProxyBack none) (stop_services c s) (Stage b s t f AllBack) Never
  unfolding stop_services
  stop_services-Stage c = Ensures-bind (report-Stage none stopping_dns) λ u.
      Ensures-bind (dnsmasq-Stage b s t f none) λ acc.
        Ensures-bind (report-Stage acc stopping_ipv6) λ u.
          Ensures-bind (ipv6-Stage b s t f c acc) λ acc.
            Ensures-bind (report-Stage acc stopping_mihomo) λ u.
              Ensures-bind (mihomo-Stage b s t f acc) λ acc.
                Ensures-bind (report-Stage acc restoring_network)
                  λ u. Ensures-bind (firewall-Stage b s t f acc) λ acc. forwarding-Stage b s t f acc
