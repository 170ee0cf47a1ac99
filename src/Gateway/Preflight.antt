-- ===== src/Gateway/Preflight.antt =====
-- What the manager checks before it changes the host: resolveIPv6, preflight, checkLANIP and
-- checkLANIPConflicts of internal/gateway/manager.go, and internal/gateway/reservation_conflicts.go.
use opensurge_fnos.Base.{
  Bool, List, Option, [], false, if◌then◌else◌, none, not, some, true, ℕ, ◌==◌, ◌||◌, ◌∷◌,
}
use opensurge_fnos.Exec.{or_else, pure, raise, when◌run◌otherwise◌, ◌>>=◌, ◌>>◌}
use opensurge_fnos.Gateway.Tracked.{collect, raise_some}
use opensurge_fnos.Gateway.Types.{
  Bundle, Config, Err, Ipv6Reason, Mode, Reservation, TunIpv6, always, auto, available, check,
  detection_failed, dhcp_service, disabled, forced, forced_unknown, interface_addrs,
  interface_by_name, interfaces, interfaces_must_differ, is_same_lan, lan_ip_duplicate,
  lan_ip_missing, lan_ip_not_ipv4, mihomo_service, native_ipv6, needs_same_interface, off,
  packet_service, pf_service, probe, same_wifi_dhcp, sysctl_service, unavailable,
}
use opensurge_fnos.Gateway.World.{Iface, M, answer, ask}
use opensurge_fnos.Text.{Text, text_eq, trim_space}

pub record Resolution : Type 0 where
  pub requested : TunIpv6
  pub native_available : Bool
  pub effective : Bool
  pub reason : Ipv6Reason

unfoldable pub without_ipv6 : Config → Config
without_ipv6 c = record c { tun_ipv6 = off }

-- resolveIPv6 mutates the manager's configuration, so the new one comes back too.
unfoldable pub resolve_auto : Config → Option Bool → Config × Resolution
unfolding without_ipv6
resolve_auto c none = (
  without_ipv6 c,
  record {
    requested = c.tun_ipv6;
    native_available = false;
    effective = false;
    reason = detection_failed;
  },
)
resolve_auto c (some true) = (
  c,
  record { requested = c.tun_ipv6; native_available = true; effective = true; reason = available },
)
resolve_auto c (some false) = (
  without_ipv6 c,
  record {
    requested = c.tun_ipv6;
    native_available = false;
    effective = false;
    reason = unavailable;
  },
)

unfoldable pub resolve_always : Config → Option Bool → Config × Resolution
resolve_always c none = (
  c,
  record {
    requested = c.tun_ipv6;
    native_available = false;
    effective = true;
    reason = forced_unknown;
  },
)
resolve_always c (some native) = (
  c,
  record { requested = c.tun_ipv6; native_available = native; effective = true; reason = forced },
)

unfoldable pub ask_native : M (Option Bool)
unfolding answer
ask_native = do found ← answer native_ipv6 (λ w. w.env.flag w.tick); pure (some found)

unfoldable pub detect_native : M (Option Bool)
unfolding ask_native
detect_native = or_else ask_native (λ e. pure none)

unfoldable pub resolve_as : TunIpv6 → Config → M (Config × Resolution)
unfolding detect_native resolve_auto resolve_always
resolve_as off c = pure (
  c,
  record { requested = c.tun_ipv6; native_available = false; effective = false; reason = disabled },
)
resolve_as auto c = do found ← detect_native; pure (resolve_auto c found)
resolve_as always c = do found ← detect_native; pure (resolve_always c found)

unfoldable pub resolve_ipv6 : Config → M (Config × Resolution)
unfolding resolve_as
resolve_ipv6 c = resolve_as c.tun_ipv6 c

unfoldable pub has_address : ℕ → List (Option ℕ) → Bool
has_address target [] = false
has_address target (none ∷ addrs) = has_address target addrs
has_address target (some a ∷ addrs) = a == target || has_address target addrs

unfoldable pub addrs_of : Text → List Iface → List (Option ℕ)
addrs_of name [] = []
addrs_of name (i ∷ ifaces) = if text_eq i.name name then i.addrs else addrs_of name ifaces

-- checkLANIPConflicts: no other interface may hold the LAN address.
unfoldable pub no_conflicts : ℕ → Text → List Iface → M (Unit {0})
unfolding answer has_address
no_conflicts target gateway [] = pure tt
no_conflicts target gateway (i ∷ ifaces) =
    let rest = no_conflicts target gateway ifaces in
    when text_eq i.name gateway run rest otherwise do
      addrs ← answer (interface_addrs i.name) (λ w. i.addrs)
      when has_address target addrs run raise (lan_ip_duplicate i.name) otherwise rest

unfoldable pub lan_ip_on : ℕ → Text → M (Unit {0})
unfolding answer ask has_address addrs_of no_conflicts
lan_ip_on target gateway = do
  ask (interface_by_name gateway)
  addrs ← answer (interface_addrs gateway) (λ w. addrs_of gateway w.env.ifaces)
  when not (has_address target addrs) run raise lan_ip_missing otherwise do
    ifaces ← answer interfaces (λ w. w.env.ifaces)
    no_conflicts target gateway ifaces

unfoldable pub check_lan_ip_at : Option ℕ → Text → M (Unit {0})
unfolding lan_ip_on
check_lan_ip_at none gateway = raise lan_ip_not_ipv4
check_lan_ip_at (some target) gateway = lan_ip_on target gateway

unfoldable pub check_lan_ip : Config → M (Unit {0})
unfolding check_lan_ip_at
check_lan_ip c = check_lan_ip_at c.lan_ip c.interface

-- The gateway's interfaces must be one on the same LAN, and two otherwise.
unfoldable pub check_interfaces : Config → M (Unit {0})
unfolding text_eq trim_space
check_interfaces c =
    let same = text_eq (trim_space c.interface) (trim_space c.upstream_interface) in
    when is_same_lan c.mode
    run (when not same run raise needs_same_interface otherwise pure tt)
    otherwise when same
    run raise interfaces_must_differ
    otherwise pure tt

abbrev wants_ipv6 : TunIpv6 → Bool
wants_ipv6 off = false
wants_ipv6 auto = true
wants_ipv6 always = true

unfoldable pub preflight : Config → M (Unit {0})
unfolding ask check_interfaces check_lan_ip
preflight c = do
  ask (check dhcp_service)
  ask (check mihomo_service)
  ask (check pf_service)
  ask (check sysctl_service)
  when wants_ipv6 c.tun_ipv6 run ask (check packet_service) otherwise pure tt
  check_interfaces c
  ask (interface_by_name c.interface)
  ask (interface_by_name c.upstream_interface)
  check_lan_ip c

abbrev first_error : Option Err → Option Err → Option Err
first_error none e = e
first_error (some e) _ = some e

-- Each reservation is probed once. The probes run on up to four workers; the first conflict in
-- the configured order is the one that is returned, so they are taken in that order here.
unfoldable pub probe_all : List Reservation → M (Option Err)
unfolding collect ask
probe_all [] = pure none
probe_all (r ∷ rs) = do
  mine ← collect none (ask (probe r))
  later ← probe_all rs
  pure (first_error mine later)

unfoldable pub check_bundle : Mode → Option Bundle → M (Unit {0})
unfolding probe_all
check_bundle same_wifi_dhcp (some b) = do failed ← probe_all b.reservations; raise_some failed
check_bundle _ _ = pure tt

unfoldable pub check_reservations : Config → M (Unit {0})
unfolding check_bundle
check_reservations c = check_bundle c.mode c.bundle
