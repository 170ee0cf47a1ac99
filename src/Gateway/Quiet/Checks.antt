-- ===== src/Gateway/Quiet/Checks.antt =====
-- resolveIPv6, preflight, the reservation probes and the whole reload candidate are quiet.
use opensurge_fnos.Base.{List, Option, [], none, some, ℕ, ◌∷◌}
use opensurge_fnos.Gateway.Preflight.{
  ask_native, check_bundle, check_interfaces, check_lan_ip, check_lan_ip_at, check_reservations,
  detect_native, lan_ip_on, no_conflicts, preflight, probe_all, resolve_as, resolve_ipv6,
}
use opensurge_fnos.Gateway.Quiet.{
  Quiet, Quiet-answer, Quiet-ask, Quiet-bind, Quiet-collect, Quiet-or_else, Quiet-pure, Quiet-raise,
  Quiet-when, quiet_rules,
}
use opensurge_fnos.Gateway.Reload.{validate_candidate}
use opensurge_fnos.Gateway.Tracked.{raise_some}
use opensurge_fnos.Gateway.Types.{
  Bundle, Config, Err, Mode, Reservation, TunIpv6, off, same_wifi_dhcp,
}
use opensurge_fnos.Gateway.World.{Iface}
use opensurge_fnos.Text.{Text}

Quiet-ask_native : Quiet ask_native
unfolding ask_native
Quiet-ask_native = Quiet-bind (Quiet-answer _ _) (λ found. Quiet-pure _)

Quiet-detect_native : Quiet detect_native
unfolding detect_native
Quiet-detect_native = Quiet-or_else {m = ask_native} Quiet-ask_native (λ e. Quiet-pure none)

Quiet-resolve_as : (t : TunIpv6) (c : Config) → Quiet (resolve_as t c)
unfolding resolve_as
Quiet-resolve_as off c = search quiet_rules
Quiet-resolve_as _ c = search (quiet_rules, Quiet-detect_native)

pub Quiet-resolve_ipv6 : (c : Config) → Quiet (resolve_ipv6 c)
unfolding resolve_ipv6
Quiet-resolve_ipv6 c = Quiet-resolve_as c.tun_ipv6 c

Quiet-no_conflicts : (a : ℕ) (g : Text) (is : List Iface) → Quiet (no_conflicts a g is)
unfolding no_conflicts
Quiet-no_conflicts a g [] = search quiet_rules
Quiet-no_conflicts a g (i ∷ is) =
    let rest = Quiet-no_conflicts a g is in
    Quiet-when _ rest (Quiet-bind (Quiet-answer _ _) (λ addrs. Quiet-when _ (Quiet-raise _) rest))

Quiet-check_lan_ip_at : (o : Option ℕ) (g : Text) → Quiet (check_lan_ip_at o g)
unfolding check_lan_ip_at lan_ip_on
Quiet-check_lan_ip_at none g = search quiet_rules
Quiet-check_lan_ip_at (some a) g = search (quiet_rules, Quiet-no_conflicts)

Quiet-check_lan_ip : (c : Config) → Quiet (check_lan_ip c)
unfolding check_lan_ip
Quiet-check_lan_ip c = Quiet-check_lan_ip_at c.lan_ip c.interface

Quiet-check_interfaces : (c : Config) → Quiet (check_interfaces c)
unfolding check_interfaces
Quiet-check_interfaces c = search quiet_rules

pub Quiet-preflight : (c : Config) → Quiet (preflight c)
unfolding preflight
Quiet-preflight c = search (quiet_rules, Quiet-check_interfaces, Quiet-check_lan_ip) depth 20

Quiet-probe_all : (rs : List Reservation) → Quiet (probe_all rs)
unfolding probe_all
Quiet-probe_all [] = search quiet_rules
Quiet-probe_all (r ∷ rs) =
    Quiet-bind (Quiet-collect none (Quiet-ask _))
      (λ mine. Quiet-bind (Quiet-probe_all rs) (λ later. Quiet-pure _))

Quiet-raise_some : (o : Option Err) → Quiet (raise_some o)
Quiet-raise_some none = Quiet-pure tt
Quiet-raise_some (some e) = Quiet-raise e

Quiet-check_bundle : (m : Mode) (o : Option Bundle) → Quiet (check_bundle m o)
unfolding check_bundle
Quiet-check_bundle same_wifi_dhcp (some b) =
    Quiet-bind (Quiet-probe_all b.reservations) Quiet-raise_some
Quiet-check_bundle _ _ = Quiet-pure tt

pub Quiet-check_reservations : (c : Config) → Quiet (check_reservations c)
unfolding check_reservations
Quiet-check_reservations c = Quiet-check_bundle c.mode c.bundle

pub ruleset check_rules =
    (quiet_rules, Quiet-resolve_ipv6, Quiet-preflight, Quiet-check_reservations)

pub Quiet-validate_candidate : (c : Config) → Quiet (validate_candidate c)
unfolding validate_candidate
Quiet-validate_candidate c = search check_rules depth 40
