-- ===== src/Config/Ranges.antt =====
-- The DHCP range of an accepted configuration.
use native.Mathlib.Nat.{mod-lt}
use opensurge_fnos.Base.{
  Bool, Option, arith, if_holds, leb, none, not, refl, some, subst, sym, true, ℕ, ◌%◌, ◌&&◌, ◌+◌,
  ◌-◌, ◌<◌, ◌||◌, ◌≡◌, ◌≢◌, ◌≤◌,
}
use opensurge_fnos.Config.Accepted.{accepted_mode, accepted_sections, both, must_holds}
use opensurge_fnos.Config.Addresses.{range_inside, validate_dhcp_range_in_lan}
use opensurge_fnos.Config.Types.{
  Config, Outside, lan_scope, same_wifi_dhcp_mode, shares_lan, tun_enabled,
}
use opensurge_fnos.Config.Validate.{validate, validate_dhcp, validate_mode_of}
use opensurge_fnos.Exec.{ok}
use opensurge_fnos.Lan.Offsets.{block-positive, contained, contains-host}
use opensurge_fnos.Lan.Scope.{Scope, block, broadcast, contains_ip, network, usable_host}
use opensurge_fnos.Text.{text_eq}

-- Between two assignable addresses of a subnet every address is assignable.
usable_between :
    (s : Scope) (start end ip : ℕ)
    → usable_host s start ≡ true
    → usable_host s end ≡ true
    → start ≤ ip
    → ip ≤ end
    → usable_host s ip ≡ true
unfolding usable_host broadcast
usable_between s start end ip hs he low high =
    let start_in : contains_ip s start ≡ true = ground (arith, hs) in
    let end_in : contains_ip s end ≡ true = ground (arith, he) in
    let from : start ≡ network s + start % block s = contained s start start_in in
    let to : end ≡ network s + end % block s = contained s end end_in in
    let below : end % block s < block s = mod-lt end (block-positive s) in
    let start_apart : start ≢ network s = λ e. ground (arith, hs, start_in) in
    let end_apart : end ≢ network s + (block s - 1) = λ e. ground (arith, he, end_in) in
    let host : ip ≡ network s + (ip - network s) = omega (arith, from, low) in
    let inside : contains_ip s ip ≡ true =
      subst (λ a. contains_ip s a ≡ true) (sym host)
        (contains-host s (ip - network s) (omega (arith, from, to, below, low, high))) in
    let after : ip ≢ network s = λ e. start_apart (omega (arith, from, low, e)) in
    let before : ip ≢ network s + (block s - 1) =
      λ e. end_apart (omega (arith, to, below, high, e)) in
    ground (arith, inside, after, before)

range_checked :
    (s : Scope) (a b : Option ℕ)
    → range_inside s a b ≡ none
    → (start : ℕ) × (end : ℕ) × (a ≡ some start)
      × (b ≡ some end)
      × (start ≤ end)
      × ((ip : ℕ) → start ≤ ip → ip ≤ end → (usable_host s ip ≡ true) × (ip ≢ s.gateway))
unfolding range_inside
range_checked s none b h = absurd cc
range_checked s (some start) none h = absurd cc
range_checked s (some start) (some end) h =
    let order = (both _ _ h).1 in
    let hosts = (both _ _ order).1 in
    let apart = (both _ _ hosts).1 in
    let ordered : leb start end ≡ true = must_holds _ _ (both _ _ order).0 in
    let usable : usable_host s start && usable_host s end ≡ true =
      must_holds _ _ (both _ _ hosts).0 in
    let outside : not (leb start s.gateway && leb s.gateway end) ≡ true = must_holds _ _ apart in
    (
      start,
      end,
      refl,
      refl,
      ground (arith, ordered),
      λ ip low high. (
        usable_between s start end ip (ground (arith, usable)) (ground (arith, usable)) low high,
        λ e. ground (arith, outside),
      ),
    )

dhcp_range :
    (o : Outside) (c : Config) (s : Scope)
    → c.dhcp.enabled ≡ true
    → validate_dhcp o c s ≡ none
    → validate_dhcp_range_in_lan o c s ≡ none
unfolding validate_dhcp
dhcp_range o c s on h =
    if_holds (λ x. x ≡ none → validate_dhcp_range_in_lan o c s ≡ none) (not c.dhcp.enabled) none _
      (λ e. absurd (ground (arith, on, e)))
      (λ e h.
        let a = (both _ _ h).1 in
        let b = (both _ _ a).1 in let d = (both _ _ b).1 in (both _ _ d).1)
      h

-- In an accepted configuration of the takeover mode DHCP and TUN are on, and the DHCP range is one
-- of which every address can be assigned on the LAN and is not the gateway's.
pub accepted_takeover_range :
    (o : Outside) (c : Config) (check : Bool) (s : Scope)
    → validate o c check ≡ none
    → lan_scope o c ≡ ok s
    → text_eq c.gateway.mode same_wifi_dhcp_mode ≡ true
    → (c.dhcp.enabled ≡ true)
      × (tun_enabled c.transparent ≡ true)
      × ((start : ℕ) × (end : ℕ) × (o.net.ipv4_of c.dhcp.range_start ≡ some start)
          × (o.net.ipv4_of c.dhcp.range_end ≡ some end)
          × (start ≤ end)
          × ((ip : ℕ) → start ≤ ip → ip ≤ end → (usable_host s ip ≡ true) × (ip ≢ s.gateway)))
unfolding validate_mode_of validate_dhcp validate_dhcp_range_in_lan shares_lan
accepted_takeover_range o c check s h known mode =
    let a = (both _ _ (accepted_mode o c check s h known)).1 in
    let b = (both _ _ a).1 in
    let d = (both _ _ b).1 in
    let e = (both _ _ d).1 in
    let tun : not (shares_lan c.gateway) || tun_enabled c.transparent ≡ true =
      must_holds _ _ (both _ _ b).0 in
    let dhcp : not (text_eq c.gateway.mode same_wifi_dhcp_mode) || c.dhcp.enabled ≡ true =
      must_holds _ _ e in
    let enabled : c.dhcp.enabled ≡ true = ground (arith, dhcp, mode) in
    (
      enabled,
      ground (arith, tun, mode),
      range_checked s _ _ (dhcp_range o c s enabled (accepted_sections o c check s h known).dhcp),
    )
