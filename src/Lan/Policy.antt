-- ===== src/Lan/Policy.antt =====
-- A device policy on one LAN (internal/device/policy.go): its validation there, and the part of it
-- that is active.
use opensurge_fnos.Base.{
  Bool, List, Option, [], false, if◌then◌else◌, none, not, some, ℕ, ◌==◌, ◌∷◌,
}
use opensurge_fnos.Device.Accept.{has_ip, validate_policy_set}
use opensurge_fnos.Device.Compile.{is_left_out}
use opensurge_fnos.Device.Policy.{
  ManagedDevice, Parsers, PolicyErr, PolicySet, bad_ipv4, duplicate_ipv4, first_of, require, ◌>>?◌,
}
use opensurge_fnos.Exec.{Result, err, ok}
use opensurge_fnos.Lan.Scope.{Scope, contains_ip, usable_host}
use opensurge_fnos.Text.{Text}

unfoldable pub in_lan : Scope → Option ℕ → Bool
unfolding contains_ip
in_lan s none = false
in_lan s (some ip) = contains_ip s ip

unfoldable pub if_in_lan : Scope → ℕ → List ℕ → List ℕ
unfolding contains_ip
if_in_lan s ip ips = if not (contains_ip s ip) then ips else ip ∷ ips

unfoldable pub add_protected :
    Scope → Text → Option ℕ → Result PolicyErr (List ℕ) → Result PolicyErr (List ℕ)
unfolding if_in_lan
add_protected s value none rest = err (bad_ipv4 value)
add_protected s value (some ip) (err e) = err e
add_protected s value (some ip) (ok ips) = ok (if_in_lan s ip ips)

module _ (net : Parsers) (s : Scope) where
  -- The protected addresses on the LAN.
  unfoldable pub protected_ips : List Text → Result PolicyErr (List ℕ)
  unfolding add_protected
  protected_ips [] = ok []
  protected_ips (v ∷ vs) = add_protected s v (net.ipv4_of v) (protected_ips vs)

  unfoldable pub check_lan_ip : ManagedDevice → List ℕ → ℕ → Option PolicyErr
  unfolding contains_ip usable_host has_ip
  check_lan_ip d ips ip =
      if not (contains_ip s ip)
      then none
      else require (usable_host s ip) (bad_ipv4 d.id)
        >>? require (not (ip == s.gateway)) (bad_ipv4 d.id)
        >>? require (not (has_ip ip ips)) (duplicate_ipv4 ip)

  unfoldable pub check_lan_address : ManagedDevice → List ℕ → Option ℕ → Option PolicyErr
  unfolding check_lan_ip
  check_lan_address d ips none = none
  check_lan_address d ips (some ip) = check_lan_ip d ips ip

  unfoldable pub check_lan_device : Bool → List ℕ → ManagedDevice → Option PolicyErr
  unfolding check_lan_address is_left_out
  check_lan_device ip_only ips d =
      if is_left_out ip_only d then none else check_lan_address d ips (net.ipv4_of d.ipv4)

  unfoldable pub check_on_lan :
      Bool → List ManagedDevice → Result PolicyErr (List ℕ) → Option PolicyErr
  unfolding check_lan_device
  check_on_lan ip_only ds (err e) = some e
  check_on_lan ip_only ds (ok ips) = first_of (check_lan_device ip_only ips) ds

  unfoldable pub validate_policy_set_for_lan : PolicySet → List Text → Bool → Option PolicyErr
  unfolding check_on_lan protected_ips validate_policy_set
  validate_policy_set_for_lan set protected ip_only =
      validate_policy_set net set >>? check_on_lan ip_only set.devices (protected_ips protected)

  unfoldable pub out_of_lan_devices : List ManagedDevice → List Text
  unfolding in_lan
  out_of_lan_devices [] = []
  out_of_lan_devices (d ∷ ds) =
      let rest = out_of_lan_devices ds in
      if not (in_lan s (net.ipv4_of d.ipv4)) then d.id ∷ rest else rest

  unfoldable pub devices_in_lan : List ManagedDevice → List ManagedDevice
  unfolding in_lan
  devices_in_lan [] = []
  devices_in_lan (d ∷ ds) =
      let rest = devices_in_lan ds in if in_lan s (net.ipv4_of d.ipv4) then d ∷ rest else rest

  unfoldable pub active_policy_set : PolicySet → PolicySet
  unfolding devices_in_lan
  active_policy_set set = record set { devices = devices_in_lan set.devices }
