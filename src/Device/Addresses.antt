-- ===== src/Device/Addresses.antt =====
-- The addresses of an accepted policy: DHCP reserves each for one device only.
use opensurge_fnos.Base.{
  All, List, Option, [], arith, false, if◌then◌else◌, map, none, not, refl, some, true, ℕ, ◌∷◌, ◌≡◌,
  ◌≢◌,
}
use opensurge_fnos.Device.Accept.{
  Seen, after_device, check_device, check_devices, check_ip, check_mac, check_profile,
  check_template, has_ip, has_mac, normalized_mac, profile_ids, rule_set_ids, template_ids,
  validate_policy_set, with_ip,
}
use opensurge_fnos.Device.Expansion.{in_turn}
use opensurge_fnos.Device.Names.{valid_id, validate_device_name}
use opensurge_fnos.Device.Policy.{
  ManagedDevice, Parsers, PolicySet, bad_id, duplicate_id, first_of, has, require,
}
use opensurge_fnos.Text.{Text}

kept_ip :
    (a : ℕ) (ips : List ℕ) (o : Option ℕ) → has_ip a ips ≡ true → has_ip a (with_ip o ips) ≡ true
unfolding with_ip has_ip
kept_ip a ips none h = h
kept_ip a ips (some b) h = ground arith

added_ip : (a : ℕ) (o : Option ℕ) (ips : List ℕ) → o ≡ some a → has_ip a (with_ip o ips) ≡ true
unfolding with_ip has_ip
added_ip a none ips h = absurd cc
added_ip a (some b) ips h = let same : b ≡ a = cc in ground arith

module _ (net : Parsers) where
  -- Every device has an address, and no later device has the same.
  abbrev pub Apart : List ManagedDevice → Type 0
  Apart [] = Unit
  Apart (d ∷ ds) =
      ((a : ℕ) × (net.ipv4_of d.ipv4 ≡ some a) × All (λ x. net.ipv4_of x.ipv4 ≢ some a) ds)
      × Apart ds

  -- What check_device says of the address.
  address_checked :
      (profiles : List Text) (seen : Seen) (d : ManagedDevice)
      → check_device net profiles seen d ≡ none
      → check_ip d (net.ipv4_of d.ipv4) seen.ips ≡ none
  unfolding check_device
  address_checked profiles seen d accepted =
      let name = (in_turn (require (valid_id d.id) (bad_id d.id)) _ accepted).1 in
      let id = (in_turn (validate_device_name d.name) _ name).1 in
      let mac = (in_turn (require (not (has d.id seen.ids)) (duplicate_id d.id)) _ id).1 in
      let ip =
        (in_turn (if has_mac d then check_mac d (normalized_mac net d.mac) seen.macs else none) _
          mac).1 in
      (in_turn (check_ip d (net.ipv4_of d.ipv4) seen.ips) _ ip).0

  new_address :
      (d : ManagedDevice) (o : Option ℕ) (ips : List ℕ)
      → check_ip d o ips ≡ none
      → (a : ℕ) × (o ≡ some a) × (has_ip a ips ≡ false)
  unfolding check_ip
  new_address d none ips h = absurd cc
  new_address d (some a) ips h = (a, refl, ground arith)

  -- A device whose address was seen before is not accepted.
  fresh :
      (profiles : List Text) (seen : Seen) (a : ℕ) (ds : List ManagedDevice)
      → has_ip a seen.ips ≡ true
      → check_devices net profiles seen ds ≡ none
      → All (λ x. net.ipv4_of x.ipv4 ≢ some a) ds
  unfolding check_devices
  fresh profiles seen a [] there accepted = tt
  fresh profiles seen a (d ∷ ds) there accepted =
      let both = in_turn (check_device net profiles seen d) _ accepted in
      let (b, same, new) =
        new_address d (net.ipv4_of d.ipv4) seen.ips (address_checked profiles seen d both.0) in
      (
        λ again. cc,
        fresh profiles (after_device net seen d) a ds
            (kept_ip a seen.ips (net.ipv4_of d.ipv4) there) both.1,
      )

  devices-Apart :
      (profiles : List Text) (seen : Seen) (ds : List ManagedDevice)
      → check_devices net profiles seen ds ≡ none
      → Apart ds
  unfolding check_devices after_device
  devices-Apart profiles seen [] accepted = tt
  devices-Apart profiles seen (d ∷ ds) accepted =
      let both = in_turn (check_device net profiles seen d) _ accepted in
      let (b, same, new) =
        new_address d (net.ipv4_of d.ipv4) seen.ips (address_checked profiles seen d both.0) in
      (
        (
          b,
          same,
          fresh profiles (after_device net seen d) b ds
              (added_ip b (net.ipv4_of d.ipv4) seen.ips same) both.1,
        ),
        devices-Apart profiles (after_device net seen d) ds both.1,
      )

-- The last check of the validation.
pub devices_checked :
    (net : Parsers) (p : PolicySet)
    → validate_policy_set net p ≡ none
    → check_devices net
        (map (λ q. q.id) p.profiles)
        (record { ids = []; macs = []; ips = [] })
        p.devices
      ≡ none
unfolding validate_policy_set
devices_checked net p accepted =
    let sets = map (λ s. s.id) p.rule_sets in
    let a = (in_turn (profile_ids [] p.profiles) _ accepted).1 in
    let b = (in_turn (template_ids [] p.templates) _ a).1 in
    let c = (in_turn (rule_set_ids net [] p.rule_sets) _ b).1 in
    let d = (in_turn (first_of (check_template net sets p.templates) p.templates) _ c).1 in
    let e = (in_turn (first_of (check_profile net sets p.templates) p.profiles) _ d).1 in e

-- In a policy that validation accepts, every device has an IPv4 address, and no two devices have
-- the same, however they are written.
pub accepted_addresses-Apart :
    (net : Parsers) (p : PolicySet) → validate_policy_set net p ≡ none → Apart net p.devices
accepted_addresses-Apart net p accepted =
    devices-Apart net (map (λ q. q.id) p.profiles) _ p.devices (devices_checked net p accepted)
