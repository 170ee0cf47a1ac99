-- ===== src/Lan/Active.antt =====
-- The active part of a policy that validation accepts is accepted too, and compiles.
use opensurge_fnos.Base.{
  Bool, List, Option, [], arith, false, if_holds, if◌then◌else◌, map, none, not, refl, some, true,
  ℕ, ◌||◌, ◌∷◌, ◌≡◌,
}
use opensurge_fnos.Device.Accept.{
  Seen, after_device, check_device, check_devices, check_ip, check_mac, check_profile,
  check_template, has_ip, has_mac, normalized_mac, profile_ids, rule_set_ids, template_ids,
  validate_policy_set, with_ip, with_mac,
}
use opensurge_fnos.Device.Compilable.{CountableProfiles}
use opensurge_fnos.Device.Compile.{compile_policy_set}
use opensurge_fnos.Device.Compiled.{CompiledPolicy}
use opensurge_fnos.Device.Compiles.{accepted_policy-Compiles, kept_ids}
use opensurge_fnos.Device.Expansion.{in_turn}
use opensurge_fnos.Device.Names.{valid_id, validate_device_name}
use opensurge_fnos.Device.Policy.{
  ManagedDevice, Parsers, PolicyErr, PolicySet, bad_id, duplicate_id, duplicate_ipv4, duplicate_mac,
  first_of, has, require, ◌>>?◌,
}
use opensurge_fnos.Device.Resolution.{Resolution}
use opensurge_fnos.Exec.{ok}
use opensurge_fnos.Lan.Policy.{active_policy_set, devices_in_lan, in_lan}
use opensurge_fnos.Lan.Scope.{Scope}
use opensurge_fnos.Text.{Text, text_eq}

-- What was seen before, of a part of the devices.
record IsPartOf (a b : Seen) : Type 0 where
  ids : (t : Text) → has t a.ids ≡ true → has t b.ids ≡ true
  macs : (t : Text) → has t a.macs ≡ true → has t b.macs ≡ true
  ips : (n : ℕ) → has_ip n a.ips ≡ true → has_ip n b.ips ≡ true

-- A guard that holds of more holds of less.
weaker_guard :
    (a b : Bool) (e : PolicyErr)
    → (a ≡ true → b ≡ true)
    → require (not b) e ≡ none
    → require (not a) e ≡ none
weaker_guard true true e h g = g
weaker_guard true false e h g = absurd (cc (h refl))
weaker_guard false b e h g = refl

weaker_mac :
    (d : ManagedDevice) (m : Option Text) (a b : List Text)
    → ((t : Text) → has t a ≡ true → has t b ≡ true)
    → check_mac d m b ≡ none
    → check_mac d m a ≡ none
unfolding check_mac
weaker_mac d none a b h g = g
weaker_mac d (some m) a b h g = weaker_guard (has m a) (has m b) (duplicate_mac m) (h m) g

weaker_ip :
    (d : ManagedDevice) (m : Option ℕ) (a b : List ℕ)
    → ((n : ℕ) → has_ip n a ≡ true → has_ip n b ≡ true)
    → check_ip d m b ≡ none
    → check_ip d m a ≡ none
unfolding check_ip
weaker_ip d none a b h g = g
weaker_ip d (some m) a b h g = weaker_guard (has_ip m a) (has_ip m b) (duplicate_ipv4 m) (h m) g

then_checked : (a b : Option PolicyErr) → a ≡ none → b ≡ none → (a >>? b) ≡ none
then_checked none b ha hb = hb
then_checked (some e) b ha hb = absurd cc

module _ (net : Parsers) (profiles : List Text) where
  checked_before :
      (a b : Seen) (d : ManagedDevice)
      → IsPartOf a b
      → check_device net profiles b d ≡ none
      → check_device net profiles a d ≡ none
  unfolding check_device
  checked_before a b d part h =
      let id = in_turn (require (valid_id d.id) (bad_id d.id)) _ h in
      let name = in_turn (validate_device_name d.name) _ id.1 in
      let new = in_turn (require (not (has d.id b.ids)) (duplicate_id d.id)) _ name.1 in
      let mac =
        in_turn (if has_mac d then check_mac d (normalized_mac net d.mac) b.macs else none) _
          new.1 in
      let ip = in_turn (check_ip d (net.ipv4_of d.ipv4) b.ips) _ mac.1 in
      then_checked _ _ id.0 (
        then_checked _ _ name.0 (
          then_checked _ _ (weaker_guard (has d.id a.ids) (has d.id b.ids) _ (part.ids d.id) new.0)
            (then_checked _ _ (mac_before (has_mac d) mac.0) (
              then_checked _ _ (weaker_ip d (net.ipv4_of d.ipv4) a.ips b.ips part.ips ip.0) ip.1))))
    where
      mac_before :
          (m : Bool)
          → (if m then check_mac d (normalized_mac net d.mac) b.macs else none) ≡ none
          → (if m then check_mac d (normalized_mac net d.mac) a.macs else none) ≡ none
      mac_before true h = weaker_mac d (normalized_mac net d.mac) a.macs b.macs part.macs h
      mac_before false h = h

with_mac-kept :
    (m : Bool) (o : Option Text) (t : Text) (b : List Text)
    → has t b ≡ true
    → has t (with_mac m o b) ≡ true
unfolding with_mac has
with_mac-kept true none t b h = h
with_mac-kept true (some x) t b h = ground (arith, h)
with_mac-kept false o t b h = h

with_mac-grows :
    (m : Bool) (o : Option Text) (t : Text) (a b : List Text)
    → (has t a ≡ true → has t b ≡ true)
    → has t (with_mac m o a) ≡ true
    → has t (with_mac m o b) ≡ true
unfolding with_mac has
with_mac-grows true none t a b h g = h g
with_mac-grows true (some x) t a b h g = ground (arith, h, g)
with_mac-grows false o t a b h g = h g

with_ip-kept :
    (o : Option ℕ) (n : ℕ) (b : List ℕ) → has_ip n b ≡ true → has_ip n (with_ip o b) ≡ true
unfolding with_ip has_ip
with_ip-kept none n b h = h
with_ip-kept (some x) n b h = ground (arith, h)

with_ip-grows :
    (o : Option ℕ) (n : ℕ) (a b : List ℕ)
    → (has_ip n a ≡ true → has_ip n b ≡ true)
    → has_ip n (with_ip o a) ≡ true
    → has_ip n (with_ip o b) ≡ true
unfolding with_ip has_ip
with_ip-grows none n a b h g = h g
with_ip-grows (some x) n a b h g = ground (arith, h, g)

still : (x b : Bool) → b ≡ true → (x || b) ≡ true
still x b h = ground (arith, h)

either_grows : (x a b : Bool) → (a ≡ true → b ≡ true) → (x || a) ≡ true → (x || b) ≡ true
either_grows x a b h g = ground (arith, h, g)

module _ (net : Parsers) (d : ManagedDevice) (a b : Seen) (part : IsPartOf a b) where
  IsPartOf-kept : IsPartOf a (after_device net b d)
  unfolding after_device has
  IsPartOf-kept = record {
    ids = λ t h. still (text_eq t d.id) (has t b.ids) (part.ids t h);
    macs = λ t h. with_mac-kept (has_mac d) (normalized_mac net d.mac) t b.macs (part.macs t h);
    ips = λ n h. with_ip-kept (net.ipv4_of d.ipv4) n b.ips (part.ips n h);
  }

  IsPartOf-after : IsPartOf (after_device net a d) (after_device net b d)
  unfolding after_device has
  IsPartOf-after = record {
    ids = λ t h. either_grows (text_eq t d.id) (has t a.ids) (has t b.ids) (part.ids t) h;
    macs = λ t h.
        with_mac-grows (has_mac d) (normalized_mac net d.mac) t a.macs b.macs (part.macs t) h;
    ips = λ n h. with_ip-grows (net.ipv4_of d.ipv4) n a.ips b.ips (part.ips n) h;
  }

devices-accepted :
    (net : Parsers) (s : Scope) (profiles : List Text) (a b : Seen) (ds : List ManagedDevice)
    → IsPartOf a b
    → check_devices net profiles b ds ≡ none
    → check_devices net profiles a (devices_in_lan net s ds) ≡ none
unfolding check_devices devices_in_lan
devices-accepted net s profiles a b [] part h = refl
devices-accepted net s profiles a b (d ∷ ds) part h =
    let both = in_turn (check_device net profiles b d) _ h in
    let without =
      devices-accepted net s profiles a (after_device net b d) ds (IsPartOf-kept net d a b part)
        both.1 in
    let within =
      devices-accepted net s profiles (after_device net a d) (after_device net b d) ds
        (IsPartOf-after net d a b part) both.1 in
    if_holds (λ kept. check_devices net profiles a kept ≡ none) (in_lan s (net.ipv4_of d.ipv4)) _ _
      (λ _. then_checked _ _ (checked_before net profiles a b d part both.0) within) (λ _. without)

active-accepted :
    (net : Parsers) (s : Scope) (set : PolicySet)
    → validate_policy_set net set ≡ none
    → validate_policy_set net (active_policy_set net s set) ≡ none
unfolding validate_policy_set active_policy_set
active-accepted net s set accepted =
    let sets = map (λ x. x.id) set.rule_sets in
    let a = in_turn (profile_ids [] set.profiles) _ accepted in
    let b = in_turn (template_ids [] set.templates) _ a.1 in
    let c = in_turn (rule_set_ids net [] set.rule_sets) _ b.1 in
    let d = in_turn (first_of (check_template net sets set.templates) set.templates) _ c.1 in
    let e = in_turn (first_of (check_profile net sets set.templates) set.profiles) _ d.1 in
    then_checked _ _ a.0 (
      then_checked _ _ b.0 (
        then_checked _ _ c.0 (
          then_checked _ _ d.0 (
            then_checked _ _ e.0 (
              devices-accepted net s (map (λ q. q.id) set.profiles) _ _ set.devices
                (record { ids = λ t h. h; macs = λ t h. h; ips = λ n h. h }) e.1)))))

-- On every LAN the active part of a policy that validation accepts, and of whose rules an int can
-- count the combinations, is accepted and compiles without an error, whatever targets it is resolved against, into its devices on the LAN that are
-- not left out.
pub active_policy-Compiles :
    (net : Parsers) (print_ip : ℕ → Text) (res : Option Resolution) (s : Scope) (set : PolicySet)
    (ip_only : Bool)
    → CountableProfiles set
    → validate_policy_set net set ≡ none
    → (c : CompiledPolicy) × (compile_policy_set net print_ip res
          (active_policy_set net s set)
          ip_only
        ≡ ok c)
      × (map (λ d. d.id) c.devices ≡ kept_ids ip_only (devices_in_lan net s set.devices))
active_policy-Compiles net print_ip res s set ip_only fits accepted =
    unfold active_policy_set in
    accepted_policy-Compiles net print_ip res (active_policy_set net s set) ip_only fits
      (active-accepted net s set accepted)
