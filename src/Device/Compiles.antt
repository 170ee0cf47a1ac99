-- ===== src/Device/Compiles.antt =====
-- A policy that validation accepts compiles, with the devices that are not left out.
use opensurge_fnos.Base.{
  All, Bool, List, Option, [], arith, false, if_holds, if◌then◌else◌, map, none, not, refl, subst,
  sym, true, ℕ, ◌==◌, ◌∙◌, ◌∷◌, ◌≡◌,
}
use opensurge_fnos.Device.Accept.{
  Seen, after_device, check_device, check_devices, check_ip, check_mac, has_mac, normalized_mac,
  validate_policy_set,
}
use opensurge_fnos.Device.Accepted.{Expands}
use opensurge_fnos.Device.Addresses.{devices_checked}
use opensurge_fnos.Device.Assemble.{assembled, compiled_parts}
use opensurge_fnos.Device.Compilable.{
  CountableProfiles, EachExpands, Usable, accepted_profiles-Usable,
}
use opensurge_fnos.Device.Compile.{
  add_part, bypassed, compile_device, compile_devices, compile_policy_set, is_bypassed, is_left_out,
  new_device, profile_of, when_valid, with_profile, with_rules,
}
use opensurge_fnos.Device.Compiled.{CompiledDevice, CompiledPolicy, DevicePart, Part}
use opensurge_fnos.Device.Expansion.{in_turn, required}
use opensurge_fnos.Device.Names.{valid_id, validate_device_name}
use opensurge_fnos.Device.Policy.{
  ManagedDevice, Parsers, PolicyErr, PolicySet, Profile, Rule, Template, bad_id, duplicate_id, has,
  require, unknown_profile,
}
use opensurge_fnos.Device.Resolution.{
  Resolution, device_group_name, resolve_selector, target_available,
}
use opensurge_fnos.Device.Slots.{
  action_rule, compile_rule, compile_rules, joined, own_selector, resolve_unsupported, rule_seen,
  selector_rule, with_action, with_variants,
}
use opensurge_fnos.Exec.{Result, err, ok, ok_injective}
use opensurge_fnos.Lists.{length}
use opensurge_fnos.Text.{Text, text_eq}

IsOk : Result PolicyErr Part → Type 0
IsOk (ok a) = Unit
IsOk (err e) = ⊥

with_variants-IsOk :
    (p : Part) (ip action unsupported : Text) (r : Result PolicyErr (List (List Text) × List Text))
    (n : ℕ)
    → Expands r n
    → IsOk (with_variants p ip action unsupported r)
unfolding with_variants IsOk
with_variants-IsOk p ip action unsupported r n e =
    subst (λ r. IsOk (with_variants p ip action unsupported r)) (sym e.result) tt

joined-IsOk : (a b : Result PolicyErr Part) → IsOk a → IsOk b → IsOk (joined a b)
unfolding IsOk joined
joined-IsOk (err e) b ha hb = ha
joined-IsOk (ok p) (err e) ha hb = hb
joined-IsOk (ok p) (ok q) ha hb = tt

module _ (res : Option Resolution) (ts : List Template) (device ip : Text) where
  compile_rules-IsOk :
      (unsupported : Text) (rs : List Rule)
      → EachExpands ts rs
      → IsOk (compile_rules res ts device ip unsupported rs)
  unfolding compile_rules compile_rule action_rule selector_rule IsOk
  compile_rules-IsOk unsupported [] expands = tt
  compile_rules-IsOk unsupported (r ∷ rs) expands =
      let handling = resolve_unsupported r.on_unsupported unsupported in
      let choice = resolve_selector res device r.id r.policies in
      joined-IsOk _ _
        (if_holds IsOk (length r.policies == 0) _ _
          (λ _.
            if_holds IsOk (not (target_available res r.action)) _ _ (λ _. tt)
              (λ _.
                with_variants-IsOk (with_action r.action (rule_seen r none)) ip r.action handling _
                  _ expands.0))
          (λ _.
            if_holds IsOk (length choice.0 == 0) _ _ (λ _. tt)
              (λ _.
                with_variants-IsOk (own_selector (rule_seen r choice.1) device r.id choice.0) ip
                  (device_group_name device r.id) handling _ _ expands.0)))
        (compile_rules-IsOk unsupported rs expands.1)

-- A result that is a part of the device of that ID.
CompilesTo : Text → Result PolicyErr DevicePart → Type 0
CompilesTo id (ok p) = p.device.id ≡ id
CompilesTo id (err e) = ⊥

CompileTo : List Text → Result PolicyErr (List DevicePart) → Type 0
CompileTo ids (ok ps) = map (λ p. p.device.id) ps ≡ ids
CompileTo ids (err e) = ⊥

add_part-CompileTo :
    (id : Text) (ids : List Text) (a : Result PolicyErr DevicePart)
    (b : Result PolicyErr (List DevicePart))
    → CompilesTo id a
    → CompileTo ids b
    → CompileTo (id ∷ ids) (add_part a b)
unfolding add_part CompilesTo CompileTo
add_part-CompileTo id ids (err e) b ha hb = ha
add_part-CompileTo id ids (ok p) (err e) ha hb = hb
add_part-CompileTo id ids (ok p) (ok ps) ha hb = cc

with_rules-CompilesTo :
    (c : CompiledDevice) (p : Profile) (own : Part) (rules : Result PolicyErr Part)
    → IsOk rules
    → CompilesTo c.id (with_rules c p own rules)
unfolding with_rules CompilesTo IsOk
with_rules-CompilesTo c p own (ok rules) h = refl
with_rules-CompilesTo c p own (err e) h = h

-- The profile of a device is one of those that validation has checked.
profile_of-Usable :
    (ts : List Template) (id : Text) (ps : List Profile)
    → has id (map (λ p. p.id) ps) ≡ true
    → All (Usable ts) ps
    → Usable ts (profile_of id ps)
unfolding profile_of has
profile_of-Usable ts id [] h all_usable = absurd cc
profile_of-Usable ts id (p ∷ ps) h all_usable =
    if_holds (Usable ts) (text_eq id p.id) _ _ (λ _. all_usable.0)
      (λ other. profile_of-Usable ts id ps (ground (arith, h, other)) all_usable.1)

-- The devices that are compiled.
unfoldable pub kept_ids : Bool → List ManagedDevice → List Text
unfolding is_left_out
kept_ids ip_only [] = []
kept_ids ip_only (d ∷ ds) =
    let rest = kept_ids ip_only ds in if is_left_out ip_only d then rest else d.id ∷ rest

module _ (net : Parsers) (print_ip : ℕ → Text) (res : Option Resolution) (set : PolicySet) where
  with_profile-CompilesTo :
      (d : ManagedDevice) (r : Result PolicyErr Profile) (p : Profile)
      → r ≡ ok p
      → EachExpands set.templates p.rules
      → CompilesTo d.id (with_profile net print_ip res set.templates d r)
  unfolding with_profile
  with_profile-CompilesTo d (err e) p same expands = absurd cc
  with_profile-CompilesTo d (ok q) p same expands =
      let expands =
        subst (λ p. EachExpands set.templates p.rules) (sym (ok_injective _ _ same)) expands in
      if_holds (CompilesTo d.id) (is_bypassed d) _ _
        (λ _. unfold CompilesTo bypassed new_device in refl)
        (λ _.
          unfold new_device in
          with_rules-CompilesTo (new_device net print_ip res d q) q _ _
            (compile_rules-IsOk res set.templates _ _ q.on_unsupported q.rules expands))

  devices-CompileTo :
      (ip_only : Bool) (ds : List ManagedDevice)
      → All (λ d. has d.profile (map (λ p. p.id) set.profiles) ≡ true) ds
      → All (Usable set.templates) set.profiles
      → CompileTo (kept_ids ip_only ds) (compile_devices net print_ip res set ip_only ds)
  unfolding kept_ids compile_devices compile_device
  devices-CompileTo ip_only [] known usable = unfold CompileTo in refl
  devices-CompileTo ip_only (d ∷ ds) known usable =
      let u = profile_of-Usable set.templates d.profile set.profiles known.0 usable in
      by_test (is_left_out ip_only d) _ _ _
        (with_profile-CompilesTo d _ u.resolved u.resolves u.expands)
        (devices-CompileTo ip_only ds known.1 usable)
    where
      by_test :
          (b : Bool) (a : Result PolicyErr DevicePart) (rest : Result PolicyErr (List DevicePart))
          (ids : List Text)
          → CompilesTo d.id a
          → CompileTo ids rest
          → CompileTo (if b then ids else d.id ∷ ids) (if b then rest else add_part a rest)
      by_test true a rest ids ha hrest = hrest
      by_test false a rest ids ha hrest = add_part-CompileTo d.id _ _ _ ha hrest

known_profiles :
    (net : Parsers) (profiles : List Text) (seen : Seen) (ds : List ManagedDevice)
    → check_devices net profiles seen ds ≡ none
    → All (λ d. has d.profile profiles ≡ true) ds
unfolding check_devices check_device
known_profiles net profiles seen [] accepted = tt
known_profiles net profiles seen (d ∷ ds) accepted =
    let both = in_turn (check_device net profiles seen d) _ accepted in
    (known both.0, known_profiles net profiles (after_device net seen d) ds both.1)
  where
    known : check_device net profiles seen d ≡ none → has d.profile profiles ≡ true
    known h =
        let a = (in_turn (require (valid_id d.id) (bad_id d.id)) _ h).1 in
        let b = (in_turn (validate_device_name d.name) _ a).1 in
        let c = (in_turn (require (not (has d.id seen.ids)) (duplicate_id d.id)) _ b).1 in
        let e =
          (in_turn (if has_mac d then check_mac d (normalized_mac net d.mac) seen.macs else none) _
            c).1 in
        let f = (in_turn (check_ip d (net.ipv4_of d.ipv4) seen.ips) _ e).1 in
        required (unknown_profile d.profile)
          (in_turn (require (has d.profile profiles) (unknown_profile d.profile)) _ f).0

-- What a policy that is compiled has for its devices.
Compiles : List Text → Result PolicyErr CompiledPolicy → Type 0
Compiles ids r = (c : CompiledPolicy) × (r ≡ ok c) × (map (λ d. d.id) c.devices ≡ ids)

compiled_parts-Compiles :
    (set : PolicySet) (ids : List Text) (r : Result PolicyErr (List DevicePart))
    → CompileTo ids r
    → Compiles ids (compiled_parts set r)
unfolding compiled_parts assembled CompileTo Compiles
compiled_parts-Compiles set ids (err e) h = absurd h
compiled_parts-Compiles set ids (ok ps) h = (assembled set ps, refl, same_ids ps ∙ h)
  where
    same_ids :
        (ps : List DevicePart)
        → map (λ d. d.id) (map (λ p. p.device) ps) ≡ map (λ p. p.device.id) ps
    same_ids [] = refl
    same_ids (p ∷ ps) = cc (same_ids ps)

-- A policy that validation accepts, and of whose rules an int can count the combinations, compiles
-- without an error, whatever targets it is resolved against and whether devices without a MAC are active or not, into the devices that are not left
-- out, in their order.
pub accepted_policy-Compiles :
    (net : Parsers) (print_ip : ℕ → Text) (res : Option Resolution) (set : PolicySet)
    (ip_only : Bool)
    → CountableProfiles set
    → validate_policy_set net set ≡ none
    → (c : CompiledPolicy) × (compile_policy_set net print_ip res set ip_only ≡ ok c)
      × (map (λ d. d.id) c.devices ≡ kept_ids ip_only set.devices)
unfolding compile_policy_set Compiles
accepted_policy-Compiles net print_ip res set ip_only fits accepted =
    subst (λ o. Compiles (kept_ids ip_only set.devices) (when_valid net print_ip res set ip_only o))
      (sym accepted)
      (unfold when_valid in
        compiled_parts-Compiles set _ _ (
          devices-CompileTo net print_ip res set ip_only set.devices
            (known_profiles net _ _ set.devices (devices_checked net set accepted))
            (accepted_profiles-Usable net set fits accepted)))
