-- ===== src/Device/Inventory.antt =====
-- The inventory of a compiled policy.
use opensurge_fnos.Base.{
  All, All-++, Bool, List, Option, [], if_holds, none, refl, some, subst, ℕ, ◌∷◌, ◌≡◌,
}
use opensurge_fnos.Device.Accept.{validate_policy_set}
use opensurge_fnos.Device.Assemble.{assembled, compiled_parts, each}
use opensurge_fnos.Device.Compile.{
  add_part, bypassed, compile_device, compile_devices, compile_policy_set, default_part, inherits,
  is_bypassed, is_left_out, new_device, profile_of, when_valid, with_profile, with_rules,
}
use opensurge_fnos.Device.Compiled.{CompiledDevice, CompiledPolicy, DevicePart, Part, no_part}
use opensurge_fnos.Device.Policy.{ManagedDevice, Parsers, PolicyErr, PolicySet, Profile, Template}
use opensurge_fnos.Device.Resolution.{Resolution}
use opensurge_fnos.Device.Supports.{
  Supports, compile_rules-Supports, default_selector-IsSupported, none-IsSupported, ⊕-IsSupported,
}
use opensurge_fnos.Device.Targets.{IsAvailable, IsSupported, IsUsable, selector-All}
use opensurge_fnos.Device.Validate.{resolve_profile}
use opensurge_fnos.Exec.{Result, err, ok, ok_injective}
use opensurge_fnos.Text.{Text, text}

EachSupports : Option Resolution → Result PolicyErr (List DevicePart) → Type 0
EachSupports res (err e) = Unit
EachSupports res (ok ps) = All (λ p. IsSupported res p.part) ps

DeviceSupports : Option Resolution → Result PolicyErr DevicePart → Type 0
DeviceSupports res (err e) = Unit
DeviceSupports res (ok p) = IsSupported res p.part

with_rules-Supports :
    (res : Option Resolution) (c : CompiledDevice) (p : Profile) (own : Part)
    (rules : Result PolicyErr Part)
    → IsSupported res own
    → Supports res rules
    → DeviceSupports res (with_rules c p own rules)
unfolding with_rules DeviceSupports Supports
with_rules-Supports res c p own (err e) hown hrules = tt
with_rules-Supports res c p own (ok rules) hown hrules = ⊕-IsSupported res own rules hown hrules

add_part-Supports :
    (res : Option Resolution) (a : Result PolicyErr DevicePart)
    (b : Result PolicyErr (List DevicePart))
    → DeviceSupports res a
    → EachSupports res b
    → EachSupports res (add_part a b)
unfolding add_part DeviceSupports EachSupports
add_part-Supports res (err e) b ha hb = tt
add_part-Supports res (ok p) (err e) ha hb = tt
add_part-Supports res (ok p) (ok ps) ha hb = (ha, hb)

All-each {ℓ} :
    {A : Type ℓ} (P : A → Type 0) (f : DevicePart → List A) (ps : List DevicePart)
    → All (λ p. All P (f p)) ps
    → All P (each f ps)
All-each P f [] h = tt
All-each P f (p ∷ ps) h = All-++ P (f p) (each f ps) h.0 (All-each P f ps h.1)

All-map_of :
    (P Q : DevicePart → Type 0) (ps : List DevicePart)
    → ((p : DevicePart) → P p → Q p)
    → All P ps
    → All Q ps
All-map_of P Q [] f h = tt
All-map_of P Q (p ∷ ps) f h = (f p h.0, All-map_of P Q ps f h.1)

module _ (net : Parsers) (print_ip : ℕ → Text) (res : Option Resolution) where
  default_part-IsSupported :
      (c : CompiledDevice) (p : Profile) → IsSupported res (default_part net print_ip res c p)
  unfolding default_part
  default_part-IsSupported c p =
      if_holds (IsSupported res) (inherits c) _ _ (λ _. none-IsSupported res no_part refl refl refl)
        (λ _.
          default_selector-IsSupported res c.id _ _
            (selector-All res c.id (text "default") p.default_policies))

  with_profile-Supports :
      (ts : List Template) (d : ManagedDevice) (p : Result PolicyErr Profile)
      → DeviceSupports res (with_profile net print_ip res ts d p)
  unfolding with_profile
  with_profile-Supports ts d (err e) = unfold DeviceSupports in tt
  with_profile-Supports ts d (ok p) =
      if_holds (DeviceSupports res) (is_bypassed d) _ _
        (λ _. unfold DeviceSupports bypassed in none-IsSupported res no_part refl refl refl)
        (λ _.
          with_rules-Supports res (new_device net print_ip res d p) p _ _
            (default_part-IsSupported (new_device net print_ip res d p) p)
            (compile_rules-Supports res ts _ _ p.on_unsupported p.rules))

  devices-Supports :
      (set : PolicySet) (ip_only : Bool) (ds : List ManagedDevice)
      → EachSupports res (compile_devices net print_ip res set ip_only ds)
  unfolding compile_devices compile_device
  devices-Supports set ip_only [] = unfold EachSupports in tt
  devices-Supports set ip_only (d ∷ ds) =
      let rest = devices-Supports set ip_only ds in
      if_holds (EachSupports res) (is_left_out ip_only d) _ _ (λ _. rest)
        (λ _.
          add_part-Supports res _ _
            (with_profile-Supports set.templates d
              (resolve_profile (profile_of d.profile set.profiles) set.templates))
            rest)

  -- Whatever compiles against an inventory names only targets of it: every selector group has a
  -- candidate and available ones only, and every selector and action target is available.
  pub compiled_targets :
      (set : PolicySet) (ip_only : Bool) (c : CompiledPolicy)
      → compile_policy_set net print_ip res set ip_only ≡ ok c
      → All (IsUsable res) c.selector_groups
        × All (IsAvailable res) c.selector_targets
        × All (IsAvailable res) c.action_targets
  unfolding compile_policy_set when_valid compiled_parts assembled EachSupports
  compiled_targets set ip_only c h = by_validity (validate_policy_set net set) h
    where
      Stocked : CompiledPolicy → Type 0
      Stocked c =
          All (IsUsable res) c.selector_groups
          × All (IsAvailable res) c.selector_targets
          × All (IsAvailable res) c.action_targets

      by_parts :
          (ps : Result PolicyErr (List DevicePart))
          → EachSupports res ps
          → compiled_parts set ps ≡ ok c
          → Stocked c
      by_parts (err e) s h = absurd cc
      by_parts (ok ps) s h =
          subst
            (λ c.
              All (IsUsable res) c.selector_groups
              × All (IsAvailable res) c.selector_targets
              × All (IsAvailable res) c.action_targets)
            (ok_injective _ _ h)
            (
              All-each (IsUsable res) _ ps (All-map_of _ _ ps (λ p s. s.groups_usable) s),
              All-each (IsAvailable res) _ ps (All-map_of _ _ ps (λ p s. s.targets_available) s),
              All-each (IsAvailable res) _ ps (All-map_of _ _ ps (λ p s. s.actions_available) s),
            )

      by_validity :
          (o : Option PolicyErr) → when_valid net print_ip res set ip_only o ≡ ok c → Stocked c
      by_validity (some e) h = absurd cc
      by_validity none h = by_parts _ (devices-Supports set ip_only set.devices) h
