-- ===== src/Device/Bypass.antt =====
-- Devices that the upstream router serves.
use opensurge_fnos.Base.{
  Bool, List, Option, [], ap, false, if_holds, if◌then◌else◌, refl, subst, true, ℕ, ◌++◌, ◌∷◌, ◌≡◌,
}
use opensurge_fnos.Device.Assemble.{assembled, each}
use opensurge_fnos.Device.Compile.{
  add_part, bypassed, compile_device, compile_devices, is_bypassed, is_left_out, new_device,
  profile_of, with_profile,
}
use opensurge_fnos.Device.Compiled.{CompiledDevice, CompiledPolicy, DevicePart}
use opensurge_fnos.Device.Policy.{ManagedDevice, Parsers, PolicyErr, PolicySet, Profile, Template}
use opensurge_fnos.Device.Resolution.{Resolution}
use opensurge_fnos.Device.Validate.{resolve_profile}
use opensurge_fnos.Exec.{Result, err, ok, ok_injective}
use opensurge_fnos.Text.{Text}

-- A compiled policy without what DHCP and the device list have of it.
abbrev pub routes : CompiledPolicy → CompiledPolicy
routes c = record c { reservations = []; devices = [] }

unfoldable pub routed : List ManagedDevice → List ManagedDevice
unfolding is_bypassed
routed [] = []
routed (d ∷ ds) = let rest = routed ds in if is_bypassed d then rest else d ∷ rest

-- Two lists of parts with the same routes.
Alike : List DevicePart → List DevicePart → Type 0
Alike ps qs =
    (each (λ p. p.part.selector_groups) ps ≡ each (λ p. p.part.selector_groups) qs)
    × (each (λ p. p.part.used) ps ≡ each (λ p. p.part.used) qs)
    × (each (λ p. p.part.override_rules) ps ≡ each (λ p. p.part.override_rules) qs)
    × (each (λ p. p.dedicated_rules) ps ≡ each (λ p. p.dedicated_rules) qs)
    × (each (λ p. p.default_rules) ps ≡ each (λ p. p.default_rules) qs)
    × (each (λ p. p.part.selector_targets) ps ≡ each (λ p. p.part.selector_targets) qs)
    × (each (λ p. p.part.action_targets) ps ≡ each (λ p. p.part.action_targets) qs)

-- Where the whole list compiles, so does that of the routed devices, alike.
AlsoAlike : Result PolicyErr (List DevicePart) → Result PolicyErr (List DevicePart) → Type 0
AlsoAlike (err e) r = Unit
AlsoAlike (ok ps) (err e) = ⊥
AlsoAlike (ok ps) (ok qs) = Alike ps qs

bypassed-AlsoAlike :
    (c : CompiledDevice) (a b : Result PolicyErr (List DevicePart))
    → AlsoAlike a b
    → AlsoAlike (add_part (ok (bypassed c)) a) b
unfolding add_part AlsoAlike Alike bypassed
bypassed-AlsoAlike c (err e) b h = tt
bypassed-AlsoAlike c (ok ps) (err e) h = h
bypassed-AlsoAlike c (ok ps) (ok qs) h = h

add_part-AlsoAlike :
    (p : Result PolicyErr DevicePart) (a b : Result PolicyErr (List DevicePart))
    → AlsoAlike a b
    → AlsoAlike (add_part p a) (add_part p b)
unfolding add_part AlsoAlike Alike
add_part-AlsoAlike (err e) a b h = tt
add_part-AlsoAlike (ok p) (err e) b h = tt
add_part-AlsoAlike (ok p) (ok ps) (err e) h = h
add_part-AlsoAlike (ok p) (ok ps) (ok qs) h = (
  ap (λ xs. p.part.selector_groups ++ xs) h.0,
  ap (λ xs. p.part.used ++ xs) h.1,
  ap (λ xs. p.part.override_rules ++ xs) h.2,
  ap (λ xs. p.dedicated_rules ++ xs) h.3,
  ap (λ xs. p.default_rules ++ xs) h.4,
  ap (λ xs. p.part.selector_targets ++ xs) h.5,
  ap (λ xs. p.part.action_targets ++ xs) h.6,
)

bypassed_first-AlsoAlike :
    (net : Parsers) (print_ip : ℕ → Text) (res : Option Resolution) (ts : List Template)
    (d : ManagedDevice) (p : Result PolicyErr Profile) (a b : Result PolicyErr (List DevicePart))
    → is_bypassed d ≡ true
    → AlsoAlike a b
    → AlsoAlike (add_part (with_profile net print_ip res ts d p) a) b
unfolding with_profile
bypassed_first-AlsoAlike net print_ip res ts d (err e) a b out h = unfold add_part AlsoAlike in tt
bypassed_first-AlsoAlike net print_ip res ts d (ok p) a b out h =
    if_holds (λ x. AlsoAlike (add_part x a) b) (is_bypassed d) _ _
      (λ _. bypassed-AlsoAlike (new_device net print_ip res d p) a b h)
      (λ in_use. absurd (cc (out, in_use)))

if_alike :
    (b : Bool) (x x' y y' : Result PolicyErr (List DevicePart))
    → AlsoAlike x y
    → AlsoAlike x' y'
    → AlsoAlike (if b then x else x') (if b then y else y')
if_alike true x x' y y' h h' = h
if_alike false x x' y y' h h' = h'

module _ (net : Parsers) (print_ip : ℕ → Text) (res : Option Resolution) (set : PolicySet) where
  routed-AlsoAlike :
      (ip_only : Bool) (ds : List ManagedDevice)
      → AlsoAlike
          (compile_devices net print_ip res set ip_only ds)
          (compile_devices net print_ip res set ip_only (routed ds))
  unfolding routed compile_devices compile_device
  routed-AlsoAlike ip_only [] = unfold AlsoAlike Alike in (refl, refl, refl, refl, refl, refl, refl)
  routed-AlsoAlike ip_only (d ∷ ds) =
      let whole = compile_devices net print_ip res set ip_only ds in
      let part = compile_devices net print_ip res set ip_only (routed ds) in
      let later : AlsoAlike whole part = routed-AlsoAlike ip_only ds in
      let profile = resolve_profile (profile_of d.profile set.profiles) set.templates in
      let this = with_profile net print_ip res set.templates d profile in
      if_holds
        (λ kept.
          AlsoAlike (if is_left_out ip_only d then whole else add_part this whole)
            (compile_devices net print_ip res set ip_only kept))
        (is_bypassed d) _ _
        (λ out.
          if_holds (λ r. AlsoAlike r part) (is_left_out ip_only d) _ _ (λ _. later)
            (λ _.
              bypassed_first-AlsoAlike net print_ip res set.templates d profile whole part out
                later))
        (λ _.
          if_alike (is_left_out ip_only d) whole (add_part this whole) part (add_part this part)
            later (add_part-AlsoAlike this whole part later))

  -- Where the devices of a policy compile, so do those without the bypassed ones, and to the same
  -- selector groups, rules, targets and rule providers: a bypassed device adds nothing but its
  -- reservation and its place in the device list.
  pub bypassed_devices_unrouted :
      (ip_only : Bool) (ds : List ManagedDevice) (ps : List DevicePart)
      → compile_devices net print_ip res set ip_only ds ≡ ok ps
      → (qs : List DevicePart) × (compile_devices net print_ip res set ip_only (routed ds) ≡ ok qs)
        × (routes (assembled set ps) ≡ routes (assembled set qs))
  unfolding assembled Alike
  bypassed_devices_unrouted ip_only ds ps h = by_result _ _ h (routed-AlsoAlike ip_only ds)
    where
      by_result :
          (a b : Result PolicyErr (List DevicePart))
          → a ≡ ok ps
          → AlsoAlike a b
          → (qs : List DevicePart) × (b ≡ ok qs)
            × (routes (assembled set ps) ≡ routes (assembled set qs))
      by_result (err e) b same h = absurd cc
      by_result (ok xs) (err e) same h = absurd (unfold AlsoAlike in h)
      by_result (ok xs) (ok qs) same h =
          let alike : Alike ps qs =
            subst (λ xs. Alike xs qs) (ok_injective _ _ same) (unfold AlsoAlike in h) in
          (qs, refl, cc (alike.0, alike.1, alike.2, alike.3, alike.4, alike.5, alike.6))
