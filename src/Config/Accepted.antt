-- ===== src/Config/Accepted.antt =====
-- What an accepted configuration has passed.
use opensurge_fnos.Base.{
  Bool, Option, String, false, if_holds, if◌then◌else◌, none, refl, some, subst, sym, true, ◌∙◌,
  ◌≡◌,
}
use opensurge_fnos.Config.Policies.{
  compile_policy_bundle, ip_only_active, is_current, on_scope, prepare_bundle,
  prepare_device_policy, put_bundle, with_bundle,
}
use opensurge_fnos.Config.Types.{Config, Outside, PolicyBundle, lan_scope, must, ◌&?◌}
use opensurge_fnos.Config.Validate.{
  validate, validate_dhcp, validate_mode_of, validate_on, validate_prepared, validate_rest,
}
use opensurge_fnos.Exec.{Result, err, ok}
use opensurge_fnos.Lan.Scope.{Scope, ScopeErr}
use opensurge_fnos.Text.{Text}

pub both : (a b : Option Text) → a &? b ≡ none → (a ≡ none) × (b ≡ none)
unfolding ◌&?◌
both none b h = (refl, h)
both (some e) b h = absurd cc

pub must_holds : (b : Bool) (name : String) → must b name ≡ none → b ≡ true
unfolding must
must_holds true name h = refl
must_holds false name h = absurd cc

-- The sections that the scope decides on.
pub record Passed (o : Outside) (c : Config) (check : Bool) (s : Scope) : Type 0 where
  pub dhcp : validate_dhcp o c s ≡ none
  pub rest :
      (if check
        then validate_prepared o s (prepare_device_policy o c)
        else validate_rest o c s false)
      ≡ none

pub accepted_sections :
    (o : Outside) (c : Config) (check : Bool) (s : Scope)
    → validate o c check ≡ none
    → lan_scope o c ≡ ok s
    → Passed o c check s
unfolding validate validate_on
accepted_sections o c check s h known =
    let on_lan : validate_on o c check (ok s) ≡ none =
      subst (λ r. validate_on o c check r ≡ none) known (both _ _ h).1 in
    let sections = both _ _ (both _ _ on_lan).1 in
    record { dhcp = sections.0; rest = (both _ _ sections.1).1 }

pub rest_mode :
    (o : Outside) (c : Config) (s : Scope) (check : Bool)
    → validate_rest o c s check ≡ none
    → validate_mode_of c ≡ none
unfolding validate_rest
rest_mode o c s check h =
    let a = (both _ _ h).1 in
    let b = (both _ _ a).1 in
    let d = (both _ _ b).1 in let e = (both _ _ d).1 in let f = (both _ _ e).1 in (both _ _ f).0

-- A preparation changes nothing that the mode asks of the other sections.
PolicyOnly : Config → Result Text Config → Type 0
PolicyOnly c (err e) = Unit
PolicyOnly c (ok c') = validate_mode_of c' ≡ validate_mode_of c

kept-PolicyOnly : (c : Config) → PolicyOnly c (ok c)
unfolding PolicyOnly
kept-PolicyOnly c = refl

put_bundle-PolicyOnly : (c : Config) (r : Result Text PolicyBundle) → PolicyOnly c (put_bundle c r)
unfolding put_bundle with_bundle PolicyOnly validate_mode_of
put_bundle-PolicyOnly c (err e) = tt
put_bundle-PolicyOnly c (ok b) = refl

prepare_bundle-PolicyOnly :
    (o : Outside) (c : Config) (s : Scope) (b : Option PolicyBundle)
    → PolicyOnly c (prepare_bundle o c s b)
unfolding prepare_bundle
prepare_bundle-PolicyOnly o c s none = put_bundle-PolicyOnly c _
prepare_bundle-PolicyOnly o c s (some b) =
    let compiled : Result Text PolicyBundle =
      compile_policy_bundle o b.policy s (ip_only_active c) in
    if_holds (PolicyOnly c) (is_current c s b) (ok c) (put_bundle c compiled)
      (λ e. kept-PolicyOnly c) (λ e. put_bundle-PolicyOnly c compiled)

prepared-PolicyOnly : (o : Outside) (c : Config) → PolicyOnly c (prepare_device_policy o c)
unfolding prepare_device_policy
prepared-PolicyOnly o c =
    if_holds (PolicyOnly c) _ (ok c) _ (λ e. kept-PolicyOnly c) (λ e. on_scope_lem (lan_scope o c))
  where
    on_scope_lem : (r : Result ScopeErr Scope) → PolicyOnly c (on_scope o c r)
    on_scope_lem (err e) = unfold on_scope PolicyOnly in tt
    on_scope_lem (ok s) = unfold on_scope in prepare_bundle-PolicyOnly o c s c.device_policy.bundle

prepared_mode :
    (o : Outside) (c : Config) (s : Scope) (r : Result Text Config)
    → PolicyOnly c r
    → validate_prepared o s r ≡ none
    → validate_mode_of c ≡ none
unfolding validate_prepared PolicyOnly
prepared_mode o c s (err e) h k = absurd cc
prepared_mode o c s (ok c') h k = sym h ∙ rest_mode o c' s true (both _ _ k).1

pub accepted_mode :
    (o : Outside) (c : Config) (check : Bool) (s : Scope)
    → validate o c check ≡ none
    → lan_scope o c ≡ ok s
    → validate_mode_of c ≡ none
accepted_mode o c false s h known =
    rest_mode o c s false (accepted_sections o c false s h known).rest
accepted_mode o c true s h known =
    prepared_mode o c s (prepare_device_policy o c) (prepared-PolicyOnly o c)
      (accepted_sections o c true s h known).rest
