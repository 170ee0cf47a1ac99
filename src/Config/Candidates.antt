-- ===== src/Config/Candidates.antt =====
-- A candidate policy is judged as the file would be that holds it.
use opensurge_fnos.Base.{
  Bool, Option, ap, arith, false, if◌then◌else◌, is_some, none, refl, some, subst, sym, true, ℕ,
  ◌==◌, ◌∙◌, ◌≡◌,
}
use opensurge_fnos.Config.Addresses.{validate_dhcp_range_in_lan, validate_optional_bypass_addresses}
use opensurge_fnos.Config.Policies.{
  bundled, compile_policy_bundle, ip_only_active, is_current, is_lan, lan_key, load_bundle,
  on_scope, prepare_bundle, prepare_device_policy, put_bundle, when_accepted, with_bundle,
}
use opensurge_fnos.Config.Types.{
  Config, DevicePolicyConfig, Outside, PolicyBundle, lan_scope, must, same_bool, ◌&?◌,
}
use opensurge_fnos.Config.Validate.{
  candidate, candidate_file, candidate_on, validate, validate_candidate_bundle,
  validate_device_policy_candidate, validate_dhcp, validate_gateway, validate_on, validate_prepared,
}
use opensurge_fnos.Config.Words.{is_blank}
use opensurge_fnos.Device.Accept.{validate_policy_set}
use opensurge_fnos.Device.Compile.{compile_policy_set}
use opensurge_fnos.Device.Compiled.{CompiledPolicy}
use opensurge_fnos.Device.Policy.{PolicyErr, PolicySet}
use opensurge_fnos.Exec.{Result, err, ok, ok_injective}
use opensurge_fnos.Lan.Policy.{active_policy_set}
use opensurge_fnos.Lan.Scope.{Scope, ScopeErr, usable_host}
use opensurge_fnos.Text.{Text, text}

some_after : (a b : Option Text) → is_some b ≡ true → is_some (a &? b) ≡ true
unfolding ◌&?◌
some_after none b h = h
some_after (some e) b h = refl

-- What validate checks on a scope, with what the preparation has returned.
abbrev judged : Outside → Config → Scope → Result Text Config → Option Text
judged o c s r =
    validate_gateway o c.gateway
    &? (must (usable_host s s.gateway) "gateway.lan_ip"
        &? (validate_dhcp o c s
            &? (validate_optional_bypass_addresses o c.dhcp &? validate_prepared o s r)))

module _ (o : Outside) (c : Config) (set : PolicySet)
    (named_file : is_blank c.device_policy.file ≡ false) where
  candidate_lem : (b : PolicyBundle) → candidate c b ≡ with_bundle c b
  unfolding candidate with_bundle candidate_file
  candidate_lem b =
      let policy : Text → DevicePolicyConfig =
        λ f. record (c.device_policy) { file = f; bundle = some b } in
      ap (λ f. record c { device_policy = policy f })
        (subst
          (λ x. (if x then text "<candidate>" else c.device_policy.file) ≡ c.device_policy.file)
          (sym named_file) refl)

  module _ (s : Scope) (known : lan_scope o c ≡ ok s) where
    validated_lem : validate o c true ≡ judged o c s (prepare_device_policy o c)
    unfolding validate validate_on
    validated_lem = ap (λ r. validate_gateway o c.gateway &? validate_on o c true r) known

    prepared_lem :
        c.device_policy.bundle ≡ none
        → o.load_policy_set c.device_policy.file ≡ some set
        → prepare_device_policy o c
          ≡ put_bundle c (compile_policy_bundle o set s (ip_only_active c))
    unfolding prepare_device_policy on_scope prepare_bundle load_bundle
    prepared_lem empty loaded =
        subst
          (λ x.
            (if x then ok c else on_scope o c (lan_scope o c))
            ≡ put_bundle c (compile_policy_bundle o set s (ip_only_active c)))
          (sym named_file)
          (ap (on_scope o c) known
            ∙ ap (prepare_bundle o c s) empty
            ∙ ap (λ l. put_bundle c (load_bundle o l s (ip_only_active c))) loaded)

    -- A bundle that was compiled for this scope is kept.
    kept_lem :
        (b : PolicyBundle)
        → is_current c s b ≡ true
        → prepare_device_policy o (with_bundle c b) ≡ ok (with_bundle c b)
    unfolding prepare_device_policy on_scope prepare_bundle with_bundle is_current lan_scope
        ip_only_active
    kept_lem b current =
        subst
          (λ x.
            (if x then ok (with_bundle c b) else on_scope o (with_bundle c b) (lan_scope o c))
            ≡ ok (with_bundle c b))
          (sym named_file)
          (ap (on_scope o (with_bundle c b)) known
            ∙ subst
                (λ x.
                  (if x
                    then ok (with_bundle c b)
                    else put_bundle (with_bundle c b)
                        (compile_policy_bundle o b.policy s (ip_only_active c)))
                  ≡ ok (with_bundle c b))
                (sym current) refl)

same_refl : (b : Bool) → same_bool b b ≡ true
same_refl true = refl
same_refl false = refl

number_refl : (n : ℕ) → (n == n) ≡ true
number_refl n = ground arith

-- What is compiled for a scope and a mode is current there.
bundled_current :
    (c : Config) (set : PolicySet) (s : Scope) (r : Result PolicyErr CompiledPolicy)
    (b : PolicyBundle)
    → bundled set s (ip_only_active c) r ≡ ok b
    → is_current c s b ≡ true
unfolding bundled is_current is_lan
bundled_current c set s (err e) b h = absurd cc
bundled_current c set s (ok compiled) b h =
    subst (λ x. is_current c s x ≡ true) (ok_injective _ b h)
      (ground
        (arith, same_refl (ip_only_active c), number_refl (lan_key s).0, number_refl (lan_key s).1))

accepted_current :
    (c : Config) (s : Scope) (e : Option PolicyErr) (r : Result Text PolicyBundle)
    (b : PolicyBundle)
    → (r ≡ ok b → is_current c s b ≡ true)
    → when_accepted e r ≡ ok b
    → is_current c s b ≡ true
unfolding when_accepted
accepted_current c s none r b k h = k h
accepted_current c s (some e) r b k h = absurd cc

compiled_current :
    (o : Outside) (c : Config) (set : PolicySet) (s : Scope) (b : PolicyBundle)
    → compile_policy_bundle o set s (ip_only_active c) ≡ ok b
    → is_current c s b ≡ true
unfolding compile_policy_bundle
compiled_current o c set s b h =
    accepted_current c s (validate_policy_set o.net set) _ b
      (bundled_current c set s
        (compile_policy_set o.net o.print_ip none (active_policy_set o.net s set)
          (ip_only_active c))
        b)
      h

module _ (o : Outside) (c : Config) (set : PolicySet) (s : Scope)
    (named_file : is_blank c.device_policy.file ≡ false) (known : lan_scope o c ≡ ok s) where
  judged_same :
      (b : PolicyBundle) (r : Result Text Config) → judged o (with_bundle c b) s r ≡ judged o c s r
  unfolding with_bundle validate_dhcp validate_dhcp_range_in_lan
  judged_same b r = refl

  verdict_same :
      (r : Result Text PolicyBundle)
      → compile_policy_bundle o set s (ip_only_active c) ≡ r
      → is_some (validate_candidate_bundle o c r) ≡ is_some (judged o c s (put_bundle c r))
  unfolding validate_candidate_bundle put_bundle validate_prepared
  verdict_same (err e) h = sym (
      some_after (validate_gateway o c.gateway) _ (
        some_after (must (usable_host s s.gateway) "gateway.lan_ip") _ (
          some_after (validate_dhcp o c s) _
            (some_after (validate_optional_bypass_addresses o c.dhcp) (some e) refl))))
  verdict_same (ok b) h =
      ap (λ x. is_some (validate o x true)) (candidate_lem o c set named_file b)
      ∙ ap is_some (
          validated_lem o (with_bundle c b) set named_file s known
          ∙ ap (judged o (with_bundle c b) s)
              (kept_lem o c set named_file s known b (compiled_current o c set s b h))
          ∙ judged_same b (ok (with_bundle c b)))

-- A candidate policy is refused just if the configuration is that loads it from its policy file.
pub candidate-validate :
    (o : Outside) (c : Config) (set : PolicySet)
    → is_blank c.device_policy.file ≡ false
    → c.device_policy.bundle ≡ none
    → o.load_policy_set c.device_policy.file ≡ some set
    → is_some (validate_device_policy_candidate o c set) ≡ is_some (validate o c true)
unfolding validate_device_policy_candidate
candidate-validate o c set named_file empty loaded = by_scope (lan_scope o c) refl
  where
    by_scope :
        (r : Result ScopeErr Scope)
        → lan_scope o c ≡ r
        → is_some (candidate_on o c set r) ≡ is_some (validate o c true)
    by_scope (err e) h =
        unfold candidate_on validate validate_on in
        sym (
          some_after (validate_gateway o c.gateway) _
            (ap (λ r. is_some (validate_on o c true r)) h))
    by_scope (ok s) h =
        unfold candidate_on in
        verdict_same o c set s named_file h (compile_policy_bundle o set s (ip_only_active c)) refl
        ∙ ap is_some (
            ap (judged o c s) (sym (prepared_lem o c set named_file s h empty loaded))
            ∙ sym (validated_lem o c set named_file s h))
