-- ===== src/Device/Policy.antt =====
-- The declarative device policy of internal/device/policy.go, and the errors of its validation.
use opensurge_fnos.Base.{
  Bool, List, Option, [], false, if◌then◌else◌, none, some, true, ℕ, ◌||◌, ◌∷◌,
}
use opensurge_fnos.Text.{Text, text_eq}

pub data ℤ : Type 0 where
  pos negsuc : ℕ → ℤ

-- Domains, CIDRs, protocols, ports and rule sets: an AND of the populated fields, an OR within each.
pub record RuleMatch : Type 0 where
  pub domains : List Text
  pub ip_cidrs : List Text
  pub protocols : List Text
  pub ports : List Text
  pub rule_sets : List Text
  pub template : Text

pub record Rule : Type 0 where
  pub id : Text
  pub matching : RuleMatch
  pub action : Text
  pub policies : List Text
  pub on_unsupported : Text

pub record Profile : Type 0 where
  pub id : Text
  pub template : Text
  pub default_policies : List Text
  pub on_unsupported : Text
  pub rules : List Rule

pub record Template : Type 0 where
  pub id : Text
  pub default_policies : List Text
  pub on_unsupported : Text
  pub rules : List Rule
  pub rule_sets : List Text

pub record RuleSet : Type 0 where
  pub id : Text
  pub kind : Text  -- Type
  pub behavior : Text
  pub format : Text
  pub url : Text
  pub interval : ℤ
  pub payload : List Text

pub record ManagedDevice : Type 0 where
  pub id : Text
  pub name : Text
  pub mac : Text
  pub ipv4 : Text
  pub profile : Text
  pub gateway_target : Text
  pub egress_mode : Text

pub record PolicySet : Type 0 where
  pub devices : List ManagedDevice
  pub profiles : List Profile
  pub rule_sets : List RuleSet
  pub templates : List Template

-- The parsers of Go's net and net/url packages that validation asks.
pub record Parsers : Type 0 where
  pub ipv4_of : Text → Option ℕ  -- net.ParseIP(s).To4()
  pub is_cidr : Text → Bool  -- net.ParseCIDR returns no error
  pub mac_of : Text → Option Text  -- net.ParseMAC, of 6 bytes, printed
  pub url_of : Text → Option (Text × Text)  -- the scheme and host of url.Parse

pub data PolicyErr : Type 0 where
  bad_id duplicate_id duplicate_mac unknown_profile unknown_template unknown_rule_set invalid_policy
        duplicate_policy bad_domain bad_cidr bad_protocol bad_port bad_mac bad_ipv4 bad_name
        no_default_policies action_with_policies no_action template_combined template_without_sets
        bad_rule_set bad_egress_mode bad_gateway_target bypass_without_mac :
      Text → PolicyErr
  duplicate_ipv4 : ℕ → PolicyErr
  empty_policies bad_unsupported empty_match too_many_variants : PolicyErr

infixr 5 ◌>>?◌
-- `if err := a; err != nil { return err }; b`
abbrev pub ◌>>?◌ : Option PolicyErr → Option PolicyErr → Option PolicyErr
none >>? b = b
some e >>? b = some e

abbrev pub require : Bool → PolicyErr → Option PolicyErr
require true e = none
require false e = some e

-- A loop that returns the first error.
abbrev pub first_of {ℓ} : {A : Type ℓ} → (A → Option PolicyErr) → List A → Option PolicyErr
first_of f [] = none
first_of f (x ∷ xs) = f x >>? first_of f xs

-- Membership in a map's keys.
unfoldable pub has : Text → List Text → Bool
unfolding text_eq
has t [] = false
has t (x ∷ xs) = text_eq t x || has t xs

-- templates[id] of a map with the templates' IDs as keys.
unfoldable pub template_of : Text → List Template → Option Template
unfolding text_eq
template_of id [] = none
template_of id (t ∷ ts) = if text_eq id t.id then some t else template_of id ts
