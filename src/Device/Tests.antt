-- ===== src/Device/Tests.antt =====
-- A match of two domains and one protocol, and a small policy.
use opensurge_fnos.Base.{All, [], arith, if◌then◌else◌, none, refl, some, true, ◌∷◌, ◌≡◌}
use opensurge_fnos.Device.Accept.{validate_policy_set}
use opensurge_fnos.Device.Accepted.{Expands, validated_match-Expands}
use opensurge_fnos.Device.Addresses.{Apart, accepted_addresses-Apart}
use opensurge_fnos.Device.Compilable.{CountableProfiles, Usable, accepted_profiles-Usable}
use opensurge_fnos.Device.Countable.{Countable}
use opensurge_fnos.Device.Names.{valid_domain, valid_port_range}
use opensurge_fnos.Device.Policy.{ManagedDevice, Parsers, PolicySet, RuleMatch, has, template_of}
use opensurge_fnos.Device.Validate.{check_dimensions, check_values, resolve_profile, validate_match}
use opensurge_fnos.Device.Variants.{combination_count, expanded, rule_variants, sets_of}
use opensurge_fnos.Text.{text, text_eq}

abbrev pub sample_net : Parsers
unfolding text_eq
sample_net = record {
  ipv4_of = λ s.
      if text_eq s (text "192.168.1.20")
      then some 3232235796
      else if text_eq s (text "192.168.1.21")
      then some 3232235797
      else if text_eq s (text "192.168.1.1")
      then some 3232235777
      else if text_eq s (text "192.168.1.100")
      then some 3232235876
      else if text_eq s (text "192.168.1.200")
      then some 3232235976
      else none;
  is_cidr = λ s. true;
  mac_of = λ s. some s;
  url_of = λ s. none;
}

abbrev streaming : RuleMatch
streaming = record {
  domains = text "a.example" ∷ text "B.example" ∷ [];
  ip_cidrs = [];
  protocols = text "TCP" ∷ [];
  ports = [];
  rule_sets = [];
  template = [];
}

-- Opens the validation.
unfoldable pub run_validation : Unit {0}
unfolding validate_match check_dimensions check_values combination_count rule_variants expanded
    valid_domain valid_port_range validate_policy_set has
run_validation = tt

streaming_accepted : validate_match sample_net streaming [] [] ≡ none
unfolding run_validation
streaming_accepted = refl

streaming-Countable : Countable [] streaming
unfolding sets_of template_of
streaming-Countable = (omega arith, omega arith)

validated_match-Expands_example :
    Expands (rule_variants streaming []) (combination_count streaming [])
validated_match-Expands_example =
    validated_match-Expands sample_net streaming [] [] streaming-Countable streaming_accepted

streaming_count : combination_count streaming [] ≡ 2
unfolding run_validation
streaming_count = refl

abbrev pub television : ManagedDevice
television = record {
  id = text "tv";
  name = text "TV";
  mac = text "AA:BB:CC:00:00:01";
  ipv4 = text "192.168.1.20";
  profile = text "home";
  gateway_target = [];
  egress_mode = [];
}

abbrev pub small_policy : PolicySet
small_policy = record {
  devices =
      television
      ∷ record television {
        id = text "pad";
        mac = text "AA:BB:CC:00:00:02";
        ipv4 = text "192.168.1.21";
      }
      ∷ [];
  profiles =
      record {
        id = text "home";
        template = [];
        default_policies = text "DIRECT" ∷ [];
        on_unsupported = [];
        rules =
            record {
              id = text "stream";
              matching = streaming;
              action = text "REJECT";
              policies = [];
              on_unsupported = [];
            }
            ∷ [];
      }
      ∷ [];
  rule_sets = [];
  templates = [];
}

pub small_policy_accepted : validate_policy_set sample_net small_policy ≡ none
unfolding run_validation
small_policy_accepted = refl

pub small_policy-CountableProfiles : CountableProfiles small_policy
unfolding resolve_profile sets_of template_of
small_policy-CountableProfiles = (((omega arith, omega arith), tt), tt)

accepted_addresses-Apart_example : Apart sample_net (small_policy.devices)
accepted_addresses-Apart_example =
    accepted_addresses-Apart sample_net small_policy small_policy_accepted

accepted_profiles-Usable_example : All (Usable (small_policy.templates)) (small_policy.profiles)
accepted_profiles-Usable_example =
    accepted_profiles-Usable sample_net small_policy small_policy-CountableProfiles
      small_policy_accepted
