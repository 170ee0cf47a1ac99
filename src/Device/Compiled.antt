-- ===== src/Device/Compiled.antt =====
-- The compiled policy (policy.go): what the compilation hands to the engine and to DHCP.
use opensurge_fnos.Base.{List, [], ◌++◌}
use opensurge_fnos.Device.Policy.{RuleMatch, ℤ}
use opensurge_fnos.Device.Resolution.{Adjustment}
use opensurge_fnos.Text.{Text}

pub record Reservation : Type 0 where
  pub id : Text
  pub mac : Text
  pub ipv4 : Text
  pub gateway_target : Text

pub record SelectorGroup : Type 0 where
  pub name : Text
  pub policies : List Text

pub record RuleProvider : Type 0 where
  pub name : Text
  pub kind : Text  -- Type
  pub behavior : Text
  pub format : Text
  pub url : Text
  pub interval : ℤ
  pub payload : List Text

pub record CompiledDevice : Type 0 where
  pub id : Text
  pub mac : Text
  pub ipv4 : Text
  pub profile : Text
  pub gateway_target : Text
  pub egress_mode : Text
  pub configured_egress_mode : Text
  pub policy_adjustments : List Adjustment
  pub groups : List (Text × Text)
  pub rule_matches : List (Text × RuleMatch)

pub record CompiledPolicy : Type 0 where
  pub reservations : List Reservation
  pub selector_groups : List SelectorGroup
  pub rule_providers : List RuleProvider
  pub override_rules : List Text
  pub dedicated_rules : List Text
  pub default_rules : List Text
  pub devices : List CompiledDevice
  pub selector_targets : List Text
  pub action_targets : List Text

-- What a slot of a device adds: to the device, to the policy, and to the rule sets in use.
pub record Part : Type 0 where
  pub adjustments : List Adjustment
  pub slots : List (Text × Text)
  pub matches : List (Text × RuleMatch)
  pub selector_groups : List SelectorGroup
  pub selector_targets : List Text
  pub action_targets : List Text
  pub override_rules : List Text
  pub used : List Text

abbrev pub no_part : Part
no_part = record {
  adjustments = [];
  slots = [];
  matches = [];
  selector_groups = [];
  selector_targets = [];
  action_targets = [];
  override_rules = [];
  used = [];
}

infixr 5 ◌⊕◌
unfoldable pub ◌⊕◌ : Part → Part → Part
a ⊕ b = record {
  adjustments = a.adjustments ++ b.adjustments;
  slots = a.slots ++ b.slots;
  matches = a.matches ++ b.matches;
  selector_groups = a.selector_groups ++ b.selector_groups;
  selector_targets = a.selector_targets ++ b.selector_targets;
  action_targets = a.action_targets ++ b.action_targets;
  override_rules = a.override_rules ++ b.override_rules;
  used = a.used ++ b.used;
}

-- What a device adds.
pub record DevicePart : Type 0 where
  pub reservation : List Reservation
  pub device : CompiledDevice
  pub part : Part
  pub dedicated_rules : List Text
  pub default_rules : List Text
