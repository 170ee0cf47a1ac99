-- ===== src/Takeover/Manual.antt =====
-- The fixed IPv4 configuration of the Mac and the evidence of a client: the helpers of the
-- handlers and internal/macosnetwork/types.go.
use opensurge_fnos.Base.{
  Bool, List, Option, [], all, false, if◌then◌else◌, is_some, ltb, none, not, some, suc, zero, ℕ,
  ◌&&◌, ◌++◌, ◌+◌, ◌-◌, ◌/◌, ◌==◌, ◌^◌, ◌||◌, ◌∷◌,
}
use opensurge_fnos.Takeover.Types.{ManualConfig, Snapshot}
use opensurge_fnos.Takeover.World.{Config, Lease, Outside}
use opensurge_fnos.Text.{Text, contains, is_empty, text, text_eq, trim_space}

unfoldable pub manual_config_for_snapshot : Config → Snapshot → ManualConfig
manual_config_for_snapshot c s = record {
  network_service = s.network_service;
  interface = s.interface;
  ipv4 = c.lan_ip;
  subnet_mask = s.subnet_mask;
  router = s.router;
  dns = s.dns;
}

-- The prefix length of a contiguous mask, which is looked for from `n` bits on, `k` further ones.
unfoldable prefix_from : ℕ → ℕ → ℕ → Option ℕ
prefix_from mask n zero = none
prefix_from mask n (suc k) =
    let rest = prefix_from mask (n + 1) k in if mask == 2 ^ 32 - 2 ^ (32 - n) then some n else rest

-- IPMask.Size: `none` for a mask that is not contiguous.
unfoldable pub mask_size : ℕ → Option ℕ
unfolding prefix_from
mask_size mask = prefix_from mask 0 33

-- The two addresses with their host bits cleared, for a prefix of `n` bits.
unfoldable pub same_subnet : ℕ → ℕ → ℕ → Bool
same_subnet n a b = a / 2 ^ (32 - n) == b / 2 ^ (32 - n)

unfoldable subnets_agree : ℕ → ℕ → Option ℕ → Bool
unfolding same_subnet
subnets_agree ip router none = false
subnets_agree ip router (some n) =
    ltb 0 n && ltb n 32 && same_subnet n ip router && not (ip == router)

unfoldable addresses_agree : Option ℕ → Option ℕ → Option ℕ → Bool
unfolding subnets_agree
addresses_agree (some ip) (some mask) (some router) = subnets_agree ip router (mask_size mask)
addresses_agree _ _ _ = false

-- Whether ValidateManual returns no error.
unfoldable pub validate_manual : Outside → ManualConfig → Bool
unfolding addresses_agree
validate_manual o c =
    addresses_agree (o.to4 c.ipv4) (o.to4 c.subnet_mask) (o.to4 c.router)
    && not (is_empty (trim_space c.network_service))
    && not (is_empty (trim_space c.interface))
    && all o.parses_ip c.dns

-- Whether VerifyManual returns no error.
unfoldable pub verify_manual : Snapshot → ManualConfig → Bool
unfolding text_eq
verify_manual s c =
    text_eq s.network_service c.network_service
    && text_eq s.interface c.interface
    && text_eq s.ipv4_mode (text "manual")
    && text_eq s.ipv4 c.ipv4
    && text_eq s.subnet_mask c.subnet_mask
    && text_eq s.router c.router

unfoldable pub has_active_lease : Text → List Lease → Bool
unfolding text_eq
has_active_lease ip [] = false
has_active_lease ip (l ∷ ls) = (text_eq l.ip ip && l.online) || has_active_lease ip ls

unfoldable lease_found : Text → Option (List Lease) → Bool
unfolding has_active_lease
lease_found ip none = false
lease_found ip (some leases) = has_active_lease ip leases

-- Whether validateClientAcceptance returns no error.
unfoldable pub validate_client_acceptance : Outside → Text → Bool
unfolding lease_found contains
validate_client_acceptance o ip =
    is_some (o.to4 ip)
    && lease_found ip o.leases
    && contains o.dns_log (text "DHCPACK")
    && contains o.dns_log ip
    && contains o.dns_log (text "from " ++ ip)
    && contains o.mihomo_log ip
