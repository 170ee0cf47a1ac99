-- ===== src/Packet/Frames.antt =====
-- Ethernet frames and IPv6 addresses: parseInboundFrame, ipv6Destination and the neighbour table of
-- internal/ipv6packet/broker.go. An address is its 16 bytes.
use opensurge_fnos.Base.{
  Bool, List, Option, [], false, if◌then◌else◌, leb, ltb, none, not, some, suc, true, ℕ, ◌&&◌, ◌+◌,
  ◌/◌, ◌==◌, ◌||◌, ◌∷◌,
}
use opensurge_fnos.Lists.{drop, length, take}
use opensurge_fnos.Packet.Protocol.{byte_at}
use opensurge_fnos.Text.{text_eq}

-- netip's IsGlobalUnicast of an IPv4 address that is mapped into IPv6.
mapped_global : List ℕ → Bool
mapped_global (a ∷ b ∷ c ∷ d ∷ []) =
    not (a == 0 && b == 0 && c == 0 && d == 0)
    && not (a == 255 && b == 255 && c == 255 && d == 255)
    && not (a == 127)
    && not (leb 224 a && leb a 239)
    && not (a == 169 && b == 254)
mapped_global _ = false

is_mapped : List ℕ → Bool
unfolding text_eq
is_mapped a = text_eq (take 12 a) (0 ∷ 0 ∷ 0 ∷ 0 ∷ 0 ∷ 0 ∷ 0 ∷ 0 ∷ 0 ∷ 0 ∷ 255 ∷ 255 ∷ [])

-- Neither unspecified nor loopback (::1), multicast (ff00::/8) or link-local (fe80::/10).
unfoldable pub is_global_unicast : List ℕ → Bool
unfolding is_mapped mapped_global text_eq
is_global_unicast a =
    if is_mapped a
    then mapped_global (drop 12 a)
    else not (
        text_eq (take 15 a) (0 ∷ 0 ∷ 0 ∷ 0 ∷ 0 ∷ 0 ∷ 0 ∷ 0 ∷ 0 ∷ 0 ∷ 0 ∷ 0 ∷ 0 ∷ 0 ∷ 0 ∷ [])
        && leb (byte_at 15 a) 1)
      && not (byte_at 0 a == 255)
      && not (byte_at 0 a == 254 && leb 128 (byte_at 1 a) && leb (byte_at 1 a) 191)

-- config.DownstreamIPv6Prefix, fdfe:dcba:9878::/64.
unfoldable pub in_downstream : List ℕ → Bool
unfolding text_eq
in_downstream a = text_eq (take 8 a) (0xfd ∷ 0xfe ∷ 0xdc ∷ 0xba ∷ 0x98 ∷ 0x78 ∷ 0 ∷ 0 ∷ [])

abbrev pub source_of : List ℕ → List ℕ
source_of packet = take 16 (drop 8 packet)

abbrev pub destination_of : List ℕ → List ℕ
destination_of packet = take 16 (drop 24 packet)

-- packet[0]>>4 == 6
unfoldable pub is_version6 : List ℕ → Bool
is_version6 packet = byte_at 0 packet / 16 == 6

pub record Inbound : Type 0 where
  pub packet : List ℕ
  pub source : List ℕ
  pub mac : List ℕ

-- A packet of a client for a destination off the link.
unfoldable pub admit_packet : List ℕ → List ℕ → Option Inbound
unfolding is_version6 in_downstream is_global_unicast
admit_packet mac packet =
    if not (is_version6 packet)
    then none
    else if not (in_downstream (source_of packet))
        || not (is_global_unicast (destination_of packet))
    then none
    else if in_downstream (destination_of packet)
    then none
    else some (record { packet = packet; source = source_of packet; mac = mac })

unfoldable pub parse_inbound_frame : List ℕ → List ℕ → ℕ → Option Inbound
unfolding admit_packet text_eq
parse_inbound_frame frame gateway_mac mtu =
    if ltb (length frame) (14 + 40)
      || ltb (14 + mtu) (length frame)
      || not (byte_at 12 frame == 0x86)
      || not (byte_at 13 frame == 0xdd)
    then none
    else if not (text_eq (take 6 frame) gateway_mac) || text_eq (take 6 (drop 6 frame)) gateway_mac
    then none
    else admit_packet (take 6 (drop 6 frame)) (drop 14 frame)

unfoldable pub ipv6_destination : List ℕ → Option (List ℕ)
unfolding is_version6
ipv6_destination packet =
    if ltb (length packet) 40 || not (is_version6 packet)
    then none
    else some (destination_of packet)

-- neighborTable: the MAC that each address was first seen with.
pub record NeighborTable : Type 0 where
  pub by_ipv6 : List (List ℕ × List ℕ)
  pub conflict : ℕ

abbrev pub no_neighbors : NeighborTable
no_neighbors = record { by_ipv6 = []; conflict = 0 }

unfoldable pub find_mac : List ℕ → List (List ℕ × List ℕ) → Option (List ℕ)
unfolding text_eq
find_mac ip [] = none
find_mac ip ((a, mac) ∷ rest) = if text_eq a ip then some mac else find_mac ip rest

-- Lookup
unfoldable pub lookup : NeighborTable → List ℕ → Option (List ℕ)
unfolding find_mac
lookup t ip = find_mac ip t.by_ipv6

unfoldable pub observe_known :
    NeighborTable → List ℕ → Option (List ℕ) → List ℕ → NeighborTable × Bool
unfolding text_eq
observe_known t ip none mac = (record t { by_ipv6 = (ip, mac) ∷ t.by_ipv6 }, true)
observe_known t ip (some current) mac =
    if text_eq current mac then (t, true) else (record t { conflict = suc t.conflict }, false)

-- Observe: false if the address is known with another MAC.
unfoldable pub observe : NeighborTable → List ℕ → List ℕ → NeighborTable × Bool
unfolding observe_known lookup
observe t ip mac = observe_known t ip (lookup t ip) mac
