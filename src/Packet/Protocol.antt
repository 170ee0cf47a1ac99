-- ===== src/Packet/Protocol.antt =====
-- EncodeMessage and DecodeMessage of internal/ipv6packet/protocol.go. Bytes are numbers below 256.
use opensurge_fnos.Base.{
  Bool, List, [], if◌then◌else◌, leb, ltb, not, suc, zero, ℕ, ◌&&◌, ◌++◌, ◌-◌, ◌==◌, ◌∷◌,
}
use opensurge_fnos.Exec.{Result, err, ok}
use opensurge_fnos.Lists.{drop, length, take}
use opensurge_fnos.Text.{text_eq}

pub record Message : Type 0 where
  pub kind : ℕ  -- Type
  pub mac : List ℕ
  pub payload : List ℕ  -- Packet

pub data ProtocolErr : Type 0 where
  unsupported_type too_large unsupported_version : ℕ → ProtocolErr
  bad_mac too_short bad_magic : ProtocolErr

abbrev pub message_hello : ℕ
message_hello = 1

abbrev pub message_inbound : ℕ
message_inbound = 2

abbrev pub message_outbound : ℕ
message_outbound = 3

-- OS6P
abbrev pub protocol_magic : List ℕ
protocol_magic = 79 ∷ 83 ∷ 54 ∷ 80 ∷ []

unfoldable pub valid_type : ℕ → Bool
valid_type t = leb message_hello t && leb t message_outbound

-- The six bytes of the sideband: zero where there is no MAC.
unfoldable pub sideband : List ℕ → Result ProtocolErr (List ℕ)
sideband [] = ok (0 ∷ 0 ∷ 0 ∷ 0 ∷ 0 ∷ 0 ∷ [])
sideband (b ∷ bs) = if length (b ∷ bs) == 6 then ok (b ∷ bs) else err bad_mac

-- The header, version 1, and the packet.
unfoldable pub assemble : ℕ → List ℕ → Result ProtocolErr (List ℕ) → Result ProtocolErr (List ℕ)
assemble t packet (err e) = err e
assemble t packet (ok side) = ok (protocol_magic ++ (1 ∷ t ∷ (side ++ packet)))

unfoldable pub encode_message : ℕ → List ℕ → List ℕ → Result ProtocolErr (List ℕ)
unfolding valid_type assemble sideband
encode_message t mac packet =
    if not (valid_type t)
    then err (unsupported_type t)
    else if ltb (65535 - 12) (length packet)
    then err (too_large (length packet))
    else assemble t packet (sideband mac)

-- xs[i], of an index that is checked before.
abbrev pub byte_at : ℕ → List ℕ → ℕ
byte_at i [] = 0
byte_at zero (b ∷ bs) = b
byte_at (suc i) (b ∷ bs) = byte_at i bs

unfoldable pub decode_message : List ℕ → Result ProtocolErr Message
unfolding text_eq valid_type
decode_message bytes =
    if ltb (length bytes) 12
    then err too_short
    else if not (text_eq (take 4 bytes) protocol_magic)
    then err bad_magic
    else if not (byte_at 4 bytes == 1)
    then err (unsupported_version (byte_at 4 bytes))
    else if not (valid_type (byte_at 5 bytes))
    then err (unsupported_type (byte_at 5 bytes))
    else ok
        (record { kind = byte_at 5 bytes; mac = take 6 (drop 6 bytes); payload = drop 12 bytes })
