-- ===== src/Packet/Roundtrip.antt =====
-- The two directions of the message format are inverse.
use opensurge_fnos.Base.{List, [], ap, arith, true, ℕ, ◌++◌, ◌+◌, ◌∷◌, ◌≡◌, ◌≤◌}
use opensurge_fnos.Exec.{ok}
use opensurge_fnos.Lists.{drop-++, length, length-++, length-take, take-++, take-drop}
use opensurge_fnos.Packet.Protocol.{
  Message, assemble, decode_message, encode_message, protocol_magic, sideband, valid_type,
}
use opensurge_fnos.Text.{text_eq}

full_sideband : (mac : List ℕ) → length mac ≡ 6 → sideband mac ≡ ok mac
unfolding sideband
full_sideband [] h = absurd (omega arith)
full_sideband (b ∷ bs) h = ground arith

assembled :
    (t : ℕ) (mac packet : List ℕ)
    → valid_type t ≡ true
    → length mac ≡ 6
    → decode_message (protocol_magic ++ (1 ∷ t ∷ (mac ++ packet)))
      ≡ ok (record { kind = t; mac = mac; payload = packet })
unfolding decode_message text_eq
assembled t mac packet valid six =
    let size = length-++ mac packet in
    rw (valid, take-++ 6 mac packet six, drop-++ 6 mac packet six) (ground arith)

-- A message of a known type with a MAC of six bytes, and a packet that fits, is encoded without an
-- error, to bytes that decode to the same message.
pub decode-encode :
    (t : ℕ) (mac packet : List ℕ)
    → valid_type t ≡ true
    → length mac ≡ 6
    → length packet ≤ 65523
    → (bytes : List ℕ) × (encode_message t mac packet ≡ ok bytes)
      × (decode_message bytes ≡ ok (record { kind = t; mac = mac; payload = packet }))
unfolding encode_message assemble
decode-encode t mac packet valid six fits = (
  protocol_magic ++ (1 ∷ t ∷ (mac ++ packet)),
  ground (arith, full_sideband mac six),
  assembled t mac packet valid six,
)

-- The reverse, byte by byte of the header.
reassembled :
    (bytes : List ℕ) (m : Message)
    → decode_message bytes ≡ ok m
    → (valid_type m.kind ≡ true)
      × (length m.mac ≡ 6)
      × (protocol_magic ++ (1 ∷ m.kind ∷ (m.mac ++ m.payload)) ≡ bytes)
unfolding decode_message text_eq
reassembled (a ∷ b ∷ c ∷ d ∷ v ∷ t ∷ rest) m h =
    ground (arith, take-drop 6 rest, length-take 6 rest)
reassembled _ m h = ground arith

-- Bytes that decode to a message are what that message encodes to, if they are not longer than the
-- longest message.
pub encode-decode :
    (bytes : List ℕ) (m : Message)
    → decode_message bytes ≡ ok m
    → length bytes ≤ 65535
    → encode_message m.kind m.mac m.payload ≡ ok bytes
unfolding encode_message assemble
encode-decode bytes m decoded fits =
    let (valid, six, same) = reassembled bytes m decoded in
    let size = length-++ m.mac m.payload in
    let total = ap length same in rw (← same) (ground (arith, full_sideband m.mac six))

pub encoded_length :
    (t : ℕ) (mac packet bytes : List ℕ)
    → length mac ≡ 6
    → encode_message t mac packet ≡ ok bytes
    → length bytes ≡ 12 + length packet
unfolding encode_message assemble
encoded_length t mac packet bytes six h =
    let size = length-++ mac packet in ground (arith, full_sideband mac six)

pub encoded_fits :
    (t : ℕ) (mac packet bytes : List ℕ)
    → encode_message t mac packet ≡ ok bytes
    → length packet ≤ 65523
unfolding encode_message
encoded_fits t mac packet bytes h = ground arith
