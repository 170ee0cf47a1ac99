-- ===== src/Packet/Tests.antt =====
-- A client's packet on its way to the engine, and the reply.
use opensurge_fnos.Base.{List, [], arith, refl, some, true, ℕ, ◌++◌, ◌∷◌, ◌≡◌}
use opensurge_fnos.Exec.{ok}
use opensurge_fnos.Lists.{length}
use opensurge_fnos.Packet.Broker.{idle_broker, inbound, outbound, run, step}
use opensurge_fnos.Packet.Clients.{SendsClients, engine_sees_clients, no_mac}
use opensurge_fnos.Packet.Delivery.{reply_reaches_client}
use opensurge_fnos.Packet.Frames.{
  Inbound, ipv6_destination, no_neighbors, observe, parse_inbound_frame,
}
use opensurge_fnos.Packet.Protocol.{
  Message, decode_message, encode_message, message_hello, message_outbound, protocol_magic,
  valid_type,
}
use opensurge_fnos.Packet.Roundtrip.{decode-encode, encode-decode}

abbrev gateway_mac : List ℕ
gateway_mac = 2 ∷ 0 ∷ 0 ∷ 0 ∷ 0 ∷ 1 ∷ []

abbrev client_mac : List ℕ
client_mac = 2 ∷ 0 ∷ 0 ∷ 0 ∷ 0 ∷ 9 ∷ []

-- fdfe:dcba:9878::5
abbrev client : List ℕ
client = 0xfd ∷ 0xfe ∷ 0xdc ∷ 0xba ∷ 0x98 ∷ 0x78 ∷ 0 ∷ 0 ∷ 0 ∷ 0 ∷ 0 ∷ 0 ∷ 0 ∷ 0 ∷ 0 ∷ 5 ∷ []

-- 2001:db8::1
abbrev remote : List ℕ
remote = 0x20 ∷ 1 ∷ 0x0d ∷ 0xb8 ∷ 0 ∷ 0 ∷ 0 ∷ 0 ∷ 0 ∷ 0 ∷ 0 ∷ 0 ∷ 0 ∷ 0 ∷ 0 ∷ 1 ∷ []

abbrev request : List ℕ
request = 0x60 ∷ 0 ∷ 0 ∷ 0 ∷ 0 ∷ 0 ∷ 59 ∷ 64 ∷ (client ++ remote)

abbrev reply : List ℕ
reply = 0x60 ∷ 0 ∷ 0 ∷ 0 ∷ 0 ∷ 0 ∷ 59 ∷ 64 ∷ (remote ++ client)

abbrev frame : List ℕ
frame = gateway_mac ++ (client_mac ++ (0x86 ∷ 0xdd ∷ request))

abbrev arrived : Inbound
arrived = record { packet = request; source = client; mac = client_mac }

abbrev no_side : List ℕ
no_side = 0 ∷ 0 ∷ 0 ∷ 0 ∷ 0 ∷ 0 ∷ []

abbrev reply_message : List ℕ
reply_message = protocol_magic ++ (1 ∷ 3 ∷ (no_side ++ reply))

-- Opens the broker.
run_broker : Unit {0}
unfolding parse_inbound_frame observe ipv6_destination encode_message run step valid_type
    decode_message
run_broker = tt

frame_parsed : parse_inbound_frame frame gateway_mac 1500 ≡ some arrived
unfolding run_broker
frame_parsed = refl

frame_accepted : (observe no_neighbors client client_mac).1 ≡ true
unfolding run_broker
frame_accepted = refl

reply_to_client : ipv6_destination reply ≡ some client
unfolding run_broker
reply_to_client = refl

reply_encoded : encode_message message_outbound no_side reply ≡ ok reply_message
unfolding run_broker
reply_encoded = refl

reply_reaches_client_example :
    let b' =
      run gateway_mac 1500 (step gateway_mac 1500 idle_broker (inbound frame)) (outbound [] ∷ []) in
    (step gateway_mac 1500 b' (outbound reply_message)).to_network
    ≡ (client_mac ++ (gateway_mac ++ (0x86 ∷ 0xdd ∷ reply))) ∷ b'.to_network
unfolding idle_broker
reply_reaches_client_example =
    reply_reaches_client gateway_mac 1500 idle_broker frame arrived (outbound [] ∷ []) no_side reply
      reply_message frame_parsed frame_accepted reply_to_client (omega arith) (omega arith) refl
      reply_encoded

engine_sees_clients_example :
    (greeting : List ℕ) × (decode_message greeting
      ≡ ok (record { kind = message_hello; mac = no_mac; payload = [] }))
    × SendsClients gateway_mac 1500
        (greeting ∷ [])
        (run gateway_mac 1500 idle_broker (inbound frame ∷ inbound [] ∷ []))
engine_sees_clients_example = engine_sees_clients gateway_mac 1500 (inbound frame ∷ inbound [] ∷ [])

-- The frame is forwarded, after the greeting.
one_sent : length (run gateway_mac 1500 idle_broker (inbound frame ∷ inbound [] ∷ [])).to_engine ≡ 2
unfolding run_broker idle_broker
one_sent = refl

outbound_valid : valid_type 3 ≡ true
unfolding run_broker
outbound_valid = refl

decode-encode_example :
    (bytes : List ℕ) × (encode_message 3 client_mac reply ≡ ok bytes)
    × (decode_message bytes ≡ ok (record { kind = 3; mac = client_mac; payload = reply }))
decode-encode_example = decode-encode 3 client_mac reply outbound_valid refl (omega arith)

abbrev reply_decoded : Message
reply_decoded = record { kind = 3; mac = no_side; payload = reply }

reply_decodes : decode_message reply_message ≡ ok reply_decoded
unfolding run_broker
reply_decodes = refl

encode-decode_example : encode_message 3 no_side reply ≡ ok reply_message
encode-decode_example = encode-decode reply_message reply_decoded reply_decodes (omega arith)
