-- ===== src/Packet/Broker.antt =====
-- One round of readInbound and of readOutbound, and a broker that runs both in any order. Of the
-- table, the only state that the two share, each round takes one access under the lock.
use opensurge_fnos.Base.{
  Bool, List, Option, [], false, if◌then◌else◌, none, not, some, true, ℕ, ◌++◌, ◌+◌, ◌==◌, ◌∷◌,
}
use opensurge_fnos.Exec.{Result, err, ok}
use opensurge_fnos.Lists.{take}
use opensurge_fnos.Packet.Frames.{
  Inbound, NeighborTable, ipv6_destination, lookup, no_neighbors, observe, parse_inbound_frame,
}
use opensurge_fnos.Packet.Protocol.{
  Message, ProtocolErr, decode_message, encode_message, message_hello, message_inbound,
  message_outbound,
}

-- A datagram for the engine, where the frame is forwarded.
unfoldable pub forward : Result ProtocolErr (List ℕ) → Option (List ℕ)
forward (ok bytes) = some bytes
forward (err e) = none

unfoldable pub admit : Inbound → NeighborTable × Bool → NeighborTable × Option (List ℕ)
unfolding forward encode_message
admit i (t, false) = (t, none)
admit i (t, true) = (t, forward (encode_message message_inbound i.mac i.packet))

unfoldable pub inbound_parsed : NeighborTable → Option Inbound → NeighborTable × Option (List ℕ)
unfolding admit observe
inbound_parsed t none = (t, none)
inbound_parsed t (some i) = admit i (observe t i.source i.mac)

unfoldable pub read_inbound : List ℕ → ℕ → NeighborTable → List ℕ → NeighborTable × Option (List ℕ)
unfolding inbound_parsed parse_inbound_frame
read_inbound gateway_mac mtu t frame = inbound_parsed t (parse_inbound_frame frame gateway_mac mtu)

-- A frame for the downstream network: the MACs, 0x86dd, and the packet.
unfoldable pub outbound_frame : List ℕ → Option (List ℕ) → List ℕ → Option (List ℕ)
outbound_frame gateway_mac none packet = none
outbound_frame gateway_mac (some mac) packet = some (mac ++ (gateway_mac ++ (0x86 ∷ 0xdd ∷ packet)))

unfoldable pub outbound_to : List ℕ → NeighborTable → List ℕ → Option (List ℕ) → Option (List ℕ)
unfolding outbound_frame lookup
outbound_to gateway_mac t packet none = none
outbound_to gateway_mac t packet (some ip) = outbound_frame gateway_mac (lookup t ip) packet

unfoldable pub outbound_decoded :
    List ℕ → NeighborTable → Result ProtocolErr Message → Option (List ℕ)
unfolding outbound_to ipv6_destination
outbound_decoded gateway_mac t (err e) = none
outbound_decoded gateway_mac t (ok m) =
    if not (m.kind == message_outbound)
    then none
    else outbound_to gateway_mac t m.payload (ipv6_destination m.payload)

-- The buffer takes mtu+256 bytes of a datagram.
unfoldable pub read_outbound : List ℕ → ℕ → NeighborTable → List ℕ → Option (List ℕ)
unfolding outbound_decoded decode_message
read_outbound gateway_mac mtu t datagram =
    outbound_decoded gateway_mac t (decode_message (take (mtu + 256) datagram))

pub data Event : Type 0 where
  inbound : List ℕ → Event  -- a frame of the downstream network
  outbound : List ℕ → Event  -- a datagram of the engine

-- What the broker has sent, the latest first.
pub record Broker : Type 0 where
  pub neighbors : NeighborTable
  pub to_engine : List (List ℕ)
  pub to_network : List (List ℕ)

abbrev pub with_sent : Option (List ℕ) → List (List ℕ) → List (List ℕ)
with_sent none sent = sent
with_sent (some x) sent = x ∷ sent

-- waitForListener greets the engine, before any round.
unfoldable pub hello : List (List ℕ)
unfolding encode_message forward
hello = with_sent (forward (encode_message message_hello [] [])) []

unfoldable pub idle_broker : Broker
unfolding hello
idle_broker = record { neighbors = no_neighbors; to_engine = hello; to_network = [] }

module _ (gateway_mac : List ℕ) (mtu : ℕ) where
  unfoldable pub step : Broker → Event → Broker
  unfolding read_inbound read_outbound
  step b (inbound frame) =
      let (t, out) = read_inbound gateway_mac mtu b.neighbors frame in
      record b { neighbors = t; to_engine = with_sent out b.to_engine }
  step b (outbound datagram) = record b {
    to_network = with_sent (read_outbound gateway_mac mtu b.neighbors datagram) b.to_network;
  }

  unfoldable pub run : Broker → List Event → Broker
  unfolding step
  run b [] = b
  run b (e ∷ es) = run (step b e) es
