-- ===== src/Packet/Clients.antt =====
-- The engine is given packets of clients only, each under the MAC that the table binds its source
-- to, whatever the broker has read.
use opensurge_fnos.Base.{
  All, Bool, List, Option, [], ap, arith, false, if◌then◌else◌, ltb, none, not, refl, some, subst,
  true, ℕ, ◌++◌, ◌+◌, ◌||◌, ◌∙◌, ◌∷◌, ◌≡◌, ◌≤◌,
}
use opensurge_fnos.Exec.{Result, err, ok}
use opensurge_fnos.Lists.{drop, length, length-drop, length-take, take}
use opensurge_fnos.Packet.Broker.{
  Broker, Event, admit, forward, hello, idle_broker, inbound, inbound_parsed, outbound,
  read_inbound, run, step, with_sent,
}
use opensurge_fnos.Packet.Delivery.{Extends}
use opensurge_fnos.Packet.Frames.{
  Inbound, NeighborTable, admit_packet, destination_of, in_downstream, is_global_unicast,
  is_version6, lookup, observe, parse_inbound_frame, source_of,
}
use opensurge_fnos.Packet.Neighbors.{lookup-observe, lookup-observe_kept}
use opensurge_fnos.Packet.Protocol.{
  Message, ProtocolErr, decode_message, encode_message, message_hello, message_inbound, valid_type,
}
use opensurge_fnos.Packet.Roundtrip.{decode-encode, encoded_fits}

-- A message of the kind that the engine expects, with a packet of a client for a destination that
-- is off the link.
pub record IsClientPacket (t : NeighborTable) (bytes : List ℕ) : Type 0 where
  pub message : Message
  pub decoded : decode_message bytes ≡ ok message
  pub is_inbound : message.kind ≡ message_inbound
  pub bound : lookup t (source_of message.payload) ≡ some message.mac
  pub from_client : in_downstream (source_of message.payload) ≡ true
  pub off_link : in_downstream (destination_of message.payload) ≡ false
  pub global : is_global_unicast (destination_of message.payload) ≡ true

-- What the parser lets through.
record IsAdmitted (i : Inbound) : Type 0 where
  six : length i.mac ≡ 6
  source : i.source ≡ source_of i.packet
  from_client : in_downstream (source_of i.packet) ≡ true
  off_link : in_downstream (destination_of i.packet) ≡ false
  global : is_global_unicast (destination_of i.packet) ≡ true

-- A guard that lets a result through has failed to stop it.
passed :
    {A : Type 0} (b : Bool) (o : Option A) (a : A)
    → (if b then none else o) ≡ some a
    → (b ≡ false) × (o ≡ some a)
passed true o a h = absurd cc
passed false o a h = (refl, h)

both_pass : (a b : Bool) → (not a || not b) ≡ false → (a ≡ true) × (b ≡ true)
both_pass true true h = (refl, refl)
both_pass true false h = absurd cc
both_pass false b h = absurd cc

packet-IsAdmitted :
    (mac packet : List ℕ) (i : Inbound)
    → length mac ≡ 6
    → admit_packet mac packet ≡ some i
    → IsAdmitted i
unfolding admit_packet
packet-IsAdmitted mac packet i six h =
    let version = passed (not (is_version6 packet)) _ i h in
    let addresses =
      passed
        (not (in_downstream (source_of packet)) || not (is_global_unicast (destination_of packet)))
        _ i version.1 in
    let route = passed (in_downstream (destination_of packet)) _ i addresses.1 in
    let ends = both_pass _ _ addresses.0 in
    let same : record { packet = packet; source = source_of packet; mac = mac } ≡ i =
      cc (route.1) in
    subst IsAdmitted same (record {
      six = six;
      source = refl;
      from_client = ends.0;
      off_link = route.0;
      global = ends.1;
    })

frame-IsAdmitted :
    (gateway_mac frame : List ℕ) (mtu : ℕ) (i : Inbound)
    → parse_inbound_frame frame gateway_mac mtu ≡ some i
    → IsAdmitted i
unfolding parse_inbound_frame
frame-IsAdmitted gateway_mac frame mtu i h =
    let header = passed _ _ i h in
    let macs = passed _ _ i header.1 in
    packet-IsAdmitted (take 6 (drop 6 frame)) (drop 14 frame) i
      (length-take 6 (drop 6 frame) (long_enough frame mtu _ _ header.0)) macs.1
  where
    long_enough :
        (frame : List ℕ) (mtu : ℕ) (a b : Bool)
        → (ltb (length frame) (14 + 40) || ltb (14 + mtu) (length frame) || a || b) ≡ false
        → 6 ≤ length (drop 6 frame)
    long_enough frame mtu a b h = ground (arith, length-drop 6 frame)

forwarded-IsClientPacket :
    (t : NeighborTable) (i : Inbound) (bytes : List ℕ)
    → IsAdmitted i
    → lookup t i.source ≡ some i.mac
    → encode_message message_inbound i.mac i.packet ≡ ok bytes
    → IsClientPacket t bytes
forwarded-IsClientPacket t i bytes a known encoded =
    let (out, same, decoded) =
      decode-encode message_inbound i.mac i.packet (unfold valid_type in refl) a.six
        (encoded_fits message_inbound i.mac i.packet bytes encoded) in
    let e : out ≡ bytes = cc in
    let m : Message = record { kind = message_inbound; mac = i.mac; payload = i.packet } in
    record {
      message = m;
      decoded = subst (λ x. decode_message x ≡ ok m) e decoded;
      is_inbound = refl;
      bound = subst (λ x. lookup t x ≡ some i.mac) a.source known;
      from_client = a.from_client;
      off_link = a.off_link;
      global = a.global;
    }

-- More bindings leave a client's packet one.
IsClientPacket-Extends :
    (gateway_mac : List ℕ) (mtu : ℕ) (t t' : NeighborTable) (bytes : List ℕ)
    → Extends gateway_mac mtu t t'
    → IsClientPacket t bytes
    → IsClientPacket t' bytes
IsClientPacket-Extends gateway_mac mtu t t' bytes grows c = record {
  message = c.message;
  decoded = c.decoded;
  is_inbound = c.is_inbound;
  bound = grows (source_of c.message.payload) c.message.mac c.bound;
  from_client = c.from_client;
  off_link = c.off_link;
  global = c.global;
}

All-grow :
    (gateway_mac : List ℕ) (mtu : ℕ) (t t' : NeighborTable) (sent : List (List ℕ))
    → Extends gateway_mac mtu t t'
    → All (IsClientPacket t) sent
    → All (IsClientPacket t') sent
All-grow gateway_mac mtu t t' [] grows h = tt
All-grow gateway_mac mtu t t' (x ∷ xs) grows h = (
  IsClientPacket-Extends gateway_mac mtu t t' x grows h.0,
  All-grow gateway_mac mtu t t' xs grows h.1,
)

abbrev pub no_mac : List ℕ
no_mac = 0 ∷ 0 ∷ 0 ∷ 0 ∷ 0 ∷ 0 ∷ []

module _ (gateway_mac : List ℕ) (mtu : ℕ) where
  -- What a round adds to what was sent.
  added :
      (t : NeighborTable) (i : Inbound) (sent : List (List ℕ)) (r : NeighborTable × Bool)
      → IsAdmitted i
      → (r.1 ≡ true → lookup r.0 i.source ≡ some i.mac)
      → All (IsClientPacket r.0) sent
      → All (IsClientPacket (admit i r).0) (with_sent (admit i r).1 sent)
  unfolding admit
  added t i sent (t', false) a known h = h
  added t i sent (t', true) a known h = sent_on (encode_message message_inbound i.mac i.packet) refl
    where
      sent_on :
          (r : Result ProtocolErr (List ℕ))
          → encode_message message_inbound i.mac i.packet ≡ r
          → All (IsClientPacket t') (with_sent (forward r) sent)
      sent_on (err e) same = unfold forward in h
      sent_on (ok bytes) same =
          unfold forward in (forwarded-IsClientPacket t' i bytes a (known refl) same, h)

  parsed_sent :
      (t : NeighborTable) (o : Option Inbound) (sent : List (List ℕ))
      → ((i : Inbound) → o ≡ some i → IsAdmitted i)
      → All (IsClientPacket t) sent
      → let r = inbound_parsed t o in All (IsClientPacket r.0) (with_sent r.1 sent)
  unfolding inbound_parsed
  parsed_sent t none sent admitted h = h
  parsed_sent t (some i) sent admitted h =
      added t i sent (observe t i.source i.mac) (admitted i refl) (lookup-observe t i.source i.mac)
        (All-grow gateway_mac mtu t (observe t i.source i.mac).0 sent
          (λ ip m known. lookup-observe_kept t ip i.source i.mac m known) h)

  -- The packets that were sent after `before` are of clients.
  abbrev pub SendsClients : List (List ℕ) → Broker → Type 0
  SendsClients before b =
      (sent : List (List ℕ)) × (b.to_engine ≡ sent ++ before)
      × All (IsClientPacket b.neighbors) sent

  with_sent-++ :
      (o : Option (List ℕ)) (xs ys : List (List ℕ)) → with_sent o (xs ++ ys) ≡ with_sent o xs ++ ys
  with_sent-++ none xs ys = refl
  with_sent-++ (some x) xs ys = refl

  step_sent :
      (before : List (List ℕ)) (b : Broker) (e : Event)
      → SendsClients before b
      → SendsClients before (step gateway_mac mtu b e)
  unfolding step read_inbound
  step_sent before b (inbound frame) (sent, same, h) =
      let parsed = parse_inbound_frame frame gateway_mac mtu in
      let out = (inbound_parsed b.neighbors parsed).1 in
      (
        with_sent out sent,
        ap (with_sent out) same ∙ with_sent-++ out sent before,
        parsed_sent b.neighbors parsed sent
            (λ i parsed. frame-IsAdmitted gateway_mac frame mtu i parsed) h,
      )
  step_sent before b (outbound datagram) h = h

  run_sent :
      (before : List (List ℕ)) (b : Broker) (es : List Event)
      → SendsClients before b
      → SendsClients before (run gateway_mac mtu b es)
  unfolding run
  run_sent before b [] h = h
  run_sent before b (e ∷ es) h =
      run_sent before (step gateway_mac mtu b e) es (step_sent before b e h)

  -- Whatever frames and datagrams a broker has read since it started, the first that it has sent to
  -- the engine is a hello without a packet, and everything since decodes to an inbound message whose
  -- packet has a source in the downstream prefix, a global destination outside of it, and the MAC
  -- that the table binds its source to.
  pub engine_sees_clients :
      (es : List Event)
      → (greeting : List ℕ) × (decode_message greeting
          ≡ ok (record { kind = message_hello; mac = no_mac; payload = [] }))
        × SendsClients (greeting ∷ []) (run gateway_mac mtu idle_broker es)
  unfolding idle_broker hello encode_message decode_message forward
  engine_sees_clients es =
      let greeting : List ℕ = 79 ∷ 83 ∷ 54 ∷ 80 ∷ 1 ∷ 1 ∷ no_mac in
      (greeting, refl, run_sent (greeting ∷ []) idle_broker es ([], refl, tt))
