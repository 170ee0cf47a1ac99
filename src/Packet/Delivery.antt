-- ===== src/Packet/Delivery.antt =====
-- What the broker sends: replies reach the client that a flow came from, and the engine sees only
-- packets of clients under the MAC that the table binds them to.
use opensurge_fnos.Base.{
  Bool, List, Option, [], ap, arith, false, none, refl, some, true, ℕ, ◌++◌, ◌+◌, ◌∷◌, ◌≡◌, ◌≤◌,
}
use opensurge_fnos.Exec.{ok}
use opensurge_fnos.Lists.{length, take_all}
use opensurge_fnos.Packet.Broker.{
  Broker, Event, admit, inbound, inbound_parsed, outbound, outbound_decoded, outbound_frame,
  outbound_to, read_inbound, read_outbound, run, step, with_sent,
}
use opensurge_fnos.Packet.Frames.{
  Inbound, NeighborTable, ipv6_destination, lookup, observe, parse_inbound_frame,
}
use opensurge_fnos.Packet.Neighbors.{lookup-observe, lookup-observe_kept}
use opensurge_fnos.Packet.Protocol.{encode_message, message_outbound, valid_type}
use opensurge_fnos.Packet.Roundtrip.{decode-encode, encoded_length}

module _ (gateway_mac : List ℕ) (mtu : ℕ) where
  -- A table with what another knows.
  abbrev pub Extends : NeighborTable → NeighborTable → Type 0
  Extends t t' = (ip m : List ℕ) → lookup t ip ≡ some m → lookup t' ip ≡ some m

  parsed-Extends : (t : NeighborTable) (o : Option Inbound) → Extends t (inbound_parsed t o).0
  unfolding inbound_parsed
  parsed-Extends t none ip m known = known
  parsed-Extends t (some i) ip m known =
      admitted (observe t i.source i.mac) (lookup-observe_kept t ip i.source i.mac m known)
    where
      admitted :
          (r : NeighborTable × Bool) → lookup r.0 ip ≡ some m → lookup (admit i r).0 ip ≡ some m
      admitted (t, true) h = unfold admit in h
      admitted (t, false) h = unfold admit in h

  pub step-Extends :
      (b : Broker) (e : Event) → Extends b.neighbors (step gateway_mac mtu b e).neighbors
  unfolding step read_inbound
  step-Extends b (inbound frame) ip m known =
      parsed-Extends b.neighbors (parse_inbound_frame frame gateway_mac mtu) ip m known
  step-Extends b (outbound datagram) ip m known = known

  pub run-Extends :
      (b : Broker) (es : List Event) → Extends b.neighbors (run gateway_mac mtu b es).neighbors
  unfolding run
  run-Extends b [] ip m known = known
  run-Extends b (e ∷ es) ip m known =
      run-Extends (step gateway_mac mtu b e) es ip m (step-Extends b e ip m known)

  bound-admit :
      (i : Inbound) (r : NeighborTable × Bool)
      → r.1 ≡ true
      → lookup r.0 i.source ≡ some i.mac
      → lookup (admit i r).0 i.source ≡ some i.mac
  unfolding admit
  bound-admit i (t, true) done known = known
  bound-admit i (t, false) done known = known

  -- After an accepted frame the table has its source's MAC.
  learned :
      (b : Broker) (frame : List ℕ) (i : Inbound)
      → parse_inbound_frame frame gateway_mac mtu ≡ some i
      → (observe b.neighbors i.source i.mac).1 ≡ true
      → lookup (step gateway_mac mtu b (inbound frame)).neighbors i.source ≡ some i.mac
  unfolding step read_inbound inbound_parsed
  learned b frame i parsed done = rw parsed (
      bound-admit i (observe b.neighbors i.source i.mac) done
        (lookup-observe b.neighbors i.source i.mac done))

  -- A packet of the engine, encoded, to a client that the table knows.
  sent_to :
      (t : NeighborTable) (side packet ip mac datagram : List ℕ)
      → lookup t ip ≡ some mac
      → ipv6_destination packet ≡ some ip
      → length packet ≤ mtu
      → length packet ≤ 65523
      → length side ≡ 6
      → encode_message message_outbound side packet ≡ ok datagram
      → read_outbound gateway_mac mtu t datagram
        ≡ some (mac ++ (gateway_mac ++ (0x86 ∷ 0xdd ∷ packet)))
  unfolding read_outbound
  sent_to t side packet ip mac datagram known dest small fits six encoded =
      let (bytes, same, decoded) =
        decode-encode message_outbound side packet (unfold valid_type in refl) six fits in
      let e : bytes ≡ datagram = cc in
      let size = encoded_length message_outbound side packet datagram six encoded in
      rw (take_all (mtu + 256) datagram (omega arith)) (
        rw (← e) (
          rw decoded (
            unfold outbound_decoded outbound_to in
            rw (dest, known) (unfold outbound_frame in refl))))

  -- A frame that the broker accepts teaches it the MAC of its source: whatever frames and datagrams
  -- come between, a packet of the engine for that source goes out unchanged, as an IPv6 frame from
  -- the gateway to that MAC.
  pub reply_reaches_client :
      (b : Broker) (frame : List ℕ) (i : Inbound) (es : List Event) (side packet datagram : List ℕ)
      → parse_inbound_frame frame gateway_mac mtu ≡ some i
      → (observe b.neighbors i.source i.mac).1 ≡ true
      → ipv6_destination packet ≡ some i.source
      → length packet ≤ mtu
      → length packet ≤ 65523
      → length side ≡ 6
      → encode_message message_outbound side packet ≡ ok datagram
      → let b' = run gateway_mac mtu (step gateway_mac mtu b (inbound frame)) es in
        (step gateway_mac mtu b' (outbound datagram)).to_network
        ≡ (i.mac ++ (gateway_mac ++ (0x86 ∷ 0xdd ∷ packet))) ∷ b'.to_network
  unfolding step
  reply_reaches_client b frame i es side packet datagram parsed done dest small fits six encoded =
      let b' = run gateway_mac mtu (step gateway_mac mtu b (inbound frame)) es in
      let known =
        run-Extends (step gateway_mac mtu b (inbound frame)) es i.source i.mac
          (learned b frame i parsed done) in
      ap (λ o. with_sent o b'.to_network)
        (sent_to b'.neighbors side packet i.source i.mac datagram known dest small fits six encoded)
