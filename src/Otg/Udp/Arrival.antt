-- ===== src/Otg/Udp/Arrival.antt =====
-- From `UDPOutPort::sendPacket` to `UDPInPort::nextPacket`, on two hosts of one byte order.
use soml_apps.Common.{
  ℕ, ◌≤◌, ◌<◌, ◌≡◌, refl, ap, ◌∙◌, sym, ◌↔◌, true, Option, some, [], ◌∷◌, arith, ge→ltb, length,
  take, drop,
}
use soml_apps.Common.Int.{ℤ}
use soml_apps.Clib.Memory.{overwrite_at, length-overwrite_at}
use soml_apps.Clib.Run.{ok}
use soml_apps.Clib.Text.{Bytes}
use soml_apps.Otg.Packet.{Packet, ensure}
use soml_apps.Clib.Words.{Host}
use soml_apps.Otg.Udp.{stamped, send_packet, next_packet, packet_or_new, Endpoint, UdpRow, sent}
use soml_apps.Otg.Udp.RoundTrip.{sent_bytes, received}
use soml_apps.Otg.Udp.Sequence.{Survives, seq_read_iff}
use soml_apps.Otg.Packet.Sound.{IsSound, ensure-IsSound}
use soml_apps.Otg.Udp.Stamped.{stamps, stamped_lem}

stamps_between :
    (h : Host) (flow seq : ℕ) (bs : Bytes)
    → take 2 (drop 3 (stamps h flow seq bs)) ≡ take 2 (drop 3 bs)
unfolding overwrite_at
stamps_between h flow seq [] = refl
stamps_between h flow seq (a ∷ []) = refl
stamps_between h flow seq (a ∷ b ∷ []) = refl
stamps_between h flow seq (a ∷ b ∷ c ∷ []) = refl
stamps_between h flow seq (a ∷ b ∷ c ∷ d ∷ []) = refl
stamps_between h flow seq (a ∷ b ∷ c ∷ d ∷ e ∷ bs) = refl

module _ (memory : ℕ → ℕ → ℕ) (h : Host) where
  pub stamped-IsSound : {p : Packet} → IsSound p → IsSound (stamped memory h p)
  stamped-IsSound {p} sound =
      let ready = ensure-IsSound memory 32 sound in
      rw (stamped_lem memory h p) (record {
        fits = ready.fits;
        allocated = omega (arith, length-overwrite_at, ready.allocated);
      })

  ensure_keeps :
      (n : ℕ) (p : Packet)
      → ((ensure memory n p).size ≡ p.size)
        × ((ensure memory n p).flow_id ≡ p.flow_id)
        × ((ensure memory n p).seq_num ≡ p.seq_num)
  unfolding ensure
  ensure_keeps n p = ground arith

  pub stamped_keeps :
      (p : Packet)
      → ((stamped memory h p).size ≡ p.size)
        × ((stamped memory h p).flow_id ≡ p.flow_id)
        × ((stamped memory h p).seq_num ≡ p.seq_num)
  stamped_keeps p = rw (stamped_lem memory h p) (ensure_keeps 32 p)

  -- The two bytes in which receivers of the first version look for the flow are not written.
  pub stamped_old_flow :
      (p : Packet)
      → take 2 (drop 3 (stamped memory h p).payload) ≡ take 2 (drop 3 (ensure memory 32 p).payload)
  stamped_old_flow p =
      rw (stamped_lem memory h p)
        (stamps_between h p.flow_id p.seq_num (ensure memory 32 p).payload)

  pub send_packet_lem :
      (dst : Endpoint) (now : ℤ) (p : Packet)
      → IsSound p
      → (row : UdpRow) × (send_packet memory h true dst now p
          ≡ ok (sent (stamped memory h p) (take p.size (stamped memory h p).payload) row))
        × (row.flow ≡ p.flow_id)
        × (row.seq_no ≡ p.seq_num)
        × (row.len ≡ p.size)
  unfolding send_packet
  send_packet_lem dst now p sound =
      let q = stamped memory h p in
      let (same_size, same_flow, same_seq) = stamped_keeps p in
      let fine = stamped-IsSound sound in
      let row : UdpRow = record {
        now = now;
        flow = q.flow_id;
        seq_no = q.seq_num;
        len = q.size;
        host = dst.host;
        port = dst.port;
      } in
      (
        row,
        rw (ge→ltb (length q.payload) q.size (omega (arith, fine.fits, fine.allocated)))
            (ap (λ n. ok (sent q (take n q.payload) row)) same_size),
        same_flow,
        same_seq,
        same_size,
      )

  -- A packet of 17 bytes or more, in its buffer, is sent, and what is sent is received, on hosts of
  -- one byte order and into a packet in its buffer; its flow identifier, below 2 ^ 64, arrives, its
  -- sequence number, below 2 ^ 63, arrives exactly if it is below 2 ^ 31 and the lower three bytes
  -- of the word sent are below 128, and both rows name the same flow.
  pub udp_arrival :
      (memory' : ℕ → ℕ → ℕ) (dst src : Endpoint) (out_now clock_ms in_now : ℤ) (p : Packet)
      (pkt : Option Packet)
      → IsSound p
      → IsSound (packet_or_new memory' pkt)
      → 17 ≤ p.size
      → p.flow_id < 18446744073709551616
      → p.seq_num < 9223372036854775808
      → (q : Packet) × (bytes : Bytes) × (out : UdpRow) × (r : Packet) × (row : UdpRow)
        × (send_packet memory h true dst out_now p ≡ ok (sent q bytes out))
        × (next_packet memory' h clock_ms in_now src (some bytes) pkt ≡ ok (some (r, row)))
        × (r.flow_id ≡ p.flow_id)
        × ((r.seq_num ≡ p.seq_num) ↔ Survives h p.seq_num)
        × (row.flow ≡ out.flow)
  udp_arrival memory' dst src out_now clock_ms in_now p pkt sound ready long small bound =
      let (out, send, same_flow, same_seq, same_size) = send_packet_lem dst out_now p sound in
      let (x, y, rest, wire) = sent_bytes memory h p sound long in
      let (r, row, get, flow, seq, row_flow, row_seq) =
        received h x y p.flow_id p.seq_num rest memory' clock_ms in_now src pkt ready small in
      (
        stamped memory h p,
        take p.size (stamped memory h p).payload,
        out,
        r,
        row,
        send,
        rw wire get,
        flow,
        rw seq (seq_read_iff h p.seq_num bound),
        row_flow ∙ sym same_flow,
      )
