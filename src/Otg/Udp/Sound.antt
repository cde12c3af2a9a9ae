-- ===== src/Otg/Udp/Sound.antt =====
-- `UDPInPort::nextPacket` reads inside the packet's buffer, whatever arrives.
use soml_apps.Common.{ℕ, ◌≡◌, refl, Option, some, arith, length, take, ◌==◌, Bool-cases, inl, inr}
use soml_apps.Common.Int.{ℤ, negsuc}
use soml_apps.Clib.Memory.{overwrite_at, length-overwrite_at}
use soml_apps.Clib.Run.{ok}
use soml_apps.Clib.Text.{Bytes}
use soml_apps.Otg.Packet.{Packet, ensure, set_time_stamp}
use soml_apps.Otg.Packet.Sound.{
  IsSound, ensure-IsSound, set_payload_size-IsSound, set_time_stamp-IsSound, check_stamp-Reads,
  extract_int16-Reads, extract_int32-Reads, extract_int64-Reads,
}
use soml_apps.Clib.Words.{Host, extend16, extend32}
use soml_apps.Otg.Udp.{next_packet, packet_or_new, read_stamps, Endpoint, UdpRow}

-- The stamps that are read leave a sound packet, in both versions.
read_stamps-IsSound :
    (h : Host) (version : ℕ) {p : Packet}
    → IsSound p
    → (q : Packet) × (read_stamps h version p ≡ ok q) × IsSound q
unfolding read_stamps
read_stamps-IsSound h version {p} s = elim (Bool-cases (version == 1)) [
  | inl one ↦
      let (f, p1, read1, s1) = extract_int16-Reads h s in
      let p2 = record p1 { flow_id = extend16 f } in
      let s2 : IsSound p2 = record { fits = s1.fits; allocated = s1.allocated } in
      let (n, p3, read3, s3) = extract_int32-Reads h s2 in
      rw (one, read1, read3)
        (
          record p3 { seq_num = extend32 n },
          refl,
          record { fits = s3.fits; allocated = s3.allocated },
        )
  | inr other ↦
      let (f, p1, read1, s1) = extract_int16-Reads h s in
      let (n, p2, read2, s2) = extract_int32-Reads h s1 in
      let p3 = record p2 { seq_num = extend32 n } in
      let s3 : IsSound p3 = record { fits = s2.fits; allocated = s2.allocated } in
      let (g, p4, read4, s4) = extract_int64-Reads h s3 in
      rw (other, read1, read2, read4)
        (record p4 { flow_id = g }, refl, record { fits = s4.fits; allocated = s4.allocated })
]

-- Given a packet in its buffer, or none, `nextPacket` returns one with its row for every datagram,
-- reads no byte outside the buffer, and the packet lies in its buffer again.
pub next_packet-IsSound :
    (memory : ℕ → ℕ → ℕ) (h : Host) (clock_ms now : ℤ) (src : Endpoint) (datagram : Bytes)
    (pkt : Option Packet)
    → IsSound (packet_or_new memory pkt)
    → (r : Packet) × (row : UdpRow) × (next_packet memory h clock_ms now src (some datagram) pkt
        ≡ ok (some (r, row)))
      × IsSound r
unfolding next_packet
next_packet-IsSound memory h clock_ms now src datagram pkt sound =
    let p = ensure memory 1024 (packet_or_new memory pkt) in
    let s = ensure-IsSound memory 1024 sound in
    let bytes = take p.capacity datagram in
    let filled = record p { payload = overwrite_at 0 bytes p.payload } in
    let full : IsSound filled = record {
      fits = s.fits;
      allocated = omega (arith, length-overwrite_at 0 bytes p.payload, s.allocated);
    } in
    let (version, q, checked, sq) =
      check_stamp-Reads (set_payload_size-IsSound memory (length bytes) full) in
    let (t, stamps, st) = read_stamps-IsSound h version sq in
    let r = set_time_stamp clock_ms (negsuc 999999) t in
    let row : UdpRow = record {
      now = now;
      flow = r.flow_id;
      seq_no = r.seq_num;
      len = length bytes;
      host = src.host;
      port = src.port;
    } in
    (r, row, rw (checked, stamps), set_time_stamp-IsSound clock_ms (negsuc 999999) st)
