-- ===== src/Otg/Udp/RoundTrip.antt =====
-- A packet that `UDPOutPort::sendPacket` sends and `UDPInPort::nextPacket` receives.
use soml_apps.Common.{
  ℕ, ◌+◌, ◌-◌, ◌*◌, ◌/◌, ◌%◌, ◌≤◌, ◌<◌, ◌≡◌, refl, ap, ◌∙◌, Option, some, [], ◌∷◌, ◌++◌, arith,
  ge→ltb, length, take, drop, take-append_past, length-take-le,
}
use soml_apps.Common.Int.{ℤ, negsuc}
use soml_apps.Clib.Memory.{overwrite, overwrite_at, overwrite-split}
use soml_apps.Clib.Run.{ok}
use soml_apps.Clib.Text.{Bytes}
use soml_apps.Otg.Packet.{
  Packet, ensure, set_payload_size, check_stamp, extract_int16, extract_int32, extract_int64,
  set_time_stamp,
}
use soml_apps.Clib.Words.{Host, bytes32, bytes64, htonl, htonll, htonll_bound, htonll-htonll}
use soml_apps.Otg.Udp.{stamped, next_packet, packet_or_new, read_stamps, Endpoint, UdpRow}
use soml_apps.Otg.Udp.Sequence.{seq_read}
use soml_apps.Otg.Packet.Sound.{IsSound, ensure_capacity, ensure-IsSound}
use soml_apps.Otg.Udp.Stamped.{stamps, stamped_lem}

-- A buffer with at least 17 bytes, the first three of which do not matter.
stamps_shape :
    (h : Host) (flow seq : ℕ) (bs : Bytes)
    → 17 ≤ length bs
    → (x y : ℕ) × (rest : Bytes) × (stamps h flow seq bs
        ≡ 170
          ∷ 170
          ∷ 2
          ∷ x
          ∷ y
          ∷ (bytes32 (htonl h (seq % 4294967296))
              ++ (bytes64 (htonll h (flow % 18446744073709551616)) ++ rest)))
unfolding overwrite_at
stamps_shape h flow seq
      (b0 ∷ b1 ∷ b2 ∷ x ∷ y ∷ b5 ∷ b6 ∷ b7 ∷ b8 ∷ b9 ∷ c0 ∷ c1 ∷ c2 ∷ c3 ∷ c4 ∷ c5 ∷ c6 ∷ rest) n =
    (x, y, rest, refl)
stamps_shape h flow seq _ n = absurd (omega arith)

-- The header of a packet: the stamps as they are read back.
word64_of_bytes :
    (n : ℕ)
    → n < 18446744073709551616
    → ((((((n / 72057594037927936 % 256 * 256 + n / 281474976710656 % 256) * 256
                            + n / 1099511627776 % 256)
                          * 256
                        + n / 4294967296 % 256)
                      * 256
                    + n / 16777216 % 256)
                  * 256
                + n / 65536 % 256)
              * 256
            + n / 256 % 256)
          * 256
        + n % 256
      ≡ n
word64_of_bytes n h = omega arith

-- A buffer that starts with the stamps of version 2.
abbrev pub header : Host → ℕ → ℕ → ℕ → ℕ → Bytes → Bytes
header h x y flow seq rest =
    170
    ∷ 170
    ∷ 2
    ∷ x
    ∷ y
    ∷ (bytes32 (htonl h (seq % 4294967296))
        ++ (bytes64 (htonll h (flow % 18446744073709551616)) ++ rest))

module _ (h : Host) (x y flow seq : ℕ) (rest : Bytes) (p : Packet) where
  abbrev stamped_packet : Packet
  stamped_packet = record p { payload = header h x y flow seq rest }

  check_header :
      3 ≤ p.size → check_stamp stamped_packet ≡ ok (2, record stamped_packet { offset = 3 })
  unfolding check_stamp
  check_header long = rw (ge→ltb p.size 3 long)

  read_header :
      17 ≤ p.size
      → flow < 18446744073709551616
      → read_stamps h 2 (record stamped_packet { offset = 3 })
        ≡ ok (record stamped_packet { flow_id = flow; seq_num = seq_read h seq; offset = 17 })
  unfolding read_stamps extract_int16 extract_int32 extract_int64
  read_header long small =
      let low : flow % 18446744073709551616 ≡ flow = omega arith in
      let n = htonll h flow in
      let bytes = word64_of_bytes n (htonll_bound h flow small) in
      let back = htonll-htonll h flow small in
      rw (
        ge→ltb p.size 5 (omega arith),
        ge→ltb p.size 9 (omega arith),
        ge→ltb p.size 17 (omega arith),
        low,
        bytes,
        back,
      )

set_time_stamp_keeps :
    (clock_ms time : ℤ) (p : Packet)
    → ((set_time_stamp clock_ms time p).flow_id ≡ p.flow_id)
      × ((set_time_stamp clock_ms time p).seq_num ≡ p.seq_num)
unfolding set_time_stamp
set_time_stamp_keeps clock_ms time p = ground arith

module _ (h : Host) (x y flow seq : ℕ) (rest : Bytes) (memory : ℕ → ℕ → ℕ) where
  -- The buffer after `recvfrom`.
  filled :
      (q : Packet)
      → IsSound q
      → 1024 ≤ q.capacity
      → (rest' : Bytes) × (let bytes = take q.capacity (header h x y flow seq rest) in
          set_payload_size memory
            (length bytes)
            (record q { payload = overwrite_at 0 bytes q.payload })
          ≡ stamped_packet h x y flow seq rest' (record q { size = length bytes }))
        × (17 ≤ length (take q.capacity (header h x y flow seq rest)))
  unfolding set_payload_size overwrite_at
  filled q sound room =
      let front = take 17 (header h x y flow seq []) in
      let bytes = take q.capacity (header h x y flow seq rest) in
      let parts : bytes ≡ front ++ take (q.capacity - 17) rest =
        take-append_past front rest q.capacity (omega arith) in
      let short : length bytes ≤ length q.payload =
        omega (arith, length-take-le (header h x y flow seq rest) q.capacity, sound.allocated) in
      let written : overwrite bytes q.payload
          ≡ front ++ (take (q.capacity - 17) rest ++ drop (length bytes) q.payload) =
        overwrite-split bytes q.payload short
        ∙ ap (λ l. l ++ drop (length bytes) q.payload) parts in
      (
        take (q.capacity - 17) rest ++ drop (length bytes) q.payload,
        rw (ge→ltb q.capacity (length bytes) (omega (arith, sound.allocated, short)))
            (ap (λ l. record q { size = length bytes; payload = l }) written),
        omega (arith, ap length parts),
      )

  pub received :
      (clock_ms now : ℤ) (src : Endpoint) (pkt : Option Packet)
      → IsSound (packet_or_new memory pkt)
      → flow < 18446744073709551616
      → (r : Packet) × (row : UdpRow) × (next_packet memory h clock_ms now src
            (some (header h x y flow seq rest))
            pkt
          ≡ ok (some (r, row)))
        × (r.flow_id ≡ flow)
        × (r.seq_num ≡ seq_read h seq)
        × (row.flow ≡ flow)
        × (row.seq_no ≡ seq_read h seq)
  unfolding next_packet
  received clock_ms now src pkt sound small =
      let q0 = packet_or_new memory pkt in
      let q = ensure memory 1024 q0 in
      let bytes = take q.capacity (header h x y flow seq rest) in
      let (rest', shape, long) =
        filled q (ensure-IsSound memory 1024 sound) (ensure_capacity memory 1024 q0) in
      let p = record q { size = length bytes } in
      let read = record (stamped_packet h x y flow seq rest' p) {
        flow_id = flow;
        seq_num = seq_read h seq;
        offset = 17;
      } in
      let r = set_time_stamp clock_ms (negsuc 999999) read in
      let row : UdpRow = record {
        now = now;
        flow = r.flow_id;
        seq_no = r.seq_num;
        len = length bytes;
        host = src.host;
        port = src.port;
      } in
      let (same_flow, same_seq) = set_time_stamp_keeps clock_ms (negsuc 999999) read in
      (
        r,
        row,
        rw (
          shape,
          check_header h x y flow seq rest' p (omega (arith, long)),
          read_header h x y flow seq rest' p long small,
        ),
        same_flow,
        same_seq,
        same_flow,
        same_seq,
      )

-- What a packet of at least 17 bytes is sent as.
pub sent_bytes :
    (memory : ℕ → ℕ → ℕ) (h : Host) (p : Packet)
    → IsSound p
    → 17 ≤ p.size
    → (x y : ℕ) × (rest : Bytes) × (take p.size (stamped memory h p).payload
        ≡ header h x y p.flow_id p.seq_num rest)
sent_bytes memory h p sound long =
    let q = ensure memory 32 p in
    let ready = ensure-IsSound memory 32 sound in
    let (x, y, rest, shape) =
      stamps_shape h p.flow_id p.seq_num q.payload
        (omega (arith, ready.allocated, ensure_capacity memory 32 p)) in
    let front = take 17 (header h x y p.flow_id p.seq_num []) in
    (
      x,
      y,
      take (p.size - 17) rest,
      rw (stamped_lem memory h p, shape) (take-append_past front rest p.size long),
    )
