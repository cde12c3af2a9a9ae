-- ===== src/Otg/Udp/Stamped.antt =====
-- What the stamps of `UDPOutPort::sendPacket` leave in a packet's buffer.
use soml_apps.Common.{ℕ, ◌+◌, ◌%◌, ◌≤◌, ◌≡◌, refl, [], ◌∷◌, arith}
use soml_apps.Clib.Memory.{overwrite_at}
use soml_apps.Clib.Text.{Bytes}
use soml_apps.Otg.Packet.{Packet, ensure, stamp_packet, append_int16, append_int32, append_int64}
use soml_apps.Otg.Packet.Sound.{ensure_enough, ensure_capacity}
use soml_apps.Clib.Words.{Host, bytes16, bytes32, bytes64, htons, htonl, htonll}
use soml_apps.Otg.Udp.{stamped}

-- The four writes, one over the other.
abbrev pub stamps : Host → ℕ → ℕ → Bytes → Bytes
stamps h flow seq bs = overwrite_at 9 (bytes64 (htonll h (flow % 18446744073709551616))) (
    overwrite_at 5 (bytes32 (htonl h (seq % 4294967296))) (
      overwrite_at 5 (bytes16 (htons h (flow % 32767 % 65536)))
        (overwrite_at 0 (170 ∷ 170 ∷ 2 ∷ []) bs)))

module _ (memory : ℕ → ℕ → ℕ) where
  append_int16_lem :
      (h : Host) (v : ℕ) (p : Packet)
      → p.offset + 4 ≤ p.capacity
      → append_int16 memory h v p ≡ record p {
        payload = overwrite_at (p.offset + 2) (bytes16 (htons h (v % 65536))) p.payload;
        offset = p.offset + 2;
      }
  unfolding append_int16
  append_int16_lem h v p room =
      rw (
        ensure_enough memory (2 + (p.offset + 2)) (record p { offset = p.offset + 2 })
          (omega arith))

  append_int32_lem :
      (h : Host) (v : ℕ) (p : Packet)
      → p.offset + 4 ≤ p.capacity
      → append_int32 memory h v p ≡ record p {
        payload = overwrite_at p.offset (bytes32 (htonl h (v % 4294967296))) p.payload;
        offset = p.offset + 4;
      }
  unfolding append_int32
  append_int32_lem h v p room =
      rw (ensure_enough memory (4 + p.offset) (record p { offset = p.offset + 4 }) (omega arith))

  append_int64_lem :
      (h : Host) (v : ℕ) (p : Packet)
      → p.offset + 8 ≤ p.capacity
      → append_int64 memory h v p ≡ record p {
        payload = overwrite_at p.offset (bytes64 (htonll h (v % 18446744073709551616))) p.payload;
        offset = p.offset + 8;
      }
  unfolding append_int64
  append_int64_lem h v p room =
      rw (ensure_enough memory (8 + p.offset) (record p { offset = p.offset + 8 }) (omega arith))

  appended :
      (h : Host) (flow seq : ℕ) (q : Packet)
      → q.offset ≡ 3
      → 32 ≤ q.capacity
      → append_int64 memory h flow
          (append_int32 memory h seq (append_int16 memory h (flow % 32767) q))
        ≡ record q {
          payload = overwrite_at 9 (bytes64 (htonll h (flow % 18446744073709551616))) (
              overwrite_at 5
                (bytes32 (htonl h (seq % 4294967296)))
                (overwrite_at 5 (bytes16 (htons h (flow % 32767 % 65536))) q.payload));
          offset = 17;
        }
  appended h flow seq q at room =
      let q1 = record q {
        payload = overwrite_at 5 (bytes16 (htons h (flow % 32767 % 65536))) q.payload;
        offset = 5;
      } in
      let q2 = record q1 {
        payload = overwrite_at 5 (bytes32 (htonl h (seq % 4294967296))) q1.payload;
        offset = 9;
      } in
      let step1 : append_int16 memory h (flow % 32767) q ≡ q1 =
        rw (append_int16_lem h (flow % 32767) q (omega arith), at) in
      rw (step1, append_int32_lem h seq q1 (omega arith), append_int64_lem h flow q2 (omega arith))

  pub stamped_lem :
      (h : Host) (p : Packet)
      → stamped memory h p ≡ record (ensure memory 32 p) {
        payload = stamps h p.flow_id p.seq_num (ensure memory 32 p).payload;
        offset = 17;
      }
  unfolding stamped stamp_packet
  stamped_lem h p =
      let q = ensure memory 32 p in
      appended h p.flow_id p.seq_num
        (record q { payload = overwrite_at 0 (170 ∷ 170 ∷ 2 ∷ []) q.payload; offset = 3 }) refl
        (ensure_capacity memory 32 p)
