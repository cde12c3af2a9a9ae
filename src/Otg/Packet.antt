-- ===== src/Otg/Packet.antt =====
-- Packets of otg2: otg2/lib/core/packet.cpp. Sizes and offsets are not negative and stay below the
-- range of `int`. What new memory holds is a function of its size and the place. A time is a whole
-- number of millionths.
pub mod Sound
use soml_apps.Common.{
  ℕ, zero, suc, ◌+◌, ◌*◌, ◌/◌, ◌%◌, ◌≤◌, ◌≡◌, Bool, true, false, ◌&&◌, ◌||◌, Option, none, some,
  List, [], ◌∷◌, ltb, leb, ◌==◌, if◌then◌else◌, length, take, drop,
}
use soml_apps.Common.Int.{ℤ, pos, negsuc}
use soml_apps.Clib.Memory.{overwrite_at}
use soml_apps.Clib.Run.{Run, ok, fault, ◌>>=◌}
use soml_apps.Clib.Text.{Bytes}
use soml_apps.Clib.Words.{Host, htons, htonl, htonll, bytes16, bytes32, bytes64, signed_char}

pub record Packet : Type 0 where
  pub ts : ℤ
  pub tx_time : ℤ
  pub size : ℕ
  pub capacity : ℕ
  pub payload : Bytes
  pub flow_id : ℕ
  pub seq_num : ℕ
  pub offset : ℕ
  pub has_clock : Bool

-- What `new char[n]` holds.
unfoldable pub new_bytes : (ℕ → ℕ) → ℕ → Bytes
new_bytes byte zero = []
new_bytes byte (suc n) = byte n ∷ new_bytes byte n

unfoldable pub reset : Packet → Packet
reset p = record p { ts = pos 0; tx_time = pos 0; size = 0; flow_id = 0; seq_num = 0; offset = 0 }

module _ (memory : ℕ → ℕ → ℕ) where
  abbrev pub allocate : ℕ → Bytes
  allocate n = new_bytes (memory n) n

  -- `Packet(buffer_length, clock)`
  unfoldable pub new_packet : ℕ → Bool → Packet
  new_packet buffer_length has_clock = record {
    ts = pos 0;
    tx_time = pos 0;
    size = 0;
    capacity = buffer_length;
    payload = allocate buffer_length;
    flow_id = 0;
    seq_num = 0;
    offset = 0;
    has_clock = has_clock;
  }

  -- `(int)(1.5 * size)` bytes are allocated where the buffer is too short.
  unfoldable pub set_payload_size : ℕ → Packet → Packet
  set_payload_size size p =
      if ltb p.capacity size
      then record p {
        size = size;
        capacity = size + size / 2;
        payload = allocate (size + size / 2);
      }
      else record p { size = size }

  -- `fillPayload`, with `size` bytes at `inputstream`
  unfoldable pub fill_payload : Bytes → Packet → Packet
  unfolding set_payload_size overwrite_at
  fill_payload bytes p =
      let q = set_payload_size (length bytes) p in
      record q { payload = overwrite_at 0 bytes q.payload }

  -- `getBufferPtr`, called with `maintainContent` 0
  unfoldable pub ensure : ℕ → Packet → Packet
  ensure min_length p =
      if leb min_length p.capacity
      then p
      else record p { capacity = min_length; payload = allocate min_length }

  abbrev pub write_at : ℕ → Bytes → Packet → Packet
  write_at place bytes p = record p { payload = overwrite_at place bytes p.payload }

  unfoldable pub stamp_packet : ℕ → Packet → Packet
  unfolding ensure overwrite_at
  stamp_packet version p =
      let q = ensure 32 p in
      record q { payload = overwrite_at 0 (170 ∷ 170 ∷ version ∷ []) q.payload; offset = 3 }

  -- The three stamps with their default, negative, offset: they append.
  unfoldable pub append_int64 : Host → ℕ → Packet → Packet
  unfolding ensure overwrite_at htonll
  append_int64 h val p =
      let q = ensure (8 + p.offset) (record p { offset = p.offset + 8 }) in
      write_at p.offset (bytes64 (htonll h (val % 18446744073709551616))) q

  unfoldable pub append_int32 : Host → ℕ → Packet → Packet
  unfolding ensure overwrite_at htonl
  append_int32 h val p =
      let q = ensure (4 + p.offset) (record p { offset = p.offset + 4 }) in
      write_at p.offset (bytes32 (htonl h (val % 4294967296))) q

  -- This one writes behind the offset that it has moved.
  unfoldable pub append_int16 : Host → ℕ → Packet → Packet
  unfolding ensure overwrite_at htons
  append_int16 h val p =
      let q = ensure (2 + (p.offset + 2)) (record p { offset = p.offset + 2 }) in
      write_at (p.offset + 2) (bytes16 (htons h (val % 65536))) q

-- The stamp's version, or 255 for -1, with the offset moved behind it.
version_of : Bytes → Packet → Run (ℕ × Packet)
version_of (a ∷ b ∷ v ∷ rest) p =
    if a == 170 && b == 170
    then ok (v, record p { offset = 3 })
    else ok (255, record p { offset = 0 })
version_of _ p = fault

unfoldable pub check_stamp : Packet → Run (ℕ × Packet)
unfolding version_of
check_stamp p = if ltb p.size 3 then ok (255, record p { offset = 0 }) else version_of p.payload p

-- The bytes of a word, read as unsigned and as signed characters.
word64 : Bytes → Run ℕ
word64 (a ∷ b ∷ c ∷ d ∷ e ∷ f ∷ g ∷ h ∷ rest) =
    ok (((((((a * 256 + b) * 256 + c) * 256 + d) * 256 + e) * 256 + f) * 256 + g) * 256 + h)
word64 _ = fault

word32 : Bytes → Run ℕ
word32 (a ∷ b ∷ c ∷ d ∷ rest) = ok (
    (signed_char a * 16777216 + signed_char b * 65536 + signed_char c * 256 + signed_char d)
    % 4294967296)
word32 _ = fault

word16 : Bytes → Run ℕ
word16 (a ∷ b ∷ rest) = ok ((signed_char a * 256 + signed_char b) % 65536)
word16 _ = fault

-- A word at the offset, which moves behind it; 0, with the offset kept, beyond the packet's size.
abbrev pub extract : (Bytes → Run ℕ) → (ℕ → ℕ) → ℕ → Packet → Run (ℕ × Packet)
extract word to_host width p = if ltb p.size (p.offset + width) then ok (0, p) else (do
  nv ← word (drop p.offset p.payload)
  ok (to_host nv, record p { offset = p.offset + width }))

unfoldable pub extract_int64 : Host → Packet → Run (ℕ × Packet)
unfolding word64 htonll
extract_int64 h p = extract word64 (htonll h) 8 p

unfoldable pub extract_int32 : Host → Packet → Run (ℕ × Packet)
unfolding word32 htonl
extract_int32 h p = extract word32 (htonl h) 4 p

unfoldable pub extract_int16 : Host → Packet → Run (ℕ × Packet)
unfolding word16 htons
extract_int16 h p = extract word16 (htons h) 2 p

abbrev pub is_positive : ℤ → Bool
is_positive (pos zero) = false
is_positive (pos (suc n)) = true
is_positive (negsuc n) = false

-- `setTimeStamp`, with the clock's milliseconds at the call.
unfoldable pub set_time_stamp : ℤ → ℤ → Packet → Packet
set_time_stamp clock_ms time p =
    if is_positive time
    then record p { ts = time }
    else if p.has_clock
    then record p { ts = clock_ms }
    else record p { ts = time }
