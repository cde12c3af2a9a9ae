-- ===== src/Otg/Packet/Sound.antt =====
-- The buffer of a packet holds the packet, and the operations of otg2/lib/core/packet.cpp stay in it.
use soml_apps.Common.{
  ℕ, zero, suc, ◌+◌, ◌/◌, ◌≤◌, ◌≡◌, refl, ap, Bool, ◌∷◌, arith, ltb, length, drop, length-drop,
  ◌==◌, ◌&&◌, Bool-cases, inl, inr,
}
use soml_apps.Common.Int.{ℤ}
use soml_apps.Clib.Run.{Run, ok}
use soml_apps.Clib.Text.{Bytes}
use soml_apps.Clib.Words.{Host, htons, htonl, htonll}
use soml_apps.Otg.Packet.{
  Packet, new_bytes, reset, new_packet, ensure, set_payload_size, check_stamp, extract,
  extract_int16, extract_int32, extract_int64, set_time_stamp, version_of, word16, word32, word64,
}

-- The buffer is as long as the packet says, and holds the packet.
pub record IsSound (p : Packet) : Type 0 where
  pub fits : p.size ≤ p.capacity
  pub allocated : length p.payload ≡ p.capacity

pub length-new_bytes : (byte : ℕ → ℕ) (n : ℕ) → length (new_bytes byte n) ≡ n
unfolding new_bytes
length-new_bytes byte zero = refl
length-new_bytes byte (suc n) = ap suc (length-new_bytes byte n)

module _ (memory : ℕ → ℕ → ℕ) where
  pub ensure_enough : (n : ℕ) (p : Packet) → n ≤ p.capacity → ensure memory n p ≡ p
  unfolding ensure
  ensure_enough n p h = ground arith

  pub ensure_capacity : (n : ℕ) (p : Packet) → n ≤ (ensure memory n p).capacity
  unfolding ensure
  ensure_capacity n p = ground arith

  pub ensure-IsSound : (n : ℕ) {p : Packet} → IsSound p → IsSound (ensure memory n p)
  unfolding ensure
  ensure-IsSound n {p} s = ground (arith, length-new_bytes (memory n) n)

  pub new_packet-IsSound : (n : ℕ) (clock : Bool) → IsSound (new_packet memory n clock)
  unfolding new_packet
  new_packet-IsSound n clock = record {
    fits = omega arith;
    allocated = length-new_bytes (memory n) n;
  }

  pub set_payload_size-IsSound :
      (n : ℕ) {p : Packet} → IsSound p → IsSound (set_payload_size memory n p)
  unfolding set_payload_size
  set_payload_size-IsSound n {p} s =
      ground (arith, length-new_bytes (memory (n + n / 2)) (n + n / 2))

pub reset-IsSound : {p : Packet} → IsSound p → IsSound (reset p)
unfolding reset
reset-IsSound s = record { fits = omega arith; allocated = s.allocated }

pub set_time_stamp-IsSound :
    (clock time : ℤ) {p : Packet} → IsSound p → IsSound (set_time_stamp clock time p)
unfolding set_time_stamp
set_time_stamp-IsSound clock time s = ground arith

-- A read that does not fault and leaves a sound packet.
abbrev pub Reads : Run (ℕ × Packet) → Type 0
Reads r = (v : ℕ) × (q : Packet) × (r ≡ ok (v, q)) × IsSound q

version_of-Reads : (bs : Bytes) {p : Packet} → IsSound p → 3 ≤ length bs → Reads (version_of bs p)
unfolding version_of
version_of-Reads (a ∷ b ∷ v ∷ rest) {p} s h = elim (Bool-cases (a == 170 && b == 170)) [
  | inl e ↦
      rw e (v, record p { offset = 3 }, refl, record { fits = s.fits; allocated = s.allocated })
  | inr e ↦
      rw e (255, record p { offset = 0 }, refl, record { fits = s.fits; allocated = s.allocated })
]
version_of-Reads _ s h = absurd (omega arith)

pub check_stamp-Reads : {p : Packet} → IsSound p → Reads (check_stamp p)
unfolding check_stamp
check_stamp-Reads {p} s = elim (Bool-cases (ltb p.size 3)) [
  | inl e ↦
      rw e (255, record p { offset = 0 }, refl, record { fits = s.fits; allocated = s.allocated })
  | inr e ↦ rw e (version_of-Reads p.payload s (ground arith))
]

-- A word is there wherever enough bytes are.
abbrev Readable : (Bytes → Run ℕ) → ℕ → Type 0
Readable word width = (bs : Bytes) → width ≤ length bs → (n : ℕ) × (word bs ≡ ok n)

extract-Reads :
    (word : Bytes → Run ℕ) (to_host : ℕ → ℕ) (width : ℕ) {p : Packet}
    → Readable word width
    → IsSound p
    → Reads (extract word to_host width p)
extract-Reads word to_host width {p} readable s =
    elim (Bool-cases (ltb p.size (p.offset + width))) [
      | inl e ↦ rw e (0, p, refl, s)
      | inr e ↦
          let room : p.offset + width ≤ p.size = ground arith in
          let (n, there) = readable (drop p.offset p.payload) (
            omega (
              arith,
              s.fits,
              s.allocated,
              length-drop p.payload p.offset (omega (arith, s.fits, s.allocated)),
            )) in
          rw (e, there)
            (
              to_host n,
              record p { offset = p.offset + width },
              refl,
              record { fits = s.fits; allocated = s.allocated },
            )
    ]

word16-Readable : Readable word16 2
unfolding word16
word16-Readable (a ∷ b ∷ rest) h = (_, refl)
word16-Readable _ h = absurd (omega arith)

word32-Readable : Readable word32 4
unfolding word32
word32-Readable (a ∷ b ∷ c ∷ d ∷ rest) h = (_, refl)
word32-Readable _ h = absurd (omega arith)

word64-Readable : Readable word64 8
unfolding word64
word64-Readable (a ∷ b ∷ c ∷ d ∷ e ∷ f ∷ g ∷ h ∷ rest) long = (_, refl)
word64-Readable _ long = absurd (omega arith)

pub extract_int16-Reads : (h : Host) {p : Packet} → IsSound p → Reads (extract_int16 h p)
unfolding extract_int16
extract_int16-Reads h s = extract-Reads word16 (htons h) 2 word16-Readable s

pub extract_int32-Reads : (h : Host) {p : Packet} → IsSound p → Reads (extract_int32 h p)
unfolding extract_int32
extract_int32-Reads h s = extract-Reads word32 (htonl h) 4 word32-Readable s

pub extract_int64-Reads : (h : Host) {p : Packet} → IsSound p → Reads (extract_int64 h p)
unfolding extract_int64
extract_int64-Reads h s = extract-Reads word64 (htonll h) 8 word64-Readable s

-- What the generators leave alone when they size a packet.
pub set_payload_size_keeps :
    (memory : ℕ → ℕ → ℕ) (n : ℕ) (p : Packet)
    → ((set_payload_size memory n p).flow_id ≡ p.flow_id)
      × ((set_payload_size memory n p).seq_num ≡ p.seq_num)
      × ((set_payload_size memory n p).ts ≡ p.ts)
      × ((set_payload_size memory n p).size ≡ n)
unfolding set_payload_size
set_payload_size_keeps memory n p = ground arith
