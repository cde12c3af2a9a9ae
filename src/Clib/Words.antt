-- ===== src/Clib/Words.antt =====
-- Byte orders: `htonl` and `htons` of a host, otg2/lib/otg2/compat.h, and words as bytes. A word of
-- w bits is a number below 2 ^ w.
use soml_apps.Common.{ℕ, ◌+◌, ◌*◌, ◌/◌, ◌%◌, ◌<◌, ◌≡◌, refl, [], ◌∷◌, arith, ltb, if◌then◌else◌}
use soml_apps.Clib.Text.{Bytes}

-- The byte order of a host.
pub data Host : Type 0 where
  little big : Host

-- The bytes of a word in the other order.
unfoldable pub swap16 : ℕ → ℕ
swap16 v = v % 256 * 256 + v / 256 % 256

unfoldable pub swap32 : ℕ → ℕ
swap32 v = v % 256 * 16777216 + v / 256 % 256 * 65536 + v / 65536 % 256 * 256 + v / 16777216 % 256

-- `htons` and `ntohs`
unfoldable pub htons : Host → ℕ → ℕ
unfolding swap16
htons little v = swap16 v
htons big v = v

-- `htonl` and `ntohl`
unfoldable pub htonl : Host → ℕ → ℕ
unfolding swap32
htonl little v = swap32 v
htonl big v = v

-- `otg_htonll` and `otg_ntohll`, whose two halves share no bit.
unfoldable pub htonll : Host → ℕ → ℕ
unfolding swap32
htonll little v = swap32 (v % 4294967296) * 4294967296 + swap32 (v / 4294967296)
htonll big v = v

-- The bytes that the stamps write for a word, from the highest on.
abbrev pub bytes16 : ℕ → Bytes
bytes16 v = (v / 256 % 256) ∷ (v % 256) ∷ []

abbrev pub bytes32 : ℕ → Bytes
bytes32 v = (v / 16777216 % 256) ∷ (v / 65536 % 256) ∷ (v / 256 % 256) ∷ (v % 256) ∷ []

abbrev pub bytes64 : ℕ → Bytes
bytes64 v =
    (v / 72057594037927936 % 256)
    ∷ (v / 281474976710656 % 256)
    ∷ (v / 1099511627776 % 256)
    ∷ (v / 4294967296 % 256)
    ∷ bytes32 v

-- A `char` as an `int`, which is signed: its bit pattern in 32 bits.
abbrev pub signed_char : ℕ → ℕ
signed_char c = if ltb c 128 then c else c + 4294967040

-- The integers that an `int16_t` and an `int32_t` become as 64-bit unsigned numbers.
abbrev pub extend16 : ℕ → ℕ
extend16 v = if ltb v 32768 then v else v + 18446744073709486080

abbrev pub extend32 : ℕ → ℕ
extend32 v = if ltb v 2147483648 then v else v + 18446744069414584320

pub swap32_bound : (v : ℕ) → swap32 v < 4294967296
unfolding swap32
swap32_bound v = omega arith

pub swap32-swap32 : (v : ℕ) → v < 4294967296 → swap32 (swap32 v) ≡ v
unfolding swap32
swap32-swap32 v h = omega arith

pub htonl_bound : (h : Host) (v : ℕ) → v < 4294967296 → htonl h v < 4294967296
unfolding htonl
htonl_bound little v b = swap32_bound v
htonl_bound big v b = b

pub htonl-htonl : (h : Host) (v : ℕ) → v < 4294967296 → htonl h (htonl h v) ≡ v
unfolding htonl
htonl-htonl little v b = swap32-swap32 v b
htonl-htonl big v b = refl

pub htonll_bound : (h : Host) (v : ℕ) → v < 18446744073709551616 → htonll h v < 18446744073709551616
unfolding htonll
htonll_bound little v b =
    omega (arith, swap32_bound (v % 4294967296), swap32_bound (v / 4294967296))
htonll_bound big v b = b

halves : (a b : ℕ) → b < 4294967296 → (a * 4294967296 + b) % 4294967296 ≡ b
halves a b h = omega arith

halves_high : (a b : ℕ) → b < 4294967296 → (a * 4294967296 + b) / 4294967296 ≡ a
halves_high a b h = omega arith

pub htonll-htonll : (h : Host) (v : ℕ) → v < 18446744073709551616 → htonll h (htonll h v) ≡ v
unfolding htonll
htonll-htonll little v b =
    let low = swap32 (v / 4294967296) in
    let high = swap32 (v % 4294967296) in
    rw
      (
        halves high low (swap32_bound _),
        halves_high high low (swap32_bound _),
        swap32-swap32 (v / 4294967296) (omega arith),
        swap32-swap32 (v % 4294967296) (omega arith),
      )
      (omega arith)
htonll-htonll big v b = refl
