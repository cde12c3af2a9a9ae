-- ===== src/Otg/Address/Digits.antt =====
-- What `setHWAddrFromColonFormat` of otg2/lib/core/address.cpp accepts, and what it reads.
use soml_apps.Common.{
  ℕ, zero, suc, ◌+◌, ◌*◌, ◌/◌, ◌%◌, ◌≤◌, ◌<◌, ◌≡◌, refl, ap, ◌∙◌, sym, true, false, Option, none,
  some, List, [], ◌∷◌, ◌++◌, arith, ltb, leb, ◌==◌, if◌then◌else◌, length, Bool-cases, inl, inr,
  Option-cases,
}
use soml_apps.Clib.Run.{ok}
use soml_apps.Clib.Text.{Bytes}
use soml_apps.Otg.Address.{
  is_hex, hex_value, count_hex, read_bytes, set_hw_addr_from_colon_format, hex_digit, hex_byte,
  colon_text,
}

-- The values of the hexadecimal digits in front of anything else than digits and colons.
unfoldable pub leading_digits : Bytes → List ℕ
leading_digits [] = []
leading_digits (c ∷ cs) =
    if c == 58 then leading_digits cs else if is_hex c then hex_value c ∷ leading_digits cs else []

-- Two digits to a byte.
unfoldable pub paired : ℕ → List ℕ → Option Bytes
paired zero ds = some []
paired (suc k) (a ∷ b ∷ ds) = elim (paired k ds) [
  | none ↦ none
  | some bs ↦ some ((a * 16 + b) ∷ bs)
]
paired (suc k) _ = none

-- The address that a text stands for: six bytes of its leading digits, if there are twelve.
abbrev pub address_of : Bytes → Option Bytes
address_of text = paired 6 (leading_digits text)

hex_value_bound : (c : ℕ) → is_hex c ≡ true → hex_value c < 16
hex_value_bound c h = ground arith

pair_byte :
    (v c : ℕ) → v < 16 → is_hex c ≡ true → (v * 16 + hex_value c) % 256 ≡ v * 16 + hex_value c
pair_byte v c h hex = omega (arith, hex_value_bound c hex)

-- The first loop counts the leading digits up to 12.
count_hex_lem :
    (text : Bytes) (n : ℕ)
    → n ≤ 12
    → count_hex text n
      ≡ (if leb 12 (n + length (leading_digits text)) then 12 else n + length (leading_digits text))
unfolding count_hex leading_digits
count_hex_lem [] n h = ground arith
count_hex_lem (c ∷ cs) n h = elim (Bool-cases (c == 58)) [
  | inl colon ↦ rw (colon, count_hex) (count_hex_lem cs n h)
  | inr other ↦ elim (Bool-cases (is_hex c)) [
    | inl hex ↦ elim (Bool-cases (ltb n 12)) [
      | inl more ↦ rw (other, hex, more, count_hex) (ground (arith, count_hex_lem cs (suc n)))
      | inr full ↦ rw (other, hex, full, count_hex) (ground arith)
    ]
    | inr end ↦ rw (other, end, count_hex) (ground arith)
  ]
]

paired-none : (k : ℕ) (ds : List ℕ) → length ds < k + k → paired k ds ≡ none
unfolding paired
paired-none zero ds h = absurd (omega arith)
paired-none (suc k) [] h = refl
paired-none (suc k) (a ∷ []) h = refl
paired-none (suc k) (a ∷ b ∷ ds) h = rw (paired-none k ds (omega arith))

paired-some : (k : ℕ) (ds : List ℕ) → k + k ≤ length ds → (bs : Bytes) × (paired k ds ≡ some bs)
unfolding paired
paired-some zero ds h = ([], refl)
paired-some (suc k) [] h = absurd (omega arith)
paired-some (suc k) (a ∷ []) h = absurd (omega arith)
paired-some (suc k) (a ∷ b ∷ ds) h =
    let (bs, e) = paired-some k ds (omega arith) in ((a * 16 + b) ∷ bs, rw e)

abbrev with_pending : Option ℕ → List ℕ → List ℕ
with_pending none ds = ds
with_pending (some v) ds = v ∷ ds

abbrev IsDigit : Option ℕ → Type 0
IsDigit none = Unit
IsDigit (some v) = v < 16

-- The second loop pairs the leading digits.
read_bytes_lem :
    (text : Bytes) (left : ℕ) (pending : Option ℕ) {bs : Bytes}
    → IsDigit pending
    → paired left (with_pending pending (leading_digits text)) ≡ some bs
    → read_bytes text left pending ≡ ok bs
unfolding read_bytes leading_digits paired
read_bytes_lem text zero pending d e = ground arith
read_bytes_lem [] (suc left) none d e = cc
read_bytes_lem [] (suc left) (some v) d e = cc
read_bytes_lem (c ∷ cs) (suc left) none d e = elim (Bool-cases (c == 58)) [
  | inl colon ↦ rw (colon, read_bytes) (read_bytes_lem cs (suc left) none tt (rw colon at e))
  | inr other ↦ elim (Bool-cases (is_hex c)) [
    | inl hex ↦
        rw (other, read_bytes)
          (read_bytes_lem cs (suc left) (some (hex_value c)) (hex_value_bound c hex)
            (rw (other, hex) at e))
    | inr end ↦ absurd (let e' = rw (other, end) at e in cc)
  ]
]
read_bytes_lem (c ∷ cs) (suc left) (some v) {bs} d e = elim (Bool-cases (c == 58)) [
  | inl colon ↦ rw (colon, read_bytes) (read_bytes_lem cs (suc left) (some v) d (rw colon at e))
  | inr other ↦ elim (Bool-cases (is_hex c)) [
    | inl hex ↦
        let e' = rw (other, hex) at e in
        elim (Option-cases (paired left (leading_digits cs))) [
          | inl none_left ↦ absurd (ground arith)
          | inr (bs', found) ↦
              let byte = pair_byte v c d hex in
              let same = rw found at e' in
              rw (other, read_bytes, read_bytes_lem cs left none tt found, byte) (cc)
        ]
    | inr end ↦ absurd (let e' = rw (other, end) at e in cc)
  ]
]

-- On every text, without reading behind its end, `setHWAddrFromColonFormat` finds the six bytes of
-- the first twelve hexadecimal digits in front of anything else than digits and colons, and throws
-- exactly if there are fewer; what follows the twelve digits is accepted, whatever it is.
pub set_hw_addr_lem : (text : Bytes) → set_hw_addr_from_colon_format text ≡ ok (address_of text)
unfolding set_hw_addr_from_colon_format
set_hw_addr_lem text = elim (Bool-cases (leb 12 (0 + length (leading_digits text)))) [
  | inl enough ↦
      let (bs, e) = paired-some 6 (leading_digits text) (ground arith) in
      rw (count_hex_lem text 0 (omega arith), enough, read_bytes_lem text 6 none tt e, e)
  | inr few ↦
      let e = paired-none 6 (leading_digits text) (ground arith) in
      rw (count_hex_lem text 0 (omega arith), few, e) (ground arith)
]

hex_digit_lem :
    (d : ℕ)
    → d < 16
    → ((hex_digit d == 58) ≡ false) × (is_hex (hex_digit d) ≡ true) × (hex_value (hex_digit d) ≡ d)
hex_digit_lem d h = ground arith

leading_digits-hex_digit :
    (d : ℕ) (rest : Bytes) → d < 16 → leading_digits (hex_digit d ∷ rest) ≡ d ∷ leading_digits rest
unfolding leading_digits
leading_digits-hex_digit d rest h =
    let (plain, hex, value) = hex_digit_lem d h in rw (plain, hex, value)

-- A printed byte is read as its two digits.
pub leading_digits-hex_byte :
    (b : ℕ) (rest : Bytes)
    → b < 256
    → leading_digits (hex_byte b ++ rest) ≡ b / 16 ∷ b % 16 ∷ leading_digits rest
leading_digits-hex_byte b rest h =
    leading_digits-hex_digit (b / 16) (hex_digit (b % 16) ∷ rest) (omega arith)
    ∙ ap (◌∷◌ (b / 16)) (leading_digits-hex_digit (b % 16) rest (omega arith))

digits_of : Bytes → List ℕ
digits_of [] = []
digits_of (b ∷ bs) = b / 16 ∷ b % 16 ∷ digits_of bs

abbrev pub AllBytes : Bytes → Type 0
AllBytes [] = Unit
AllBytes (b ∷ bs) = (b < 256) × AllBytes bs

leading_digits-colon_text :
    (bs : Bytes) → AllBytes bs → leading_digits (colon_text bs) ≡ digits_of bs
unfolding leading_digits colon_text digits_of
leading_digits-colon_text [] h = refl
leading_digits-colon_text (b ∷ []) h = leading_digits-hex_byte b [] h.0
leading_digits-colon_text (b ∷ c ∷ bs) h =
    leading_digits-hex_byte b (58 ∷ colon_text (c ∷ bs)) h.0
    ∙ ap (λ ds. b / 16 ∷ b % 16 ∷ ds) (leading_digits-colon_text (c ∷ bs) h.1)

paired-digits_of : (bs : Bytes) → paired (length bs) (digits_of bs) ≡ some bs
unfolding paired digits_of
paired-digits_of [] = refl
paired-digits_of (b ∷ bs) = rw (paired-digits_of bs) (ap (λ n. some (n ∷ bs)) (omega arith))

-- Six bytes, printed with `%02X` and colons, are what `setHWAddrFromColonFormat` reads from the
-- text.
pub set_hw_addr-colon_text :
    (mac : Bytes)
    → length mac ≡ 6
    → AllBytes mac
    → set_hw_addr_from_colon_format (colon_text mac) ≡ ok (some mac)
set_hw_addr-colon_text mac n h =
    set_hw_addr_lem (colon_text mac)
    ∙ ap ok (
        ap (paired 6) (leading_digits-colon_text mac h)
        ∙ ap (λ k. paired k (digits_of mac)) (sym n)
        ∙ paired-digits_of mac)
