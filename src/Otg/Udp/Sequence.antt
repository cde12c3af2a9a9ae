-- ===== src/Otg/Udp/Sequence.antt =====
-- The sequence number that `UDPInPort::nextPacket` reads from the bytes that
-- `UDPOutPort::sendPacket` wrote: `extractInt32Val` reads them as signed characters.
use soml_apps.Common.{ℕ, ◌+◌, ◌*◌, ◌/◌, ◌%◌, ◌<◌, ◌≡◌, ◌∙◌, ◌↔◌, sym, ap, arith}
use soml_apps.Clib.Words.{Host, htonl, signed_char, extend32, htonl_bound, htonl-htonl}

-- The number that four bytes become.
abbrev pub signed_word : ℕ → ℕ → ℕ → ℕ → ℕ
signed_word a b c d =
    (signed_char a * 16777216 + signed_char b * 65536 + signed_char c * 256 + signed_char d)
    % 4294967296

-- What is read of a word that the stamp wrote.
abbrev pub word_read : ℕ → ℕ
word_read n = signed_word (n / 16777216 % 256) (n / 65536 % 256) (n / 256 % 256) (n % 256)

-- What arrives of a sequence number.
abbrev pub seq_read : Host → ℕ → ℕ
seq_read h s = extend32 (htonl h (word_read (htonl h (s % 4294967296))))

-- The lower three bytes of a word have no sign bit.
abbrev pub NoSigns : ℕ → Type 0
NoSigns n = (n / 65536 % 256 < 128) × (n / 256 % 256 < 128) × (n % 256 < 128)

bytes_of :
    (n : ℕ)
    → n < 4294967296
    → n ≡ n / 16777216 % 256 * 16777216 + n / 65536 % 256 * 65536 + n / 256 % 256 * 256 + n % 256
bytes_of n h = omega arith

signed_word_same :
    (a b c d : ℕ)
    → a < 256
    → b < 128
    → c < 128
    → d < 128
    → signed_word a b c d ≡ a * 16777216 + b * 65536 + c * 256 + d
signed_word_same a b c d ha hb hc hd = ground arith

signed_word-eq :
    (a b c d : ℕ)
    → a < 256
    → b < 256
    → c < 256
    → d < 256
    → signed_word a b c d ≡ a * 16777216 + b * 65536 + c * 256 + d
    → (b < 128) × (c < 128) × (d < 128)
signed_word-eq a b c d ha hb hc hd e = ground arith

pub word_read_iff : (n : ℕ) → n < 4294967296 → (word_read n ≡ n) ↔ NoSigns n
word_read_iff n h =
    let a = n / 16777216 % 256 in
    let b = n / 65536 % 256 in
    let c = n / 256 % 256 in
    let d = n % 256 in
    (
      λ e.
          signed_word-eq a b c d (omega arith) (omega arith) (omega arith) (omega arith)
            (e ∙ bytes_of n h),
      λ s. signed_word_same a b c d (omega arith) s.0 s.1 s.2 ∙ sym (bytes_of n h),
    )

-- A sequence number arrives if it fits in 31 bits, and no byte of the word behind the first that
-- is sent has its sign bit.
abbrev pub Survives : Host → ℕ → Type 0
Survives h s = (s < 2147483648) × NoSigns (htonl h s)

word_read_bound : (n : ℕ) → word_read n < 4294967296
word_read_bound n = omega arith

extend32-eq : (m s : ℕ) → s < 9223372036854775808 → extend32 m ≡ s → (m ≡ s) × (s < 2147483648)
extend32-eq m s h e = ground arith

extend32_small : (m : ℕ) → m < 2147483648 → extend32 m ≡ m
extend32_small m h = ground arith

arrived :
    (h : Host) (s : ℕ)
    → s < 2147483648
    → htonl h (word_read (htonl h s)) ≡ s
    → word_read (htonl h s) ≡ htonl h s
arrived h s small e =
    sym (htonl-htonl h (word_read (htonl h s)) (word_read_bound (htonl h s))) ∙ ap (htonl h) e

pub seq_read_iff : (h : Host) (s : ℕ) → s < 9223372036854775808 → (seq_read h s ≡ s) ↔ Survives h s
seq_read_iff h s small = (
  (λ e.
      let (same, fits) = extend32-eq (htonl h (word_read (htonl h (s % 4294967296)))) s small e in
      let low : s % 4294967296 ≡ s = omega arith in
      (
        fits,
        (word_read_iff (htonl h s) (htonl_bound h s (omega arith))).0
            (arrived h s fits (rw low at same)),
      )),
  (λ v.
      let low : s % 4294967296 ≡ s = omega (arith, v.0) in
      rw (
        low,
        (word_read_iff (htonl h s) (htonl_bound h s (omega (arith, v.0)))).1 v.1,
        htonl-htonl h s (omega (arith, v.0)),
        extend32_small s v.0,
      )),
)
