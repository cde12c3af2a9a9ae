-- ===== src/Clib/Number.antt =====
-- `strtol`, `strtoul`, `atoi` and the decimal conversions of `printf`. A 32-bit word is its bit
-- pattern, a number below 2 ^ 32; `strtol` clamps at the bounds of a 64-bit `long`.
pub mod Laws
use Prim.Native.Nat.{min}
use soml_apps.Common.{
  ℕ, zero, suc, ◌+◌, ◌-◌, ◌*◌, ◌/◌, ◌%◌, ◌^◌, Bool, true, false, ◌&&◌, ◌||◌, List, [], ◌∷◌, ltb,
  leb, ◌==◌, if◌then◌else◌,
}
use soml_apps.Common.Int.{ℤ, pos, negsuc, sub_ℕ}
use soml_apps.Clib.Text.{Bytes, is_digit, skip_spaces}

abbrev pub u32 : ℕ → ℕ
u32 n = n % 4294967296

-- The digits of a number, in front of `acc`.
unfoldable pub print_digits : ℕ → ℕ → Bytes → Bytes
print_digits zero n acc = acc
print_digits (suc fuel) n acc =
    let acc' = (b'0' + n % 10) ∷ acc in
    let rest = print_digits fuel (n / 10) acc' in if ltb n 10 then acc' else rest

-- `%u`
unfoldable pub decimal : ℕ → Bytes
unfolding print_digits
decimal n = print_digits (suc n) n []

-- `%d` of a 32-bit word
unfoldable pub signed_decimal : ℕ → Bytes
unfolding decimal
signed_decimal w = if ltb w 2147483648 then decimal w else b'-' ∷ decimal (4294967296 - w)

abbrev pub digit_value : ℕ → ℕ
digit_value c = if leb c b'9' then c - b'0' else if leb b'a' c then c - b'a' + 10 else c - b'A' + 10

abbrev pub is_digit_in : ℕ → ℕ → Bool
is_digit_in base c =
    (is_digit c || (leb b'a' c && leb c b'z') || (leb b'A' c && leb c b'Z'))
    && ltb (digit_value c) base

unfoldable pub read_digits : ℕ → ℕ → Bytes → ℕ × Bytes
read_digits base acc [] = (acc, [])
read_digits base acc (c ∷ cs) =
    if is_digit_in base c then read_digits base (acc * base + digit_value c) cs else (acc, c ∷ cs)

-- The sign in front of a number: whether it is negative, and what follows it.
unfoldable pub strip_sign : Bytes → Bool × Bytes
strip_sign [] = (false, [])
strip_sign (c ∷ cs) =
    if c == b'-' then (true, cs) else if c == b'+' then (false, cs) else (false, c ∷ cs)

-- The base that a prefix chooses when `strtol` is called with base 0.
unfoldable pub strip_base : Bytes → ℕ × Bytes
strip_base [] = (10, [])
strip_base (c ∷ x ∷ d ∷ cs) =
    if c == b'0'
    then (if (x == b'x' || x == b'X') && is_digit_in 16 d
        then (16, d ∷ cs)
        else (8, c ∷ x ∷ d ∷ cs))
    else (10, c ∷ x ∷ d ∷ cs)
strip_base (c ∷ cs) = (if c == b'0' then 8 else 10, c ∷ cs)

unfoldable pub starts_number : ℕ → Bytes → Bool
starts_number base [] = false
starts_number base (c ∷ cs) = is_digit_in base c

-- What `strtol(s, &end, 0)` finds: whether there was a number, its sign and magnitude, and `*end`.
pub record Scanned : Type 0 where
  pub found : Bool
  pub negative : Bool
  pub magnitude : ℕ
  pub rest : Bytes

scan_digits : Bytes → Bool → ℕ × Bytes → Scanned
unfolding starts_number read_digits
scan_digits text negative (base, digits) =
    if starts_number base digits
    then (let (v, rest) = read_digits base 0 digits in
        record { found = true; negative = negative; magnitude = v; rest = rest })
    else record { found = false; negative = false; magnitude = 0; rest = text }

unfoldable pub scan : Bytes → Scanned
unfolding scan_digits strip_sign strip_base skip_spaces
scan text =
    let (negative, digits) = strip_sign (skip_spaces text) in
    scan_digits text negative (strip_base digits)

abbrev long_max : ℕ
long_max = 9223372036854775807

-- The low 32 bits of a `long` with this sign and clamped magnitude.
abbrev pub low_word : Bool → ℕ → ℕ
low_word true m = u32 (4294967296 - u32 (min m (long_max + 1)))
low_word false m = u32 (min m long_max)

-- `(int) strtol(s, &end, 0)` as a word.
abbrev pub long_word : Scanned → ℕ
long_word r = low_word r.negative r.magnitude

abbrev ulong_max : ℕ
ulong_max = 18446744073709551615

-- `(unsigned int) strtoul(s, &end, 0)`
abbrev pub ulong_word : Scanned → ℕ
ulong_word r =
    if r.negative && leb r.magnitude ulong_max
    then u32 (4294967296 - u32 r.magnitude)
    else u32 (min r.magnitude ulong_max)

-- `atoi(s)` as a word.
unfoldable pub atoi : Bytes → ℕ
unfolding strip_sign skip_spaces read_digits
atoi text =
    let (negative, digits) = strip_sign (skip_spaces text) in
    low_word negative (read_digits 10 0 digits).0

-- The integer that a word stands for as an `int`.
abbrev pub int_of : ℕ → ℤ
int_of w = if ltb w 2147483648 then pos w else negsuc (4294967295 - w)
