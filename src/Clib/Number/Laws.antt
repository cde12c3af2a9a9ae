-- ===== src/Clib/Number/Laws.antt =====
-- Printed numbers are read back, and are short.

use soml_apps.Common.{
  ℕ, zero, suc, ◌+◌, ◌-◌, ◌*◌, ◌/◌, ◌%◌, ◌<◌, ◌≤◌, ◌≡◌, refl, sym, ap, ◌∙◌, ◌≢◌, append-nil, lt→ltb,
  true, false, [], ◌∷◌, ◌++◌, arith, ltb, Bool-cases, inl, inr, length, ltb→lt,
}
use soml_apps.Clib.Text.{Bytes, skip_spaces, is_digit}
use soml_apps.Clib.Number.{
  signed_decimal, print_digits, decimal, read_digits, strip_sign, atoi, low_word,
}

read_digits-digit :
    (a d : ℕ) (cs : Bytes)
    → d < 10
    → read_digits 10 a ((b'0' + d) ∷ cs) ≡ read_digits 10 (a * 10 + d) cs
unfolding read_digits
read_digits-digit a d cs h = ground arith

read_digits-shift :
    (n : ℕ) (cs : Bytes) → read_digits 10 (n / 10) ((b'0' + n % 10) ∷ cs) ≡ read_digits 10 n cs
read_digits-shift n cs =
    read_digits-digit (n / 10) (n % 10) cs (omega arith)
    ∙ ap (λ m. read_digits 10 m cs) (omega arith)

read_digits-print_digits :
    (fuel n : ℕ) (acc rest : Bytes)
    → n < fuel
    → read_digits 10 0 (print_digits fuel n acc ++ rest) ≡ read_digits 10 n (acc ++ rest)
unfolding print_digits
read_digits-print_digits zero n acc rest h = elim h [ ]
read_digits-print_digits (suc fuel) n acc rest h = elim (Bool-cases (ltb n 10)) [
  | inl small ↦ rw small (
      read_digits-digit 0 (n % 10) (acc ++ rest) (omega arith)
      ∙ ap (λ m. read_digits 10 m (acc ++ rest)) (omega (arith, ltb→lt n 10 small)))
  | inr big ↦ rw big (
      read_digits-print_digits fuel (n / 10) _ rest (ground arith)
      ∙ read_digits-shift n (acc ++ rest))
]

pub read_digits-decimal :
    (n : ℕ) (rest : Bytes) → read_digits 10 0 (decimal n ++ rest) ≡ read_digits 10 n rest
unfolding decimal
read_digits-decimal n rest = read_digits-print_digits (suc n) n [] rest (omega arith)

-- A list of decimal digits, which is what a number is printed as.
abbrev pub AllDigits : Bytes → Type 0
AllDigits [] = Unit
AllDigits (c ∷ cs) = (is_digit c ≡ true) × AllDigits cs

print_digits-AllDigits :
    (fuel n : ℕ) (acc : Bytes) → AllDigits acc → AllDigits (print_digits fuel n acc)
unfolding print_digits
print_digits-AllDigits zero n acc h = h
print_digits-AllDigits (suc fuel) n acc h =
    let here : is_digit (b'0' + n % 10) ≡ true = ground arith in
    elim (Bool-cases (ltb n 10)) [
      | inl small ↦ rw small (here, h)
      | inr big ↦ rw big (print_digits-AllDigits fuel (n / 10) _ (here, h))
    ]

pub decimal-AllDigits : (n : ℕ) → AllDigits (decimal n)
unfolding decimal
decimal-AllDigits n = print_digits-AllDigits (suc n) n [] tt

-- A number below 10 ^ k prints at most k digits.
abbrev ten_to : ℕ → ℕ
ten_to zero = 1
ten_to (suc k) = 10 * ten_to k

length-print_digits :
    (k fuel n : ℕ) (acc : Bytes)
    → n < ten_to (suc k)
    → length (print_digits fuel n acc) ≤ suc k + length acc
unfolding print_digits
length-print_digits k zero n acc h = omega arith
length-print_digits zero (suc fuel) n acc h = rw (lt→ltb n 10 (omega arith)) (omega arith)
length-print_digits (suc k) (suc fuel) n acc h = elim (Bool-cases (ltb n 10)) [
  | inl small ↦ rw small (omega arith)
  | inr big ↦
      rw big
        (omega (arith, length-print_digits k fuel (n / 10) ((b'0' + n % 10) ∷ acc) (omega arith)))
]

pub length-decimal : (n : ℕ) → n < 4294967296 → length (decimal n) ≤ 10
unfolding decimal
length-decimal n h = omega (arith, length-print_digits 9 (suc n) n [] (omega arith))

print_digits-ne-nil : (fuel n : ℕ) (acc : Bytes) → acc ≢ [] → print_digits fuel n acc ≢ []
unfolding print_digits
print_digits-ne-nil zero n acc h = h
print_digits-ne-nil (suc fuel) n acc h = elim (Bool-cases (ltb n 10)) [
  | inl small ↦ rw small (λ e. cc)
  | inr big ↦ rw big (print_digits-ne-nil fuel (n / 10) _ (λ e. cc))
]

-- In front of digits there is neither a space nor a sign.
read_plain : (text : Bytes) → AllDigits text → atoi text ≡ low_word false (read_digits 10 0 text).0
unfolding atoi strip_sign skip_spaces
read_plain [] h = refl
read_plain (c ∷ cs) h = ground arith

pub atoi-decimal : (n : ℕ) → n < 4294967296 → atoi (decimal n) ≡ n
unfolding read_digits
atoi-decimal n h =
    read_plain (decimal n) (decimal-AllDigits n)
    ∙ ap (λ text. low_word false (read_digits 10 0 text).0) (sym (append-nil (decimal n)))
    ∙ ap (λ r. low_word false r.0) (read_digits-decimal n [])
    ∙ omega arith

pub length-signed_decimal : (w : ℕ) → w < 4294967296 → length (signed_decimal w) ≤ 11
unfolding signed_decimal
length-signed_decimal w h = elim (Bool-cases (ltb w 2147483648)) [
  | inl small ↦ rw small (omega (arith, length-decimal w h))
  | inr big ↦ rw big (omega (arith, length-decimal (4294967296 - w) (ground arith)))
]
