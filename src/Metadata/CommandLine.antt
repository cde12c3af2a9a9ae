-- ===== src/Metadata/CommandLine.antt =====
-- The command line that `oml_inject_metadata` reconstructs.
use soml_apps.Common.{
  ℕ, zero, suc, ◌+◌, ◌-◌, ◌<◌, ◌≤◌, ◌≡◌, refl, ap, ◌∙◌, sym, List, [], ◌∷◌, ◌++◌, arith, length,
  length-append, take, take_all, append_assoc, append-nil, lt→ltb,
}
use soml_apps.Clib.Run.{ok}
use soml_apps.Clib.Text.{Bytes, codes}
use soml_apps.Metadata.{
  subtract, strncat, total_length, append_arguments, command_line, oml_inject_metadata,
}

-- Each argument, and a space behind it.
abbrev pub spaced : List Bytes → Bytes
spaced [] = []
spaced (a ∷ as_) = a ++ b' ' ∷ spaced as_

subtract-le : (a b : ℕ) → b ≤ a → subtract a b ≡ a - b
subtract-le a b h = ground arith

strncat-fits :
    (size : ℕ) (dest src : Bytes) (n : ℕ)
    → length dest + length src < size
    → take n src ≡ src
    → strncat size dest src n ≡ ok (dest ++ src)
unfolding strncat
strncat-fits size dest src n fits whole =
    rw whole
      (rw (lt→ltb (length (dest ++ src)) size (omega (arith, fits, length-append dest src))) refl)

take-space : (n : ℕ) → 1 ≤ n → take n (codes " ") ≡ codes " "
take-space zero h = absurd (omega arith)
take-space (suc zero) h = refl
take-space (suc (suc n)) h = refl

append_arguments-spaced :
    (size : ℕ) (argv : List Bytes) (text : Bytes) (cmdline_len : ℕ)
    → cmdline_len ≡ total_length argv
    → length text + total_length argv < size
    → append_arguments size argv text cmdline_len ≡ ok (text ++ spaced argv)
unfolding append_arguments total_length
append_arguments-spaced size [] text n e room = ap ok (sym (append-nil text))
append_arguments-spaced size (a ∷ as_) text n e room =
    let left : subtract n (length a) ≡ 1 + total_length as_ =
      subtract-le n (length a) (omega arith) ∙ omega arith in
    let last : subtract (subtract n (length a)) 1 ≡ total_length as_ =
      ap (λ m. subtract m 1) left
      ∙ subtract-le (1 + total_length as_) 1 (omega arith)
      ∙ omega arith in
    let size_of = length-append text a in
    let first = strncat-fits size text a n (omega arith) (take_all a n (omega arith)) in
    let second =
      strncat-fits size (text ++ a) (codes " ") (subtract n (length a)) (omega (arith, size_of))
        (take-space (subtract n (length a)) (omega (arith, left))) in
    rw (first, second)
      (append_arguments-spaced size as_ ((text ++ a) ++ codes " ")
          (subtract (subtract n (length a)) 1) last
          (omega (arith, size_of, length-append (text ++ a) (codes " ")))
        ∙ ap ok (
            append_assoc (text ++ a) (codes " ") (spaced as_)
            ∙ append_assoc text a (b' ' ∷ spaced as_)))

-- The command line that `oml_inject_metadata` reconstructs is every argument with a space behind
-- it: no call of `strncat` writes past the array or cuts an argument short, and `cmdline_len` does
-- not wrap.
pub oml_inject_metadata-spaced :
    (package_name package_version : Bytes) (argv : List Bytes)
    → oml_inject_metadata package_name package_version argv
      ≡ ok (
          record { key = codes "appname"; value = package_name }
          ∷ record { key = codes "version"; value = package_version }
          ∷ record { key = codes "cmdline"; value = spaced argv }
          ∷ [])
unfolding oml_inject_metadata command_line
oml_inject_metadata-spaced package_name package_version argv =
    rw
      (append_arguments-spaced (total_length argv + 1) argv [] (total_length argv) refl
        (omega arith))
      refl
