-- ===== src/Wattsup/Options/Letters.antt =====
-- The letters of the options of wattsup/wattsup.c and their long names.
use mathlib.Core.Option
use soml_apps.Common.{
  ℕ, zero, suc, Bool, true, false, ◌≡◌, refl, ap, ◌∙◌, sym, Option, none, some, List, [], ◌∷◌, ◌==◌,
  if◌then◌else◌, get_elem?, Bool-cases, inl, inr,
}
use soml_apps.Clib.Text.{Bytes}
use soml_apps.Wattsup.State.{Given}
use soml_apps.Wattsup.Options.{
  Opt, help, version, debug, verbose, quiet, count, final, delim, newline, localtime, gmtime, label,
  suppress, cal, header, interval, mode, user, info_all, no_data, set_only, index, Spelling,
  wu_options, enable_long_option, enable_short_option, make_shortopt, make_longopt, LongOption,
}

-- The place of the first option with this letter.
unfoldable pub place_of : List Spelling → ℕ → Option ℕ
place_of [] c = none
place_of (o ∷ os) c = if o.shortopt == c then some 0 else Option.map suc (place_of os c)

-- The letter of an option, by its place in the table.
unfoldable pub letter_of : Opt → ℕ
letter_of o = elim (get_elem? wu_options (index o)) [ none ↦ 0 | some s ↦ s.shortopt ]

abbrev at_place : Option ℕ → Option Bytes → List Given → List Given
at_place none arg gs = gs
at_place (some i) arg gs = enable_long_option i arg gs

at_place-suc :
    (place : Option ℕ) (arg : Option Bytes) (g : Given) (gs : List Given)
    → at_place (Option.map suc place) arg (g ∷ gs) ≡ g ∷ at_place place arg gs
unfolding enable_long_option
at_place-suc none arg g gs = refl
at_place-suc (some i) arg g gs = refl

at_place-nil : (place : Option ℕ) (arg : Option Bytes) → at_place place arg [] ≡ []
unfolding enable_long_option
at_place-nil none arg = refl
at_place-nil (some i) arg = refl

enable_short_option-place_of :
    (os : List Spelling) (c : ℕ) (arg : Option Bytes) (gs : List Given)
    → enable_short_option os c arg gs ≡ at_place (place_of os c) arg gs
unfolding enable_short_option place_of enable_long_option
enable_short_option-place_of [] c arg gs = refl
enable_short_option-place_of (o ∷ os) c arg [] = sym (at_place-nil _ arg)
enable_short_option-place_of (o ∷ os) c arg (g ∷ gs) = elim (Bool-cases (o.shortopt == c)) [
  | inl same ↦ rw same refl
  | inr other ↦ rw other (
      ap (◌∷◌ g) (enable_short_option-place_of os c arg gs)
      ∙ sym (at_place-suc (place_of os c) arg g gs))
]

place_of-letter_of : (o : Opt) → place_of wu_options (letter_of o) ≡ some (index o)
unfolding place_of letter_of
place_of-letter_of help = refl
place_of-letter_of version = refl
place_of-letter_of debug = refl
place_of-letter_of verbose = refl
place_of-letter_of quiet = refl
place_of-letter_of count = refl
place_of-letter_of final = refl
place_of-letter_of delim = refl
place_of-letter_of newline = refl
place_of-letter_of localtime = refl
place_of-letter_of gmtime = refl
place_of-letter_of label = refl
place_of-letter_of suppress = refl
place_of-letter_of cal = refl
place_of-letter_of header = refl
place_of-letter_of interval = refl
place_of-letter_of mode = refl
place_of-letter_of user = refl
place_of-letter_of info_all = refl
place_of-letter_of no_data = refl
place_of-letter_of set_only = refl

-- How `getopt` reads its string of letters: a letter with two colons behind it has an optional
-- parameter, and with one a required one.
abbrev colons : Bytes → ℕ
colons [] = 0
colons (c ∷ []) = if c == b':' then 1 else 0
colons (c ∷ d ∷ cs) = if c == b':' then (if d == b':' then 2 else 1) else 0

unfoldable pub getopt_arg : Bytes → ℕ → ℕ
unfolding colons
getopt_arg [] c = 0
getopt_arg (s ∷ ss) c = if s == c then colons ss else getopt_arg ss c

-- The parameter that a long option has, by its place.
unfoldable pub getopt_long_arg : List LongOption → ℕ → ℕ
getopt_long_arg [] i = 0
getopt_long_arg (l ∷ ls) zero = l.has_arg
getopt_long_arg (l ∷ ls) (suc i) = getopt_long_arg ls i

-- `optarg`: what is written to an option, if it may have a parameter.
abbrev pub optarg : ℕ → Option Bytes → Option Bytes
optarg zero written = none
optarg (suc n) written = written

-- Whether the parameter is optional.
abbrev pub is_optional : Opt → Bool
is_optional interval = true
is_optional mode = true
is_optional user = true
is_optional _ = false

-- The letter of an option is read as its long name is, but with no parameter if it is optional.
short_arg :
    (o : Opt) (written : Option Bytes)
    → optarg (getopt_arg (make_shortopt wu_options) (letter_of o)) written ≡ (
        if is_optional o
        then none
        else optarg (getopt_long_arg (make_longopt wu_options) (index o)) written)
unfolding getopt_arg getopt_long_arg make_shortopt make_longopt letter_of
short_arg help w = refl
short_arg version w = refl
short_arg debug w = refl
short_arg verbose w = refl
short_arg quiet w = refl
short_arg count w = refl
short_arg final w = refl
short_arg delim w = refl
short_arg newline w = refl
short_arg localtime w = refl
short_arg gmtime w = refl
short_arg label w = refl
short_arg suppress w = refl
short_arg cal w = refl
short_arg header w = refl
short_arg interval w = refl
short_arg mode w = refl
short_arg user w = refl
short_arg info_all w = refl
short_arg no_data w = refl
short_arg set_only w = refl

-- As getopt reads the tables of `make_shortopt` and `make_longopt`, the letter of an option sets
-- the same flag and the same value as its long name, except that the letters `i`, `m` and `u` never
-- get the parameter that the long names `interval`, `mode` and `user` may have.
pub enable_short_option-letter_of :
    (o : Opt) (written : Option Bytes) (gs : List Given)
    → (let short = optarg (getopt_arg (make_shortopt wu_options) (letter_of o)) written in
        let long = optarg (getopt_long_arg (make_longopt wu_options) (index o)) written in
        enable_short_option wu_options (letter_of o) short gs
        ≡ enable_long_option (index o) (if is_optional o then none else long) gs)
enable_short_option-letter_of o written gs =
    let short = optarg (getopt_arg (make_shortopt wu_options) (letter_of o)) written in
    enable_short_option-place_of wu_options (letter_of o) short gs
    ∙ ap (λ place. at_place place short gs) (place_of-letter_of o)
    ∙ ap (λ arg. enable_long_option (index o) arg gs) (short_arg o written)
