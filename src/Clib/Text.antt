-- ===== src/Clib/Text.antt =====
-- NUL-terminated strings in a buffer, with pointers as offsets: `strlen`, `strchr`, `strpbrk`,
-- `isspace`, `isdigit`, `strcasecmp`.
pub mod Laws
use Prim.Native.Char.{code}
use Prim.Native.String.{String}
use soml_apps.Common.{
  ℕ, zero, suc, ◌+◌, Bool, true, false, not, ◌&&◌, ◌||◌, Option, none, some, List, [], ◌∷◌, leb,
  ◌==◌, if◌then◌else◌, drop,
}
use mathlib.Core.Option

abbrev pub Bytes : Type 0
Bytes = List ℕ

-- The bytes of an ASCII literal.
abbrev pub codes : String → Bytes
codes String.[] = []
codes (String.◌∷◌ c s) = code c ∷ codes s

-- The bytes in front of the first NUL.
unfoldable pub until_nul : Bytes → Bytes
until_nul [] = []
until_nul (c ∷ cs) = if c == 0 then [] else c ∷ until_nul cs

-- The string that a pointer into the buffer stands for.
abbrev pub string_at : Bytes → ℕ → Bytes
string_at buf s = until_nul (drop s buf)

-- How far the first byte that passes the test is, looking no further than the NUL.
unfoldable pub find_byte : (ℕ → Bool) → Bytes → Option ℕ
find_byte test [] = none
find_byte test (c ∷ cs) =
    if test c then some 0 else if c == 0 then none else Option.map suc (find_byte test cs)

-- `strchr(s, c)` for `c` not NUL.
abbrev pub strchr : Bytes → ℕ → ℕ → Option ℕ
strchr buf s c = Option.map (λ k. s + k) (find_byte (λ b. b == c) (drop s buf))

abbrev pub is_delimiter : ℕ → Bool
is_delimiter c = c == b',' || c == b';'

-- `strpbrk(s, ",;")`
abbrev pub strpbrk : Bytes → ℕ → Option ℕ
strpbrk buf s = Option.map (λ k. s + k) (find_byte is_delimiter (drop s buf))

abbrev pub is_space : ℕ → Bool
is_space c = c == b' ' || (leb 9 c && leb c 13)

abbrev pub is_digit : ℕ → Bool
is_digit c = leb b'0' c && leb c b'9'

-- How many bytes `while (isspace(*s)) s++` passes over.
unfoldable pub leading_spaces : Bytes → ℕ
leading_spaces [] = 0
leading_spaces (c ∷ cs) = if is_space c then suc (leading_spaces cs) else 0

unfoldable pub skip_spaces : Bytes → Bytes
skip_spaces [] = []
skip_spaces (c ∷ cs) = let rest = skip_spaces cs in if is_space c then rest else c ∷ cs

abbrev pub lower : ℕ → ℕ
lower c = if leb b'A' c && leb c b'Z' then c + 32 else c

-- `strcasecmp(a, b) == 0`
unfoldable pub same_ignoring_case : Bytes → Bytes → Bool
same_ignoring_case [] [] = true
same_ignoring_case (a ∷ as_) (b ∷ bs) = lower a == lower b && same_ignoring_case as_ bs
same_ignoring_case _ _ = false

-- `strcmp(a, b) == 0`
unfoldable pub same_text : Bytes → Bytes → Bool
same_text [] [] = true
same_text (a ∷ as_) (b ∷ bs) = a == b && same_text as_ bs
same_text _ _ = false
