-- ===== src/Clib/Tokens.antt =====
-- `strtok_r` and comparisons of the first bytes of strings.
use soml_apps.Common.{
  ℕ, ◌≡◌, ◌≢◌, refl, ap, ◌∙◌, Bool, true, false, Option, none, some, [], ◌∷◌, ◌++◌, ◌==◌, ◌&&◌,
  if◌then◌else◌, arith,
}
use soml_apps.Clib.Text.{Bytes}

-- A text without its first bytes that pass a test.
unfoldable pub skip_while : (ℕ → Bool) → Bytes → Bytes
skip_while test [] = []
skip_while test (c ∷ cs) = let rest = skip_while test cs in if test c then rest else c ∷ cs

unfoldable pub leading : (ℕ → Bool) → Bytes → Bytes
leading test [] = []
leading test (c ∷ cs) = let rest = leading test cs in if test c then c ∷ rest else []

-- The bytes in front of the first delimiter, and those behind it.
unfoldable pub token : (ℕ → Bool) → Bytes → Bytes
token is_delim [] = []
token is_delim (c ∷ cs) = if is_delim c then [] else c ∷ token is_delim cs

unfoldable pub behind : (ℕ → Bool) → Bytes → Bytes
behind is_delim [] = []
behind is_delim (c ∷ cs) = let rest = behind is_delim cs in if is_delim c then cs else rest

cut : (ℕ → Bool) → Bytes → Option Bytes × Bytes
unfolding token behind
cut is_delim [] = (none, [])
cut is_delim (c ∷ cs) = (some (token is_delim (c ∷ cs)), behind is_delim (c ∷ cs))

-- `strtok_r`: the token, if there is one, and where the next call goes on.
unfoldable pub strtok_r : (ℕ → Bool) → Bytes → Option Bytes × Bytes
unfolding skip_while cut
strtok_r is_delim text = cut is_delim (skip_while is_delim text)

-- The string in the buffer after the first call of `strtok_r` on it.
unfoldable pub chopped : (ℕ → Bool) → Bytes → Bytes
unfolding leading token skip_while
chopped is_delim text = leading is_delim text ++ token is_delim (skip_while is_delim text)

-- `strncmp(text, front, strlen(front)) == 0`
unfoldable pub starts_with : Bytes → Bytes → Bool
starts_with text [] = true
starts_with [] (f ∷ front) = false
starts_with (c ∷ cs) (f ∷ front) = c == f && starts_with cs front

-- No byte of a word is a delimiter.
abbrev pub none_of : (ℕ → Bool) → Bytes → Bool
none_of is_delim [] = true
none_of is_delim (c ∷ cs) = if is_delim c then false else none_of is_delim cs

none_of-cons :
    (is_delim : ℕ → Bool) (c : ℕ) (cs : Bytes)
    → none_of is_delim (c ∷ cs) ≡ true
    → (is_delim c ≡ false) × (none_of is_delim cs ≡ true)
none_of-cons is_delim c cs h = ground arith

token-word :
    (is_delim : ℕ → Bool) (w : Bytes) (d : ℕ) (rest : Bytes)
    → none_of is_delim w ≡ true
    → is_delim d ≡ true
    → (token is_delim (w ++ d ∷ rest) ≡ w) × (behind is_delim (w ++ d ∷ rest) ≡ rest)
unfolding token behind
token-word is_delim [] d rest h e = rw e (refl, refl)
token-word is_delim (c ∷ cs) d rest h e =
    let (plain, plains) = none_of-cons is_delim c cs h in
    let (same, after) = token-word is_delim cs d rest plains e in rw plain (ap (◌∷◌ c) same, after)

-- A word in front of a delimiter is the next token.
pub strtok_r-word :
    (is_delim : ℕ → Bool) (w : Bytes) (d : ℕ) (rest : Bytes)
    → w ≢ []
    → none_of is_delim w ≡ true
    → is_delim d ≡ true
    → strtok_r is_delim (w ++ d ∷ rest) ≡ (some w, rest)
unfolding strtok_r
strtok_r-word is_delim [] d rest some_byte h e = absurd (some_byte refl)
strtok_r-word is_delim (c ∷ cs) d rest some_byte h e =
    let (plain, plains) = none_of-cons is_delim c cs h in
    let (same, after) = token-word is_delim (c ∷ cs) d rest h e in
    rw plain (
      ap (λ t. (some t, behind is_delim (c ∷ cs ++ d ∷ rest))) same
      ∙ ap (λ r. (some (c ∷ cs), r)) after)

-- What stands behind a word: nothing, or a delimiter and some text.
pub data Tail : Type 0 where
  nothing : Tail
  followed : Bytes → Tail

-- The text of a tail, with this delimiter.
abbrev pub tail_text : ℕ → Tail → Bytes
tail_text d nothing = []
tail_text d (followed rest) = d ∷ rest

token-tail :
    (is_delim : ℕ → Bool) (w : Bytes) (d : ℕ) (t : Tail)
    → none_of is_delim w ≡ true
    → is_delim d ≡ true
    → token is_delim (w ++ tail_text d t) ≡ w
unfolding token
token-tail is_delim [] d nothing h e = refl
token-tail is_delim [] d (followed rest) h e = rw e refl
token-tail is_delim (c ∷ cs) d t h e =
    let (plain, plains) = none_of-cons is_delim c cs h in
    rw plain (ap (◌∷◌ c) (token-tail is_delim cs d t plains e))

-- A word is the next token, also at the end of the text.
pub strtok_r-tail :
    (is_delim : ℕ → Bool) (w : Bytes) (d : ℕ) (t : Tail)
    → w ≢ []
    → none_of is_delim w ≡ true
    → is_delim d ≡ true
    → (strtok_r is_delim (w ++ tail_text d t)).0 ≡ some w
unfolding strtok_r
strtok_r-tail is_delim [] d t some_byte h e = absurd (some_byte refl)
strtok_r-tail is_delim (c ∷ cs) d t some_byte h e =
    let (plain, plains) = none_of-cons is_delim c cs h in
    rw plain (ap some (token-tail is_delim (c ∷ cs) d t h e))
