-- ===== src/Clib/Text/Laws.antt =====
-- Strings in a buffer, and a search for a byte against a split of the text.
use mathlib.Core.Option
use soml_apps.Common.{
  ℕ, zero, suc, ◌+◌, ◌<◌, ◌≡◌, ◌≢◌, refl, ap, ◌∙◌, Bool, true, false, Option, none, some, [], ◌∷◌,
  length-append, take, ◌++◌, arith, Option-map-eq-some, ◌==◌, if◌then◌else◌, drop, set, length,
  Bool-cases, inl, inr, append_assoc, sym, subst,
}
use soml_apps.Clib.Text.{Bytes, until_nul, find_byte, leading_spaces, skip_spaces}

-- A text with no NUL in it.
abbrev pub NoNul : Bytes → Type 0
NoNul [] = Unit
NoNul (c ∷ cs) = (c ≢ 0) × NoNul cs

pub until_nul-NoNul : (text rest : Bytes) → NoNul text → until_nul (text ++ 0 ∷ rest) ≡ text
unfolding until_nul
until_nul-NoNul [] rest h = refl
until_nul-NoNul (c ∷ cs) rest h = ground (arith, until_nul-NoNul cs rest h.1)

pub NoNul-until_nul : (buf : Bytes) → NoNul (until_nul buf)
unfolding until_nul
NoNul-until_nul [] = tt
NoNul-until_nul (c ∷ cs) = ground (arith, NoNul-until_nul cs)

pub leading_spaces-append :
    (text rest : Bytes) → leading_spaces (text ++ 0 ∷ rest) ≡ leading_spaces text
unfolding leading_spaces
leading_spaces-append [] rest = refl
leading_spaces-append (c ∷ cs) rest = ground (arith, leading_spaces-append cs rest)

-- Passing over the spaces in the buffer is passing over those of the text.
pub until_nul-drop_spaces :
    (buf : Bytes) → until_nul (drop (leading_spaces buf) buf) ≡ skip_spaces (until_nul buf)
unfolding until_nul leading_spaces skip_spaces
until_nul-drop_spaces [] = refl
until_nul-drop_spaces (c ∷ cs) = ground (arith, until_nul-drop_spaces cs)

-- Moving the end of a known prefix behind a piece and the byte that ends it.
pub append-advance :
    (pre piece : Bytes) (c : ℕ) (rest : Bytes)
    → pre ++ (piece ++ c ∷ rest) ≡ (pre ++ (piece ++ c ∷ [])) ++ rest
append-advance pre piece c rest = sym (
    append_assoc pre (piece ++ c ∷ []) rest ∙ ap (λ b. pre ++ b) (append_assoc piece (c ∷ []) rest))

pub length-advance :
    (pre piece : Bytes) (c : ℕ)
    → length (pre ++ (piece ++ c ∷ [])) ≡ suc (length pre + length piece)
length-advance pre piece c =
    omega (arith, length-append pre (piece ++ c ∷ []), length-append piece (c ∷ []))

-- Ending a buffer at a place is taking what is in front of it.
pub until_nul-set :
    (buf : Bytes) (n : ℕ) → n < length buf → until_nul (set buf n 0) ≡ until_nul (take n buf)
unfolding until_nul
until_nul-set [] n h = elim h [ ]
until_nul-set (c ∷ cs) zero h = refl
until_nul-set (c ∷ cs) (suc n) h = ground (arith, until_nul-set cs n)

-- The text in front of the first byte that passes the test, and the text behind that byte.
unfoldable pub split : (ℕ → Bool) → Bytes → Option (Bytes × Bytes)
split test [] = none
split test (c ∷ cs) =
    if test c then some ([], cs) else Option.map (λ r. (c ∷ r.0, r.1)) (split test cs)

-- Where a search of the buffer succeeds, the buffer and its text split there alike.
pub record Found (test : ℕ → Bool) (buf : Bytes) (k : ℕ) : Type 0 where
  pub before : Bytes
  pub mark : ℕ
  pub after : Bytes
  pub splits : buf ≡ before ++ mark ∷ after
  pub place : k ≡ length before
  pub hit : test mark ≡ true
  pub clean : NoNul before
  pub agrees : split test (until_nul buf) ≡ some (before, until_nul after)

Found-here :
    (test : ℕ → Bool) (c : ℕ) (cs : Bytes) (k : ℕ)
    → test c ≡ true
    → c ≢ 0
    → k ≡ 0
    → Found test (c ∷ cs) k
unfolding until_nul split
Found-here test c cs k hit ne e = record {
  before = [];
  mark = c;
  after = cs;
  splits = refl;
  place = e;
  hit = hit;
  clean = tt;
  agrees = ground arith;
}

Found-cons :
    (test : ℕ → Bool) (c : ℕ) (cs : Bytes) (k : ℕ)
    → test c ≡ false
    → c ≢ 0
    → Found test cs k
    → Found test (c ∷ cs) (suc k)
unfolding until_nul split
Found-cons test c cs k miss ne f = record {
  before = c ∷ f.before;
  mark = f.mark;
  after = f.after;
  splits = ap (◌∷◌ c) f.splits;
  place = ap suc f.place;
  hit = f.hit;
  clean = (ne, f.clean);
  agrees = ground (arith, f.agrees);
}

pub find_byte-Found :
    (test : ℕ → Bool) (buf : Bytes) (k : ℕ)
    → test 0 ≡ false
    → find_byte test buf ≡ some k
    → Found test buf k
unfolding find_byte
find_byte-Found test [] k z h = cc
find_byte-Found test (c ∷ cs) k z h = elim (Bool-cases (test c)) [
  | inl hit ↦ Found-here test c cs k hit (λ e. cc) (ground arith)
  | inr miss ↦ elim (Bool-cases (c == 0)) [
    | inl nul ↦ absurd (ground arith)
    | inr other ↦
        let (m, found, e) = Option-map-eq-some suc (find_byte test cs) (ground arith) in
        subst (Found test (c ∷ cs)) e
          (Found-cons test c cs m miss (ground arith) (find_byte-Found test cs m z found))
  ]
]

pub find_byte-none :
    (test : ℕ → Bool) (buf : Bytes)
    → test 0 ≡ false
    → find_byte test buf ≡ none
    → split test (until_nul buf) ≡ none
unfolding find_byte until_nul split
find_byte-none test [] z h = refl
find_byte-none test (c ∷ cs) z h = ground (arith, find_byte-none test cs z)

-- No byte of the text passes the test.
abbrev pub Avoids : (ℕ → Bool) → Bytes → Type 0
Avoids test [] = Unit
Avoids test (c ∷ cs) = (test c ≡ false) × Avoids test cs

pub split-append :
    (test : ℕ → Bool) (text : Bytes) (d : ℕ) (rest : Bytes)
    → Avoids test text
    → test d ≡ true
    → split test (text ++ d ∷ rest) ≡ some (text, rest)
unfolding split
split-append test [] d rest a h = rw h
split-append test (c ∷ cs) d rest a h =
    rw a.0 (ap (Option.map (λ r. (c ∷ r.0, r.1))) (split-append test cs d rest a.1 h))

pub NoNul-append : (a b : Bytes) → NoNul a → NoNul b → NoNul (a ++ b)
NoNul-append [] b h k = k
NoNul-append (c ∷ cs) b h k = (h.0, NoNul-append cs b h.1 k)

pub until_nul_of_NoNul : (text : Bytes) → NoNul text → until_nul text ≡ text
unfolding until_nul
until_nul_of_NoNul [] h = refl
until_nul_of_NoNul (c ∷ cs) h = ground (arith, until_nul_of_NoNul cs h.1)
