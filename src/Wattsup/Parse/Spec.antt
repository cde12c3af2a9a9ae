-- ===== src/Wattsup/Parse/Spec.antt =====
-- What a packet of wattsup/wattsup.c says: the text behind `#`, split at its commas and its `;`,
-- with no buffer and no pointers.
use mathlib.Core.Option
use soml_apps.Common.{ℕ, zero, suc, Option, none, some, List, [], ◌∷◌, ltb, ◌==◌, if◌then◌else◌}
use soml_apps.Clib.Text.{Bytes, is_delimiter, skip_spaces}
use soml_apps.Clib.Text.Laws.{split}
use soml_apps.Clib.Number.{atoi}

pub record Message : Type 0 where
  pub cmd : ℕ
  pub sub_cmd : ℕ
  pub count : ℕ
  pub fields : List Bytes

-- The last field may end with the text.
unfoldable pub fields_of : ℕ → Bytes → Option (List Bytes)
fields_of zero text = some []
fields_of (suc k) text = elim (split is_delimiter text) [
  | some (f, rest) ↦ Option.map (λ fs. skip_spaces f ∷ fs) (fields_of k rest)
  | none ↦ if ltb 0 k then none else some (skip_spaces text ∷ [])
]

-- A command is the first character up to its comma, or the comma itself.
abbrev pub first_char : Bytes → ℕ
first_char [] = b','
first_char (c ∷ cs) = c

abbrev pub split_char : ℕ → Bytes → Option (Bytes × Bytes)
split_char c = split (λ b. b == c)

infixl 5 ◌>>=◌
abbrev pub ◌>>=◌ {ℓ κ} : {A : Type ℓ} {B : Type κ} → Option A → (A → Option B) → Option B
none >>= f = none
some a >>= f = f a

-- The parts of a packet's text, with the parameters not yet split.
pub record Header : Type 0 where
  pub cmd : ℕ
  pub sub_cmd : ℕ
  pub number : Bytes
  pub parameters : Bytes

unfoldable pub header_count : ℕ → ℕ → Bytes → Option Header
header_count cmd sub_cmd text = do
  (number, rest) ← split_char b',' text
  some (record { cmd = cmd; sub_cmd = sub_cmd; number = number; parameters = rest })

unfoldable pub header_sub_cmd : ℕ → Bytes → Option Header
unfolding header_count
header_sub_cmd cmd text = do
  (sub_cmd, rest) ← split_char b',' text
  header_count cmd (first_char sub_cmd) rest

unfoldable pub header_cmd : Bytes → Option Header
unfolding header_sub_cmd
header_cmd text = do (cmd, rest) ← split_char b',' text; header_sub_cmd (first_char cmd) rest

unfoldable pub header_of : Bytes → Option Header
unfolding header_cmd
header_of text = do (junk, rest) ← split_char b'#' text; header_cmd rest

-- The number of parameters that a text announces.
abbrev pub announced : Option Header → ℕ
announced none = 0
announced (some h) = atoi h.number

unfoldable pub with_fields : Header → Option Message
unfolding fields_of
with_fields h =
    Option.map
      (λ fs. record { cmd = h.cmd; sub_cmd = h.sub_cmd; count = atoi h.number; fields = fs })
      (fields_of (atoi h.number) h.parameters)

unfoldable pub message_of : Bytes → Option Message
unfolding header_of with_fields
message_of text = header_of text >>= with_fields
