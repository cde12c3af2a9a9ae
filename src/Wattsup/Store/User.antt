-- ===== src/Wattsup/Store/User.antt =====
-- How `wu_store_user` of wattsup/wattsup.c reads its parameters.
use soml_apps.Common.{ℕ, zero, suc, ◌<◌, ◌≡◌, refl, ap, ◌∙◌, true, some, [], ◌∷◌, arith}
use soml_apps.Clib.Run.{ok, fault}
use soml_apps.Clib.Text.{Bytes, is_digit}
use soml_apps.Clib.Number.{scan, ulong_word}
use soml_apps.Clib.Text.Laws.{Avoids}
use soml_apps.Wattsup.State.{State}
use soml_apps.Wattsup.Options.{user, index, wu_option_value}
use soml_apps.Wattsup.Store.{
  skip_to_digit, user_parameter, user_parameters, parameters_of, wu_store_user,
}

-- After `k` numbers more, a number is read with no digit behind it.
abbrev pub EndsAfter : ℕ → Bytes → Type 0
EndsAfter zero text = ((scan text).found ≡ true) × Avoids is_digit (scan text).rest
EndsAfter (suc k) text =
    (next : Bytes) × ((scan text).found ≡ true)
    × (skip_to_digit (scan text).rest ≡ ok next)
    × EndsAfter k next

skip_to_digit-Avoids : (text : Bytes) → Avoids is_digit text → skip_to_digit text ≡ fault
unfolding skip_to_digit
skip_to_digit-Avoids [] h = refl
skip_to_digit-Avoids (c ∷ cs) h = rw h.0 (skip_to_digit-Avoids cs h.1)

last_parameter :
    (text : Bytes)
    → (scan text).found ≡ true
    → Avoids is_digit (scan text).rest
    → user_parameter text ≡ fault
unfolding user_parameter
last_parameter text found none_left =
    rw (found, skip_to_digit-Avoids (scan text).rest none_left) refl

next_parameter :
    (text next : Bytes)
    → (scan text).found ≡ true
    → skip_to_digit (scan text).rest ≡ ok next
    → user_parameter text ≡ ok (some (ulong_word (scan text), next))
unfolding user_parameter
next_parameter text next found there = rw (found, there) refl

user_parameters-fault :
    (k : ℕ) (text : Bytes) (s : State) → k < 4 → EndsAfter k text → user_parameters text s ≡ fault
unfolding user_parameters
user_parameters-fault zero text s lt (found, left) = rw (last_parameter text found left) refl
user_parameters-fault (suc zero) text s lt (b, found, there, (found', left)) =
    rw (next_parameter text b found there, last_parameter b found' left) refl
user_parameters-fault (suc (suc zero)) text s lt
      (b, found, there, (c, found', there', (found'', left))) =
    rw
      (
        next_parameter text b found there,
        next_parameter b c found' there',
        last_parameter c found'' left,
      )
      refl
user_parameters-fault (suc (suc (suc zero))) text s lt
      (b, found, there, (c, found', there', (d, found'', there'', (last, left)))) =
    rw
      (
        next_parameter text b found there,
        next_parameter b c found' there',
        next_parameter c d found'' there'',
        last_parameter d last left,
      )
      refl
user_parameters-fault (suc (suc (suc (suc k)))) text s lt h = absurd (omega arith)

-- A value of the option `user` that holds one to four numbers, and no digit behind the last one,
-- makes `wu_store_user` read past the end of the text; so it does with exactly the four numbers
-- that it is to take.
pub wu_store_user-fault :
    (k : ℕ) (text : Bytes) (s : State)
    → k < 4
    → wu_option_value s (index user) ≡ some text
    → EndsAfter k text
    → wu_store_user s ≡ fault
unfolding wu_store_user parameters_of
wu_store_user-fault k text s lt value ends =
    ap (λ o. parameters_of o s) value ∙ user_parameters-fault k text s lt ends
