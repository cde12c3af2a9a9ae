-- ===== src/Wattsup/Parse/Stages.antt =====
-- The stages of `parse_packet` in wattsup/wattsup.c in front of its loop, one step each.
use mathlib.Core.Option
use soml_apps.Common.{
  ℕ, zero, suc, ◌+◌, ◌≡◌, refl, ap, ◌∙◌, Option, none, some, [], ◌∷◌, ◌++◌, arith, ◌==◌, drop, set,
  length, drop-append, set-append, ==_iff,
}
use soml_apps.Clib.Run.{ok, failed, efault}
use soml_apps.Clib.Text.{Bytes, until_nul, find_byte, strchr, string_at}
use soml_apps.Clib.Text.Laws.{Found, until_nul-NoNul, append-advance, length-advance}
use soml_apps.Clib.Number.{atoi}
use soml_apps.Wattsup.Packet.{Packet}
use soml_apps.Wattsup.Parse.{
  parse_fields, parse_count, parse_sub_cmd, parse_cmd, parse_hash, byte_at,
}
use soml_apps.Wattsup.Parse.Spec.{first_char}

pub strchr_at :
    (c : ℕ) (pre buf : Bytes) (s : ℕ) (p : Packet) {o : Option ℕ}
    → p.buf ≡ pre ++ buf
    → s ≡ length pre
    → find_byte (λ b. b == c) buf ≡ o
    → strchr p.buf s c ≡ Option.map (λ k. s + k) o
strchr_at c pre buf s p at here found =
    ap (λ b. Option.map (λ k. s + k) (find_byte (λ x. x == c) b))
      (ap (drop s) at ∙ drop-append pre buf s 0 (omega arith))
    ∙ ap (Option.map (λ k. s + k)) found

-- The character at the start of a piece.
pub byte_at-first_char :
    (pre piece rest : Bytes) (s : ℕ) (p : Packet)
    → p.buf ≡ pre ++ (piece ++ b',' ∷ rest)
    → s ≡ length pre
    → byte_at p.buf s ≡ first_char piece
byte_at-first_char [] [] rest zero p at here = rw at
byte_at-first_char [] (c ∷ cs) rest zero p at here = rw at
byte_at-first_char [] piece rest (suc s) p at here = absurd (omega arith)
byte_at-first_char (b ∷ pre) piece rest zero p at here = absurd (omega arith)
byte_at-first_char (b ∷ pre) piece rest (suc s) p at here = rw at (
    byte_at-first_char pre piece rest s (record p { buf = pre ++ (piece ++ b',' ∷ rest) }) refl
      (omega arith))

pub parse_hash-none :
    (p : Packet) → strchr p.buf 0 b'#' ≡ none → parse_hash p ≡ ok (p, failed efault)
unfolding parse_hash
parse_hash-none p e = rw (e, parse_hash)

pub parse_hash-some :
    (p : Packet) {n : ℕ} → strchr p.buf 0 b'#' ≡ some n → parse_hash p ≡ parse_cmd (suc n) p
unfolding parse_hash
parse_hash-some p e = rw (e, parse_hash)

pub parse_cmd-none :
    (s : ℕ) (p : Packet) → strchr p.buf s b',' ≡ none → parse_cmd s p ≡ ok (p, failed efault)
unfolding parse_cmd
parse_cmd-none s p e = rw (e, parse_cmd)

pub parse_cmd-some :
    (s : ℕ) (p : Packet) {n c : ℕ}
    → strchr p.buf s b',' ≡ some n
    → byte_at p.buf s ≡ c
    → parse_cmd s p ≡ parse_sub_cmd (suc n) (record p { cmd = c })
unfolding parse_cmd
parse_cmd-some s p {n} e h =
    rw (e, parse_cmd) (ap (λ c. parse_sub_cmd (suc n) (record p { cmd = c })) h)

pub parse_sub_cmd-none :
    (s : ℕ) (p : Packet) → strchr p.buf s b',' ≡ none → parse_sub_cmd s p ≡ ok (p, failed efault)
unfolding parse_sub_cmd
parse_sub_cmd-none s p e = rw (e, parse_sub_cmd)

pub parse_sub_cmd-some :
    (s : ℕ) (p : Packet) {n c : ℕ}
    → strchr p.buf s b',' ≡ some n
    → byte_at p.buf s ≡ c
    → parse_sub_cmd s p ≡ parse_count (suc n) (record p { sub_cmd = c })
unfolding parse_sub_cmd
parse_sub_cmd-some s p {n} e h =
    rw (e, parse_sub_cmd) (ap (λ c. parse_count (suc n) (record p { sub_cmd = c })) h)

pub parse_count-none :
    (s : ℕ) (p : Packet) → strchr p.buf s b',' ≡ none → parse_count s p ≡ ok (p, failed efault)
unfolding parse_count
parse_count-none s p e = rw (e, parse_count)

-- The packet behind the number of parameters, which a NUL now ends.
abbrev pub counted : ℕ → Bytes → Bytes → Packet → Packet
counted next number buf p = record p { buf = buf; count = atoi number }

pub parse_count-some :
    (s : ℕ) (p : Packet) {n : ℕ} {number buf : Bytes}
    → strchr p.buf s b',' ≡ some n
    → set p.buf n 0 ≡ buf
    → string_at buf s ≡ number
    → parse_count s p ≡ parse_fields (atoi number) 0 (suc n) (counted n number buf p)
unfolding parse_count
parse_count-some s p {n} {number} {buf} e h k =
    rw (e, parse_count)
      (ap (λ b. parse_fields (atoi (string_at b s)) 0 (suc n) (counted n (string_at b s) b p)) h
        ∙ ap (λ t. parse_fields (atoi t) 0 (suc n) (counted n t buf p)) k)

-- A comma found from a place in the buffer on, and the place behind it.
module _ (s : ℕ) (pre buf : Bytes) (p : Packet) {k : ℕ} (at : p.buf ≡ pre ++ buf)
    (here : s ≡ length pre) (f : Found (λ b. b == b',') buf k) where
  pub comma_at : p.buf ≡ pre ++ (f.before ++ b',' ∷ f.after)
  comma_at =
      at
      ∙ ap (λ b. pre ++ b)
          (f.splits ∙ ap (λ c. f.before ++ c ∷ f.after) ((==_iff f.mark b',').0 f.hit))

  pub behind_at : p.buf ≡ (pre ++ (f.before ++ b',' ∷ [])) ++ f.after
  behind_at = comma_at ∙ append-advance pre f.before b',' f.after

  pub behind_here : (c : ℕ) → suc (s + k) ≡ length (pre ++ (f.before ++ c ∷ []))
  behind_here c = omega (arith, f.place, length-advance pre f.before c)

  pub ended_at : set p.buf (s + k) 0 ≡ pre ++ (f.before ++ 0 ∷ f.after)
  ended_at =
      ap (λ b. set b (s + k) 0) comma_at
      ∙ set-append pre (f.before ++ b',' ∷ f.after) (s + k) k 0 (omega arith)
      ∙ ap (λ b. pre ++ b) (set-append f.before (b',' ∷ f.after) k 0 0 (omega (arith, f.place)))

  pub number_at : string_at (pre ++ (f.before ++ 0 ∷ f.after)) s ≡ f.before
  number_at =
      ap until_nul (drop-append pre (f.before ++ 0 ∷ f.after) s 0 (omega arith))
      ∙ until_nul-NoNul f.before f.after f.clean
