-- ===== src/Wattsup/Wire.antt =====
-- What `wu_write` of wattsup/wattsup.c sends is what `parse_packet` reads.
use mathlib.Core.Option
use soml_apps.Common.{
  ℕ, suc, ◌<◌, ◌≤◌, ◌≡◌, ◌≢◌, refl, ap, ◌∙◌, sym, subst, false, some, List, [], ◌∷◌, ◌++◌, arith,
  ◌==◌, length, take, append_assoc, lt→ltb,
}
use soml_apps.Clib.Run.{ok, success}
use soml_apps.Clib.Text.{Bytes, is_delimiter, skip_spaces, until_nul}
use soml_apps.Clib.Text.Laws.{NoNul, Avoids, split, split-append, NoNul-append, until_nul_of_NoNul}
use soml_apps.Clib.Number.{decimal, signed_decimal}
use soml_apps.Clib.Number.Laws.{AllDigits, decimal-AllDigits, atoi-decimal}
use soml_apps.Wattsup.Packet.{Packet}
use soml_apps.Wattsup.Command.{encode}
use soml_apps.Wattsup.Command.Format.{joined, command_text, Arguments, encode-command_text}
use soml_apps.Wattsup.Parse.{parse_packet}
use soml_apps.Wattsup.Parse.Refines.{Holds, Agrees, parse_packet-Agrees}
use soml_apps.Wattsup.Parse.Spec.{
  fields_of, header_of, header_cmd, header_sub_cmd, header_count, with_fields, message_of,
  announced,
}

-- A parameter that needs no quoting, of which the format has none.
pub record IsPlain (f : Bytes) : Type 0 where
  pub undelimited : Avoids is_delimiter f
  pub no_nul : NoNul f
  pub trimmed : skip_spaces f ≡ f

abbrev pub AllPlain : List Bytes → Type 0
AllPlain [] = Unit
AllPlain (f ∷ fs) = IsPlain f × AllPlain fs

fields_of-joined :
    (f : Bytes) (fs : List Bytes)
    → IsPlain f
    → AllPlain fs
    → fields_of (suc (length fs)) (f ++ (joined fs ++ b';' ∷ [])) ≡ some (f ∷ fs)
unfolding fields_of
fields_of-joined f [] a as_ =
    rw (split-append is_delimiter f b';' [] a.undelimited refl, fields_of)
      (ap (λ g. some (g ∷ [])) a.trimmed)
fields_of-joined f (g ∷ gs) a as_ = rw (append_assoc g (joined gs) (b';' ∷ [])) (
    rw
      (
        split-append is_delimiter f b',' (g ++ (joined gs ++ b';' ∷ [])) a.undelimited refl,
        fields_of,
      )
      (rw a.trimmed (ap (Option.map (λ l. f ∷ l)) (fields_of-joined g gs as_.0 as_.1))))

digits-Avoids : (text : Bytes) → AllDigits text → Avoids (λ b. b == b',') text
digits-Avoids [] h = tt
digits-Avoids (c ∷ cs) h = (ground arith, digits-Avoids cs h.1)

digits-NoNul : (text : Bytes) → AllDigits text → NoNul text
digits-NoNul [] h = tt
digits-NoNul (c ∷ cs) h = (ground arith, digits-NoNul cs h.1)

joined-NoNul : (fs : List Bytes) → AllPlain fs → NoNul (joined fs)
joined-NoNul [] h = tt
joined-NoNul (f ∷ fs) h = (omega arith, NoNul-append f (joined fs) h.0.no_nul (joined-NoNul fs h.1))

-- The command characters and the number of parameters as the callers of `wu_write` set them.
pub record IsCommand (p : Packet) (fs : List Bytes) : Type 0 where
  pub cmd_undelimited : (p.cmd == b',') ≡ false
  pub sub_cmd_undelimited : (p.sub_cmd == b',') ≡ false
  pub cmd_ne_nul : p.cmd ≢ 0
  pub sub_cmd_ne_nul : p.sub_cmd ≢ 0
  pub counted : length fs ≡ p.count
  pub bounded : p.count ≤ 18

signed_decimal-small : (n : ℕ) → n ≤ 18 → signed_decimal n ≡ decimal n
unfolding signed_decimal
signed_decimal-small n h = rw (lt→ltb n 2147483648 (omega arith))

abbrev parameters_text : Bytes → List Bytes → Bytes
parameters_text f fs = f ++ (joined fs ++ b';' ∷ [])

-- The text of a command with its parts told apart.
command_text-parts :
    (p : Packet) (f : Bytes) (fs : List Bytes)
    → IsCommand p (f ∷ fs)
    → command_text p (f ∷ fs)
      ≡ b'#' ∷ p.cmd ∷ b',' ∷ p.sub_cmd ∷ b',' ∷ (decimal p.count ++ b',' ∷ parameters_text f fs)
command_text-parts p f fs c =
    ap (λ n. b'#' ∷ p.cmd ∷ b',' ∷ p.sub_cmd ∷ b',' ∷ (n ++ (joined (f ∷ fs) ++ b';' ∷ [])))
      (signed_decimal-small p.count c.bounded)
    ∙ ap (λ t. b'#' ∷ p.cmd ∷ b',' ∷ p.sub_cmd ∷ b',' ∷ (decimal p.count ++ b',' ∷ t))
        (append_assoc f (joined fs) (b';' ∷ []))

header_of-parts :
    (cmd sub_cmd : ℕ) (number rest : Bytes)
    → (cmd == b',') ≡ false
    → (sub_cmd == b',') ≡ false
    → AllDigits number
    → header_of (b'#' ∷ cmd ∷ b',' ∷ sub_cmd ∷ b',' ∷ (number ++ b',' ∷ rest))
      ≡ some (record { cmd = cmd; sub_cmd = sub_cmd; number = number; parameters = rest })
unfolding header_of header_cmd header_sub_cmd header_count split
header_of-parts cmd sub_cmd number rest c sc d =
    rw (c, sc) (rw (split-append (λ b. b == b',') number b',' rest (digits-Avoids number d) refl))

-- The text of a command says the message that it was made from.
message_of-command_text :
    (p : Packet) (f : Bytes) (fs : List Bytes)
    → IsCommand p (f ∷ fs)
    → AllPlain (f ∷ fs)
    → message_of (command_text p (f ∷ fs))
      ≡ some (record { cmd = p.cmd; sub_cmd = p.sub_cmd; count = p.count; fields = f ∷ fs })
unfolding message_of with_fields
message_of-command_text p f fs c plain =
    ap message_of (command_text-parts p f fs c)
    ∙ rw
        (header_of-parts p.cmd p.sub_cmd (decimal p.count) (parameters_text f fs) c.cmd_undelimited
          c.sub_cmd_undelimited (decimal-AllDigits p.count))
        (rw (atoi-decimal p.count (omega (arith, c.bounded))) (
          ap
            (λ n.
              Option.map
                (λ l. record { cmd = p.cmd; sub_cmd = p.sub_cmd; count = p.count; fields = l })
                (fields_of n (parameters_text f fs)))
            (sym c.counted)
          ∙ ap
              (Option.map
                (λ l. record { cmd = p.cmd; sub_cmd = p.sub_cmd; count = p.count; fields = l }))
              (fields_of-joined f fs plain.0 plain.1)))

command_text-NoNul :
    (p : Packet) (f : Bytes) (fs : List Bytes)
    → IsCommand p (f ∷ fs)
    → AllPlain (f ∷ fs)
    → NoNul (command_text p (f ∷ fs))
command_text-NoNul p f fs c plain =
    let fields =
      NoNul-append (joined (f ∷ fs)) (b';' ∷ []) (joined-NoNul (f ∷ fs) plain) (omega arith) in
    let number =
      rw (← signed_decimal-small p.count c.bounded) at
        (digits-NoNul (decimal p.count) (decimal-AllDigits p.count)) in
    let rest = NoNul-append (signed_decimal p.count) (joined (f ∷ fs) ++ b';' ∷ []) number fields in
    (omega arith, (c.cmd_ne_nul, (omega arith, (c.sub_cmd_ne_nul, (omega arith, rest)))))

-- A device that reads what `wu_write` sent finds the same command, the same number of parameters
-- and the same parameters: for commands of 1 to 18 plain parameters and fewer than 254 bytes, and
-- a receiving packet with 18 fields and room for the terminating NUL.
pub encode-parse_packet :
    (p q r : Packet) (f : Bytes) (fs : List Bytes)
    → IsCommand p (f ∷ fs)
    → AllPlain (f ∷ fs)
    → Arguments p.field 0 (f ∷ fs)
    → length (command_text p (f ∷ fs)) < 254
    → encode p ≡ ok (q, success)
    → take r.len r.buf ≡ take q.len q.buf
    → r.len < length r.buf
    → length r.field ≡ 18
    → (t : Packet) × (parse_packet r ≡ ok (t, success))
      × Holds t (record { cmd = p.cmd; sub_cmd = p.sub_cmd; count = p.count; fields = f ∷ fs })
encode-parse_packet p q r f fs c plain args short sent same room slots =
    let (q', sent', len_is, text_is) =
      encode-command_text p (f ∷ fs) args c.counted (omega (arith, c.bounded)) short in
    let same_packet : q' ≡ q = cc in
    let text : take r.len r.buf ≡ command_text p (f ∷ fs) =
      same ∙ sym (ap (λ x. take x.len x.buf) same_packet) ∙ text_is in
    let read : until_nul (take r.len r.buf) ≡ command_text p (f ∷ fs) =
      ap until_nul text ∙ until_nul_of_NoNul _ (command_text-NoNul p f fs c plain) in
    let few : announced (header_of (until_nul (take r.len r.buf))) ≡ p.count =
      ap (λ t. announced (header_of t)) (read ∙ command_text-parts p f fs c)
      ∙ ap announced (
          header_of-parts p.cmd p.sub_cmd (decimal p.count) (parameters_text f fs) c.cmd_undelimited
            c.sub_cmd_undelimited (decimal-AllDigits p.count))
      ∙ atoi-decimal p.count (omega (arith, c.bounded)) in
    subst (λ o. Agrees o (parse_packet r))
      (ap message_of read ∙ message_of-command_text p f fs c plain)
      (parse_packet-Agrees r room (omega (arith, few, slots, c.bounded)))
