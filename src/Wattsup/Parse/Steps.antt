-- ===== src/Wattsup/Parse/Steps.antt =====
-- One round of the loop of `parse_packet` in wattsup/wattsup.c, and of the list of fields.
use mathlib.Core.Option
use mathlib.Core.Option.{some-injective}
use soml_apps.Common.{
  ℕ, suc, ◌+◌, ◌<◌, ◌≡◌, ap, ◌∙◌, sym, Option, none, some, [], ◌∷◌, ◌++◌, arith, ltb, if◌then◌else◌,
  drop, set, length, get_elem?, drop-append, lt→ltb,
}
use soml_apps.Clib.Run.{ok, success, failed, efault}
use soml_apps.Clib.Text.{
  Bytes, until_nul, find_byte, is_delimiter, strpbrk, leading_spaces, skip_spaces, string_at,
}
use soml_apps.Clib.Text.Laws.{
  NoNul, until_nul-NoNul, leading_spaces-append, until_nul-drop_spaces, split,
}
use soml_apps.Wattsup.Packet.{into_buf, Packet, field_text}
use soml_apps.Wattsup.Parse.{parse_fields, store_field, skip_from}
use soml_apps.Wattsup.Parse.Spec.{fields_of}

-- The packet with its next field terminated and pointed to.
abbrev pub stored : ℕ → ℕ → ℕ → Packet → Packet
stored i s next p = record p {
  buf = set p.buf next 0;
  field = set p.field i (into_buf (skip_from (set p.buf next 0) s));
}

abbrev pub stored_last : ℕ → ℕ → Packet → Packet
stored_last i s p = record p { field = set p.field i (into_buf (skip_from p.buf s)) }

pub parse_fields-some :
    (k i s next : ℕ) (p : Packet)
    → strpbrk p.buf s ≡ some next
    → i < length p.field
    → parse_fields (suc k) i s p ≡ parse_fields k (suc i) (suc next) (stored i s next p)
unfolding parse_fields
parse_fields-some k i s next p e h = rw (e, parse_fields) (unfold store_field in rw (lt→ltb _ _ h))

pub parse_fields-none :
    (i s : ℕ) (p : Packet)
    → strpbrk p.buf s ≡ none
    → i < length p.field
    → parse_fields 1 i s p ≡ ok (stored_last i s p, success)
unfolding parse_fields
parse_fields-none i s p e h = rw (e, parse_fields) (unfold store_field in rw (lt→ltb _ _ h))

pub parse_fields-malformed :
    (k i s : ℕ) (p : Packet)
    → strpbrk p.buf s ≡ none
    → parse_fields (suc (suc k)) i s p ≡ ok (p, failed efault)
unfolding parse_fields
parse_fields-malformed k i s p e = rw (e, parse_fields, lt→ltb 0 (suc k) (omega arith))

-- A pointer behind the leading spaces of a field in a buffer.
pub field_at :
    (pre f rest buf : Bytes) (s : ℕ)
    → NoNul f
    → s ≡ length pre
    → buf ≡ pre ++ (f ++ 0 ∷ rest)
    → string_at buf (s + leading_spaces f) ≡ skip_spaces f
field_at pre f rest buf s clean e b =
    let text = f ++ 0 ∷ rest in
    ap (λ t. until_nul (drop (s + leading_spaces f) t)) b
    ∙ ap until_nul (drop-append pre text (s + leading_spaces f) (leading_spaces f) (omega arith))
    ∙ ap (λ l. until_nul (drop l text)) (sym (leading_spaces-append f rest))
    ∙ until_nul-drop_spaces text
    ∙ ap skip_spaces (until_nul-NoNul f rest clean)

pub field_text_of :
    (q : Packet) (i : ℕ) {o : ℕ} {t : Bytes}
    → get_elem? q.field i ≡ some (into_buf o)
    → string_at q.buf o ≡ t
    → field_text q i ≡ ok t
unfolding field_text
field_text_of q i e h = rw e (ap ok h)

-- Where the search starts, the buffer is known.
pub strpbrk_at :
    (pre buf : Bytes) (s : ℕ) (p : Packet) {o : Option ℕ}
    → p.buf ≡ pre ++ buf
    → s ≡ length pre
    → find_byte is_delimiter buf ≡ o
    → strpbrk p.buf s ≡ Option.map (λ k. s + k) o
strpbrk_at pre buf s p at here found =
    ap (λ b. Option.map (λ k. s + k) (find_byte is_delimiter b))
      (ap (drop s) at ∙ drop-append pre buf s 0 (omega arith))
    ∙ ap (Option.map (λ k. s + k)) found

pub fields_of-some :
    (k : ℕ) (text : Bytes) {f rest : Bytes}
    → split is_delimiter text ≡ some (f, rest)
    → fields_of (suc k) text ≡ Option.map (λ fs. skip_spaces f ∷ fs) (fields_of k rest)
unfolding fields_of
fields_of-some k text e = rw (e, fields_of)

pub fields_of-none :
    (text : Bytes)
    → split is_delimiter text ≡ none
    → (k : ℕ) → fields_of (suc k) text ≡ (if ltb 0 k then none else some (skip_spaces text ∷ []))
unfolding fields_of
fields_of-none text e k = rw (e, fields_of)
