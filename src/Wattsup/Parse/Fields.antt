-- ===== src/Wattsup/Parse/Fields.antt =====
-- The loop of `parse_packet` in wattsup/wattsup.c: the pointers that it stores stand for the
-- fields of the text.
use mathlib.Core.Option
use mathlib.Core.Option.{some-injective}
use soml_apps.Common.{
  ℕ, zero, suc, ◌+◌, ◌<◌, ◌≤◌, ◌≡◌, refl, ap, ◌∙◌, sym, Option, none, some, List, [], ◌∷◌, ◌++◌,
  arith, drop, set, length, get_elem?, length-set, drop-append, set-append, get_elem?-set_self,
  get_elem?-set_ne, lt→ltb, Option-cases, inl, inr,
}
use soml_apps.Clib.Run.{Run, ok, Status, success, failed, efault}
use soml_apps.Clib.Text.{
  Bytes, until_nul, find_byte, is_delimiter, leading_spaces, skip_spaces, string_at,
}
use soml_apps.Clib.Text.Laws.{
  Found, find_byte-Found, find_byte-none, leading_spaces-append, until_nul-drop_spaces,
  append-advance, length-advance,
}
use soml_apps.Wattsup.Packet.{into_buf, Packet, field_text}
use soml_apps.Wattsup.Parse.{parse_fields, skip_from}
use soml_apps.Wattsup.Parse.Spec.{fields_of}
use soml_apps.Wattsup.Parse.Steps.{
  stored, stored_last, parse_fields-some, parse_fields-none, parse_fields-malformed, field_at,
  field_text_of, strpbrk_at, fields_of-some, fields_of-none,
}

-- What the loop has done from field `i` on, at the end of the text `pre`.
pub record Parsed (i : ℕ) (pre : Bytes) (p q : Packet) (fs : List Bytes) : Type 0 where
  pub behind : Bytes
  pub splits : q.buf ≡ pre ++ behind
  pub kept : (j : ℕ) → j < i → get_elem? q.field j ≡ get_elem? p.field j
  pub texts : (j : ℕ) {f : Bytes} → get_elem? fs j ≡ some f → field_text q (i + j) ≡ ok f
  pub same_cmd : q.cmd ≡ p.cmd
  pub same_sub_cmd : q.sub_cmd ≡ p.sub_cmd
  pub same_count : q.count ≡ p.count
  pub same_label : q.label ≡ p.label

abbrev pub Refines : ℕ → Bytes → Packet → Option (List Bytes) → Run (Packet × Status) → Type 0
Refines i pre p none r = (q : Packet) × (r ≡ ok (q, failed efault))
Refines i pre p (some fs) r = (q : Packet) × (r ≡ ok (q, success)) × Parsed i pre p q fs

-- One field: the loop goes on behind the delimiter, which is now a NUL.
module _ (i s : ℕ) (pre buf : Bytes) (p : Packet) {k : ℕ} (at : p.buf ≡ pre ++ buf)
    (here : s ≡ length pre) (room : i < length p.field) (f : Found is_delimiter buf k) where
  abbrev stored_next : Packet
  stored_next = stored i s (s + k) p

  pub buf_next : (stored_next).buf ≡ pre ++ (f.before ++ 0 ∷ f.after)
  buf_next =
      ap (λ b. set b (s + k) 0) (at ∙ ap (λ b. pre ++ b) f.splits)
      ∙ set-append pre (f.before ++ f.mark ∷ f.after) (s + k) k 0 (omega arith)
      ∙ ap (λ b. pre ++ b) (set-append f.before (f.mark ∷ f.after) k 0 0 (omega (arith, f.place)))

  pointer_next : get_elem? (stored_next).field i ≡ some (into_buf (s + leading_spaces f.before))
  pointer_next =
      get_elem?-set_self p.field i _ room
      ∙ ap (λ b. some (into_buf (s + leading_spaces (drop s b)))) buf_next
      ∙ ap (λ b. some (into_buf (s + leading_spaces b)))
          (drop-append pre (f.before ++ 0 ∷ f.after) s 0 (omega arith))
      ∙ ap (λ l. some (into_buf (s + l))) (leading_spaces-append f.before f.after)

  abbrev behind_next : Bytes
  behind_next = pre ++ (f.before ++ 0 ∷ [])

  length-behind : suc (s + k) ≡ length behind_next
  length-behind = omega (arith, f.place, length-advance pre f.before 0)

  buf_behind : (tail : Bytes) → behind_next ++ tail ≡ pre ++ (f.before ++ 0 ∷ tail)
  buf_behind tail = sym (append-advance pre f.before 0 tail)

  Parsed-cons :
      {q : Packet} {fs : List Bytes}
      → Parsed (suc i) behind_next stored_next q fs
      → Parsed i pre p q (skip_spaces f.before ∷ fs)
  Parsed-cons {q} {fs} r = record {
    behind = f.before ++ 0 ∷ r.behind;
    splits = whole;
    kept = λ j h. r.kept j (omega arith) ∙ get_elem?-set_ne p.field _ (omega arith);
    texts = texts;
    same_cmd = r.same_cmd;
    same_sub_cmd = r.same_sub_cmd;
    same_count = r.same_count;
    same_label = r.same_label;
  }
    where
      whole : q.buf ≡ pre ++ (f.before ++ 0 ∷ r.behind)
      whole = r.splits ∙ buf_behind r.behind

      texts :
          (j : ℕ) {t : Bytes}
          → get_elem? (skip_spaces f.before ∷ fs) j ≡ some t
          → field_text q (i + j) ≡ ok t
      texts zero {t} e =
          ap (field_text q) (omega arith)
          ∙ field_text_of q i (r.kept i (omega arith) ∙ pointer_next)
              (field_at pre f.before r.behind q.buf s f.clean here whole ∙ cc)
      texts (suc j) e = ap (field_text q) (omega arith) ∙ r.texts j e

  Refines-cons :
      (o : Option (List Bytes)) (r : Run (Packet × Status))
      → Refines (suc i) behind_next stored_next o r
      → Refines i pre p (Option.map (λ fs. skip_spaces f.before ∷ fs) o) r
  Refines-cons none r h = h
  Refines-cons (some fs) r (q, e, parsed) = (q, e, Parsed-cons parsed)

Parsed-nil : (i : ℕ) (pre buf : Bytes) (p : Packet) → p.buf ≡ pre ++ buf → Parsed i pre p p []
Parsed-nil i pre buf p at = record {
  behind = buf;
  splits = at;
  kept = λ j h. refl;
  texts = λ j e. cc;
  same_cmd = refl;
  same_sub_cmd = refl;
  same_count = refl;
  same_label = refl;
}

-- The last field ends with the text.
Parsed-last :
    (i s : ℕ) (pre buf : Bytes) (p : Packet)
    → p.buf ≡ pre ++ buf
    → s ≡ length pre
    → i < length p.field
    → Parsed i pre p (stored_last i s p) (skip_spaces (until_nul buf) ∷ [])
Parsed-last i s pre buf p at here room = record {
  behind = buf;
  splits = at;
  kept = λ j h. get_elem?-set_ne p.field _ (omega arith);
  texts = texts;
  same_cmd = refl;
  same_sub_cmd = refl;
  same_count = refl;
  same_label = refl;
}
  where
    rest_is : drop s p.buf ≡ buf
    rest_is = ap (drop s) at ∙ drop-append pre buf s 0 (omega arith)

    string_is : string_at p.buf (skip_from p.buf s) ≡ skip_spaces (until_nul buf)
    string_is =
        ap (λ b. until_nul (drop (s + leading_spaces b) p.buf)) rest_is
        ∙ ap (λ b. until_nul (drop (s + leading_spaces buf) b)) at
        ∙ ap until_nul
            (drop-append pre buf (s + leading_spaces buf) (leading_spaces buf) (omega arith))
        ∙ until_nul-drop_spaces buf

    texts :
        (j : ℕ) {t : Bytes}
        → get_elem? (skip_spaces (until_nul buf) ∷ []) j ≡ some t
        → field_text (stored_last i s p) (i + j) ≡ ok t
    texts zero {t} e =
        ap (field_text (stored_last i s p)) (omega arith)
        ∙ field_text_of (stored_last i s p) i (get_elem?-set_self p.field i _ room) (string_is ∙ cc)
    texts (suc j) e = cc

Refines-none :
    (k i s : ℕ) (pre buf : Bytes) (p : Packet)
    → p.buf ≡ pre ++ buf
    → s ≡ length pre
    → i + suc k ≤ length p.field
    → find_byte is_delimiter buf ≡ none
    → Refines i pre p (fields_of (suc k) (until_nul buf)) (parse_fields (suc k) i s p)
Refines-none zero i s pre buf p at here room nothing =
    rw
      (
        fields_of-none (until_nul buf) (find_byte-none is_delimiter buf refl nothing) 0,
        parse_fields-none i s p (strpbrk_at pre buf s p at here nothing) (omega arith),
      )
      (stored_last i s p, refl, Parsed-last i s pre buf p at here (omega arith))
Refines-none (suc k) i s pre buf p at here room nothing =
    rw
      (
        fields_of-none (until_nul buf) (find_byte-none is_delimiter buf refl nothing) (suc k),
        lt→ltb 0 (suc k) (omega arith),
        parse_fields-malformed k i s p (strpbrk_at pre buf s p at here nothing),
      )
      (p, refl)

-- The loop refines the list of fields: it stores them, or reports what the list does not have.
pub parse_fields-Refines :
    (k i s : ℕ) (pre buf : Bytes) (p : Packet)
    → p.buf ≡ pre ++ buf
    → s ≡ length pre
    → i + k ≤ length p.field
    → Refines i pre p (fields_of k (until_nul buf)) (parse_fields k i s p)
unfolding parse_fields
parse_fields-Refines zero i s pre buf p at here room =
    unfold fields_of in (p, refl, Parsed-nil i pre buf p at)
parse_fields-Refines (suc k) i s pre buf p at here room =
    elim (Option-cases (find_byte is_delimiter buf)) [
      | inl nothing ↦ Refines-none k i s pre buf p at here room nothing
      | inr (m, found) ↦
          let f = find_byte-Found is_delimiter buf m refl found in
          rw
            (
              fields_of-some k (until_nul buf) f.agrees,
              parse_fields-some k i s (s + m) p (strpbrk_at pre buf s p at here found)
                  (omega arith),
            )
            (Refines-cons i s pre buf p at here (omega arith) f (fields_of k (until_nul f.after))
              (parse_fields k (suc i) (suc (s + m))
                (stored_next i s pre buf p at here (omega arith) f))
              (parse_fields-Refines k (suc i) (suc (s + m)) (pre ++ (f.before ++ 0 ∷ [])) f.after
                (stored i s (s + m) p)
                (buf_next i s pre buf p at here (omega arith) f
                  ∙ sym (buf_behind i s pre buf p at here (omega arith) f f.after))
                (length-behind i s pre buf p at here (omega arith) f)
                (rw (length-set p.field i _) (omega arith))))
    ]
