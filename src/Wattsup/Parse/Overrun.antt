-- ===== src/Wattsup/Parse/Overrun.antt =====
-- What `parse_packet` of wattsup/wattsup.c does with more parameters than the packet has fields.

use soml_apps.Common.{
  ℕ, zero, suc, ◌+◌, ◌<◌, ◌≤◌, ◌≡◌, refl, ap, ◌∙◌, sym, Option, none, some, List, [], ◌∷◌, ◌++◌,
  arith, ltb, length, length-set, ge→ltb, lt→ltb, Bool-cases, Option-cases, Option-map-eq-some, inl,
  inr,
}
use soml_apps.Clib.Run.{Run, fault, Status}
use soml_apps.Clib.Text.{Bytes, until_nul, find_byte, is_delimiter, strpbrk, skip_spaces}
use soml_apps.Clib.Text.Laws.{find_byte-Found, find_byte-none, append-advance, length-advance}
use soml_apps.Clib.Number.{atoi}
use soml_apps.Wattsup.Packet.{Packet, Pointer}
use soml_apps.Wattsup.Parse.{parse_fields, store_field, parse_packet}
use soml_apps.Wattsup.Parse.Fields.{buf_next}
use soml_apps.Wattsup.Parse.Header.{Starts, received, parse_packet-Starts}
use soml_apps.Wattsup.Parse.Spec.{
  Message, Header, fields_of, header_of, with_fields, message_of, ◌>>=◌ as ◌and_then◌,
}
use soml_apps.Wattsup.Parse.Steps.{
  stored, parse_fields-some, strpbrk_at, fields_of-some, fields_of-none,
}

pub parse_fields-full_some :
    (k i s next : ℕ) (p : Packet)
    → strpbrk p.buf s ≡ some next
    → length p.field ≤ i
    → parse_fields (suc k) i s p ≡ fault
unfolding parse_fields
parse_fields-full_some k i s next p e h =
    rw (e, parse_fields) (unfold store_field in rw (ge→ltb _ _ h))

pub parse_fields-full_none :
    (i s : ℕ) (p : Packet)
    → strpbrk p.buf s ≡ none
    → length p.field ≤ i
    → parse_fields 1 i s p ≡ fault
unfolding parse_fields
parse_fields-full_none i s p e h = rw (e, parse_fields) (unfold store_field in rw (ge→ltb _ _ h))

full_none :
    (k i s : ℕ) (pre buf : Bytes) (p : Packet) {fs : List Bytes}
    → p.buf ≡ pre ++ buf
    → s ≡ length pre
    → i ≤ length p.field
    → length p.field < i + suc k
    → find_byte is_delimiter buf ≡ none
    → fields_of (suc k) (until_nul buf) ≡ some fs
    → parse_fields (suc k) i s p ≡ fault
full_none zero i s pre buf p at here low high nothing h =
    parse_fields-full_none i s p (strpbrk_at pre buf s p at here nothing) (omega arith)
full_none (suc k) i s pre buf p at here low high nothing h =
    let e = fields_of-none (until_nul buf) (find_byte-none is_delimiter buf refl nothing) (suc k) in
    let none_is = rw (lt→ltb 0 (suc k) (omega arith)) at e in cc

-- Once the fields of the text are more than the slots that are left, a store is out of bounds.
parse_fields-fault :
    (k i s : ℕ) (pre buf : Bytes) (p : Packet) {fs : List Bytes}
    → p.buf ≡ pre ++ buf
    → s ≡ length pre
    → i ≤ length p.field
    → length p.field < i + k
    → fields_of k (until_nul buf) ≡ some fs
    → parse_fields k i s p ≡ fault
parse_fields-fault zero i s pre buf p at here low high h = absurd (omega arith)
parse_fields-fault (suc k) i s pre buf p at here low high h =
    elim (Option-cases (find_byte is_delimiter buf)) [
      | inl nothing ↦ full_none k i s pre buf p at here low high nothing h
      | inr (m, found) ↦
          let f = find_byte-Found is_delimiter buf m refl found in
          let (l, more, same) =
            Option-map-eq-some (λ l. skip_spaces f.before ∷ l) (fields_of k (until_nul f.after))
              (sym (fields_of-some k (until_nul buf) f.agrees) ∙ h) in
          let next = strpbrk_at pre buf s p at here found in
          elim (Bool-cases (ltb i (length p.field))) [
            | inl room ↦
                parse_fields-some k i s (s + m) p next (ground arith)
                ∙ parse_fields-fault k (suc i) (suc (s + m)) (pre ++ (f.before ++ 0 ∷ [])) f.after
                    (stored i s (s + m) p)
                    (buf_next i s pre buf p at here (ground arith) f
                      ∙ append-advance pre f.before 0 f.after)
                    (omega (arith, f.place, length-advance pre f.before 0))
                    (rw (length-set p.field i _) (ground arith))
                    (rw (length-set p.field i _) (omega arith)) more
            | inr full ↦ parse_fields-full_some k i s (s + m) p next (ground arith)
          ]
    ]

Starts-fault :
    (o : Option Header) (field : List Pointer) (r : Run (Packet × Status)) {m : Message}
    → Starts o field r
    → o and_then with_fields ≡ some m
    → length field < m.count
    → r ≡ fault
unfolding with_fields
Starts-fault none field r st e h = cc
Starts-fault (some hd) field r {m} (q, s, run, w) e h =
    let (fs, found, same) =
      Option-map-eq-some
        (λ l. record { cmd = hd.cmd; sub_cmd = hd.sub_cmd; count = atoi hd.number; fields = l })
        (fields_of (atoi hd.number) hd.parameters) e in
    let count : atoi hd.number ≡ m.count = ap (λ (x : Message). x.count) same in
    run
    ∙ parse_fields-fault (atoi hd.number) 0 s w.front w.back q w.at w.here (omega arith)
        (omega (arith, count, ap length w.same_field))
        (ap (fields_of (atoi hd.number)) w.parameters ∙ found)

-- A text that says a message with more parameters than the packet has fields makes `parse_packet`
-- store a pointer out of the bounds of `p->field`: `p->count` is not checked.
pub parse_packet-fault :
    (p : Packet) {m : Message}
    → p.len < length p.buf
    → message_of (received p) ≡ some m
    → length p.field < m.count
    → parse_packet p ≡ fault
unfolding message_of
parse_packet-fault p room e h =
    Starts-fault (header_of (received p)) p.field (parse_packet p) (parse_packet-Starts p room) e h
