-- ===== src/Wattsup/Parse/Refines.antt =====
-- `parse_packet` of wattsup/wattsup.c against what the text says.
use soml_apps.Common.{
  ℕ, ◌<◌, ◌≤◌, ◌≡◌, ap, ◌∙◌, sym, Option, none, some, List, arith, length, get_elem?,
}
use soml_apps.Clib.Run.{Run, ok, Status, success, failed, efault}
use soml_apps.Clib.Text.{Bytes}
use soml_apps.Clib.Number.{atoi}
use soml_apps.Wattsup.Packet.{Packet, Pointer, field_text}
use soml_apps.Wattsup.Parse.{parse_packet}
use soml_apps.Wattsup.Parse.Fields.{Refines, parse_fields-Refines}
use soml_apps.Wattsup.Parse.Spec.{
  Message, Header, fields_of, header_of, announced, with_fields, message_of, ◌>>=◌ as ◌and_then◌,
}
use soml_apps.Wattsup.Parse.Header.{Reached, Starts, received, parse_packet-Starts}

-- The packet holds a message: its fields are read through its pointers.
pub record Holds (q : Packet) (m : Message) : Type 0 where
  pub cmd : q.cmd ≡ m.cmd
  pub sub_cmd : q.sub_cmd ≡ m.sub_cmd
  pub count : q.count ≡ m.count
  pub texts : (j : ℕ) {f : Bytes} → get_elem? m.fields j ≡ some f → field_text q j ≡ ok f

abbrev pub Agrees : Option Message → Run (Packet × Status) → Type 0
Agrees none r = (q : Packet) × (r ≡ ok (q, failed efault))
Agrees (some m) r = (q : Packet) × (r ≡ ok (q, success)) × Holds q m

-- The message is read off the packet once the loop has stored its fields.
Refines-Agrees :
    {h : Header} {field : List Pointer} {q : Packet} {s : ℕ} (w : Reached h field q s)
    (r : Run (Packet × Status))
    → (o : Option (List Bytes)) → fields_of (atoi h.number) h.parameters ≡ o
    → Refines 0 w.front q o r
    → Agrees (with_fields h) r
unfolding with_fields
Refines-Agrees w r none e x = rw e x
Refines-Agrees w r (some fs) e (t, done, parsed) = rw e (
  t,
  done,
  record {
    cmd = parsed.same_cmd ∙ w.cmd;
    sub_cmd = parsed.same_sub_cmd ∙ w.sub_cmd;
    count = parsed.same_count ∙ w.count;
    texts = λ j found. ap (field_text t) (omega arith) ∙ parsed.texts j found;
  },
)

Starts-Agrees :
    (o : Option Header) (field : List Pointer) (r : Run (Packet × Status))
    → announced o ≤ length field
    → Starts o field r
    → Agrees (o and_then with_fields) r
Starts-Agrees none field r bound st = st
Starts-Agrees (some h) field r bound (q, s, run, w) = rw run (
    Refines-Agrees w _ _ (ap (fields_of (atoi h.number)) (sym w.parameters)) (
      parse_fields-Refines (atoi h.number) 0 s w.front w.back q w.at w.here
        (omega (arith, bound, ap length w.same_field))))

-- Where the bytes read leave room for the terminating NUL, and no more parameters are announced
-- than the packet has fields, `parse_packet` runs without a fault. It succeeds exactly if the text
-- up to the first NUL says a message, and then holds the command, the count and, through the
-- pointers into its buffer, every field; otherwise it reports EFAULT.
pub parse_packet-Agrees :
    (p : Packet)
    → p.len < length p.buf
    → announced (header_of (received p)) ≤ length p.field
    → Agrees (message_of (received p)) (parse_packet p)
unfolding message_of
parse_packet-Agrees p room bound =
    Starts-Agrees (header_of (received p)) p.field (parse_packet p) bound
      (parse_packet-Starts p room)
