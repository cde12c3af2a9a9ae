-- ===== src/Wattsup/Device/Safe.antt =====
-- The calls of `wu_read` and `wu_write` in wattsup/wattsup.c return, if the device behaves.

use soml_apps.Clib.Memory.{overwrite, length-overwrite, take-overwrite}
use soml_apps.Common.{
  ℕ, zero, suc, ◌<◌, ◌≤◌, ◌≡◌, refl, ap, ◌∙◌, sym, subst, false, Option, none, some, List, [], ◌∷◌,
  arith, ltb, if◌then◌else◌, length, take, Option-cases, inl, inr, take_all, get_elem?_of_lt,
  Option-map-eq-some,
}
use soml_apps.Clib.Run.{ok, Status, success, failed, is_failed, efault}
use soml_apps.Clib.Text.{Bytes, until_nul, is_delimiter, skip_spaces}
use soml_apps.Clib.Number.{atoi}
use soml_apps.Clib.Text.Laws.{split}
use soml_apps.Wattsup.Packet.{Packet, field_text, wu_strlen}
use soml_apps.Wattsup.Parse.{parse_packet}
use soml_apps.Wattsup.Parse.Header.{received as received_text}
use soml_apps.Wattsup.Parse.Refines.{Agrees, parse_packet-Agrees}
use soml_apps.Wattsup.Parse.Sizes.{parse_packet-sizes}
use soml_apps.Wattsup.Parse.Spec.{Message, fields_of, header_of, with_fields, announced, message_of}
use soml_apps.Wattsup.Parse.Steps.{fields_of-some, fields_of-none}
use soml_apps.Wattsup.State.{World, State, ReadEvent, select_failed, received, lift}
use soml_apps.Wattsup.State.Returns.{Returns, Keeps, Keeps-refl}
use soml_apps.Wattsup.Device.{wu_read, receive, filled, next_read}

-- The arrays of a packet have their sizes.
pub record IsSized (p : Packet) : Type 0 where
  pub buf : length p.buf ≡ wu_strlen
  pub field : length p.field ≡ 18

-- Every field that the packet counts can be read.
abbrev pub Readable : Packet → Type 0
Readable p = (i : ℕ) → i < p.count → (t : Bytes) × (field_text p i ≡ ok t)

-- What a device may send in one read: less than the buffer, and at most 18 parameters.
pub record FairBytes (bytes : Bytes) : Type 0 where
  pub short : length bytes < wu_strlen
  pub few : announced (header_of (until_nul bytes)) ≤ 18

abbrev pub IsFair : World → Type 0
IsFair w = (n : ℕ) (bytes : Bytes) → w.reads n ≡ received bytes → FairBytes bytes

fields_of-length :
    (k : ℕ) (text : Bytes) {fs : List Bytes} → fields_of k text ≡ some fs → length fs ≡ k
unfolding fields_of
fields_of-length zero text e = ground arith
fields_of-length (suc k) text {fs} e = elim (Option-cases (split is_delimiter text)) [
  | inl whole ↦ one_field k (sym (fields_of-none text whole k) ∙ e)
  | inr ((f, rest), found) ↦
      let (gs, more, same) =
        Option-map-eq-some (λ l. skip_spaces f ∷ l) (fields_of k rest)
          (sym (fields_of-some k text found) ∙ e) in
      ap length (sym same) ∙ ap suc (fields_of-length k rest more)
]
  where
    one_field :
        (n : ℕ) {gs : List Bytes}
        → (if ltb 0 n then none else some (skip_spaces text ∷ [])) ≡ some gs
        → length gs ≡ suc n
    one_field zero h = ground arith
    one_field (suc n) h = absurd (ground arith)

message_of-length :
    (text : Bytes) {m : Message} → message_of text ≡ some m → length m.fields ≡ m.count
unfolding message_of with_fields
message_of-length text {m} e = elim (Option-cases (header_of text)) [
  | inl nothing ↦ absurd (ground (arith, nothing, e))
  | inr (h, found) ↦
      let (fs, split_up, same) =
        Option-map-eq-some
          (λ l. record { cmd = h.cmd; sub_cmd = h.sub_cmd; count = atoi h.number; fields = l })
          (fields_of (atoi h.number) h.parameters) (rw found at e) in
      ap (λ (x : Message). length x.fields) (sym same)
      ∙ fields_of-length (atoi h.number) h.parameters split_up
      ∙ ap (λ (x : Message). x.count) same
]

-- What is parsed is what was read.
received-filled :
    (bytes : Bytes) (p : Packet)
    → IsSized p
    → length bytes < wu_strlen
    → received_text (filled bytes p) ≡ until_nul bytes
received-filled bytes p z short =
    let got = take_all bytes wu_strlen short in
    ap (λ b. until_nul (take (length b) (overwrite b p.buf))) got
    ∙ ap until_nul (take-overwrite bytes p.buf (omega (arith, z.buf)))

-- A read leaves a sized packet, whose fields can be read if it succeeded.
pub record ReadResult (r : Packet × Status) (s t : State) : Type 0 where
  pub keeps : Keeps s t
  pub sized : IsSized r.0
  pub readable : is_failed r.1 ≡ false → Readable r.0

-- A parsed packet has the fields that it counts.
parse-Returns :
    (p : Packet) (s : State)
    → IsSized p
    → (o : Option Message) → message_of (received_text p) ≡ o
    → Agrees o (parse_packet p)
    → Returns (lift (parse_packet p)) s (λ r t. ReadResult r s t)
parse-Returns p s z none e (q, run) =
    let k = parse_packet-sizes p run in
    (
      (q, failed efault),
      s,
      rw run,
      record {
        keeps = Keeps-refl s;
        sized = record { buf = k.buf ∙ z.buf; field = k.field ∙ z.field };
        readable = λ h. cc;
      },
    )
parse-Returns p s z (some m) e (q, run, holds) =
    let k = parse_packet-sizes p run in
    let size = message_of-length (received_text p) e in
    (
      (q, success),
      s,
      rw run,
      record {
        keeps = Keeps-refl s;
        sized = record { buf = k.buf ∙ z.buf; field = k.field ∙ z.field };
        readable = λ h i lt.
            (let (f, found) = get_elem?_of_lt m.fields i (omega (arith, size, holds.count)) in
              (f, holds.texts i found));
      },
    )

-- A sized packet that is filled with fair bytes stays so, and is parsed without a fault.
pub filled-Agrees :
    (bytes : Bytes) (p : Packet)
    → IsSized p
    → FairBytes bytes
    → IsSized (filled bytes p)
      × Agrees (message_of (until_nul bytes)) (parse_packet (filled bytes p))
filled-Agrees bytes p z fair =
    let q = filled bytes p in
    let text = received-filled bytes p z fair.short in
    let sized : IsSized q = record {
      buf = length-overwrite (take wu_strlen bytes) p.buf ∙ z.buf;
      field = z.field;
    } in
    let got : length (take wu_strlen bytes) ≡ length bytes =
      ap length (take_all bytes wu_strlen fair.short) in
    (
      sized,
      subst (λ o. Agrees o (parse_packet q)) (ap message_of text)
          (parse_packet-Agrees q (omega (arith, fair.short, sized.buf, got))
            (rw text (omega (arith, fair.few, sized.field)))),
    )

receive-Returns :
    (event : ReadEvent) (p : Packet) (s : State)
    → IsSized p
    → ((bytes : Bytes) → event ≡ received bytes → FairBytes bytes)
    → Returns (receive p event) s (λ r t. ReadResult r s t)
unfolding receive
receive-Returns (received bytes) p s z fair =
    let (sized, agrees) = filled-Agrees bytes p z (fair bytes refl) in
    parse-Returns (filled bytes p) s sized (message_of (until_nul bytes))
      (ap message_of (received-filled bytes p z (fair bytes refl).short)) agrees
receive-Returns select_failed p s z fair =
    ((p, failed _), s, refl, record { keeps = Keeps-refl s; sized = z; readable = λ h. cc })
receive-Returns _ p s z fair =
    ((p, failed _), s, refl, record { keeps = Keeps-refl s; sized = z; readable = λ h. cc })

pub wu_read-Returns :
    (p : Packet) (s : State)
    → IsSized p
    → IsFair s.world
    → Returns (wu_read p) s (λ r t. ReadResult r s t)
unfolding wu_read next_read
wu_read-Returns p s z fair =
    let t = record s { reads_done = suc s.reads_done } in
    let (r, u, run, res) = receive-Returns (s.world.reads s.reads_done) p t z (fair s.reads_done) in
    (
      r,
      u,
      run,
      record {
        keeps = record {
          world = res.keeps.world;
          settings = res.keeps.settings;
          fields = res.keeps.fields;
          tests = res.keeps.tests;
        };
        sized = res.sized;
        readable = res.readable;
      },
    )
