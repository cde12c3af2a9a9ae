-- ===== src/Wattsup/Command/Format.antt =====
-- The text of the commands that `wu_write` of wattsup/wattsup.c sends, and which of them fit.
use soml_apps.Common.{
  ℕ, suc, ◌+◌, ◌-◌, ◌<◌, ◌≤◌, ◌≡◌, ◌≢◌, refl, ap, ◌∙◌, sym, subst, List, [], ◌∷◌, ◌++◌, arith, leb,
  set, length, replicate, take, take-append, length-append, append_assoc, append-nil, lt→ltb,
  set-append, Bool-cases, ◌⊎◌, inl, inr,
}
use soml_apps.Clib.Run.{ok, ◌>>=◌, Status, success, failed, eoverflow}
use soml_apps.Clib.Text.{Bytes}
use soml_apps.Clib.Number.Laws.{length-signed_decimal}
use soml_apps.Wattsup.Packet.{Pointer, Packet, wu_strlen}
use soml_apps.Wattsup.Command.{
  print_at, argument_text, header_text, write_fields, end_command, encode,
}
use soml_apps.Wattsup.Command.Buffer.{
  ge_leb, le_leb, Filled, printed, print_at-Filled, printed-Filled, set-replicate_head,
}

-- Each field behind its comma.
abbrev pub joined : List Bytes → Bytes
joined [] = []
joined (f ∷ fs) = b',' ∷ (f ++ joined fs)

abbrev pub command_text : Packet → List Bytes → Bytes
command_text p fs = header_text p ++ (joined fs ++ b';' ∷ [])

-- From slot `i` on the fields are texts outside the buffer.
abbrev pub Arguments : List Pointer → ℕ → List Bytes → Type 0
Arguments field i [] = Unit
Arguments field i (f ∷ fs) = (argument_text field i ≡ ok f) × Arguments field (suc i) fs

-- What the loop of `wu_write` makes of the fields `fs` behind the text `text`.
pub record Written (p q : Packet) (text : Bytes) : Type 0 where
  pub filled : Filled q.buf q.len text
  pub same_field : q.field ≡ p.field

write_fields-fits :
    (k i : ℕ) (p : Packet) {f buf : Bytes}
    → argument_text p.field i ≡ ok f
    → p.len + length f + 4 < wu_strlen
    → print_at p.len (b',' ∷ f) p.buf ≡ ok buf
    → write_fields (suc k) i p
      ≡ write_fields k (suc i) (record p { buf = buf; len = p.len + suc (length f) })
unfolding write_fields
write_fields-fits k i p {f} a room e = rw (a, ge_leb wu_strlen (p.len + length f + 4) room, e)

write_fields-overflow :
    (k i : ℕ) (p : Packet) {f : Bytes}
    → argument_text p.field i ≡ ok f
    → wu_strlen ≤ p.len + length f + 4
    → write_fields (suc k) i p ≡ ok (p, failed eoverflow)
unfolding write_fields
write_fields-overflow k i p {f} a full = rw (a, le_leb wu_strlen (p.len + length f + 4) full)

write_fields-Written :
    (fs : List Bytes) (i : ℕ) (p : Packet) (text : Bytes)
    → Filled p.buf p.len text
    → Arguments p.field i fs
    → length text + length (joined fs) + 3 < wu_strlen
    → (q : Packet) × (write_fields (length fs) i p ≡ ok (q, success))
      × Written p q (text ++ joined fs)
unfolding write_fields
write_fields-Written [] i p text b args room =
    (p, refl, record { filled = rw append-nil b; same_field = refl })
write_fields-Written (f ∷ fs) i p text b args room =
    let size = length-append f (joined fs) in
    let fits : length text + length (b',' ∷ f) < wu_strlen = omega (arith, size) in
    let (q, done, w) =
      write_fields-Written fs (suc i)
        (record p { buf = printed b (b',' ∷ f); len = p.len + suc (length f) }) (text ++ b',' ∷ f)
        (printed-Filled b (b',' ∷ f) fits) args.1
        (omega (arith, size, length-append text (b',' ∷ f))) in
    (
      q,
      write_fields-fits (length fs) i p args.0 (omega (arith, size, b.len_is))
            (print_at-Filled b (b',' ∷ f) fits)
          ∙ done,
      record {
        filled = subst (Filled q.buf q.len) (append_assoc text (b',' ∷ f) (joined fs)) w.filled;
        same_field = w.same_field;
      },
    )

write_fields-Overflow :
    (fs : List Bytes) (i : ℕ) (p : Packet) (text : Bytes)
    → Filled p.buf p.len text
    → Arguments p.field i fs
    → fs ≢ []
    → wu_strlen ≤ length text + length (joined fs) + 3
    → (q : Packet) × (write_fields (length fs) i p ≡ ok (q, failed eoverflow))
write_fields-Overflow [] i p text b args ne full = absurd (ne refl)
write_fields-Overflow (f ∷ fs) i p text b args ne full =
    elim (Bool-cases (leb wu_strlen (p.len + length f + 4))) [
      | inl now ↦ (p, write_fields-overflow (length fs) i p args.0 (ground arith))
      | inr later ↦
          let room : p.len + length f + 4 < wu_strlen = ground arith in
          let fits : length text + length (b',' ∷ f) < wu_strlen = omega (arith, b.len_is) in
          let size = length-append f (joined fs) in
          let more : fs ≢ [] =
            λ e. absurd (omega (arith, size, b.len_is, ap (λ l. length (joined l)) e)) in
          let (q, done) =
            write_fields-Overflow fs (suc i)
              (record p { buf = printed b (b',' ∷ f); len = p.len + suc (length f) })
              (text ++ b',' ∷ f) (printed-Filled b (b',' ∷ f) fits) args.1 more
              (omega (arith, size, length-append text (b',' ∷ f))) in
          (
            q,
            write_fields-fits (length fs) i p args.0 room (print_at-Filled b (b',' ∷ f) fits)
                ∙ done,
          )
    ]

length-header_text : (p : Packet) → p.count < 4294967296 → length (header_text p) ≤ 16
length-header_text p h = omega (arith, length-signed_decimal p.count h)

empty_buffer : Filled (replicate wu_strlen 0) 0 []
empty_buffer = record { left = wu_strlen; splits = refl; len_is = refl; whole = omega arith }

abbrev headed : Packet → Packet
headed p = record p {
  buf = header_text p ++ replicate (wu_strlen - length (header_text p)) 0;
  len = length (header_text p);
}

encode-headed :
    (p : Packet)
    → p.count < 4294967296
    → encode p ≡ (write_fields p.count 0 (headed p) >>= end_command)
unfolding encode printed empty_buffer
encode-headed p h =
    rw (print_at-Filled empty_buffer (header_text p) (omega (arith, length-header_text p h)))

headed-Filled :
    (p : Packet) → p.count < 4294967296 → Filled (headed p).buf (headed p).len (header_text p)
headed-Filled p h = record {
  left = wu_strlen - length (header_text p);
  splits = refl;
  len_is = refl;
  whole = omega (arith, length-header_text p h);
}

end_command-Filled :
    (q : Packet) (text : Bytes)
    → Filled q.buf q.len text
    → length text + 3 < wu_strlen
    → (r : Packet) × (end_command (q, success) ≡ ok (r, success))
      × (r.len ≡ suc (length text))
      × (take r.len r.buf ≡ text ++ b';' ∷ [])
unfolding end_command
end_command-Filled q text b room = (
  record q { buf = set q.buf q.len b';'; len = suc q.len },
  rw (lt→ltb q.len wu_strlen (omega (arith, b.len_is))),
  ap suc b.len_is,
  ap (λ buf. take (suc q.len) (set buf q.len b';')) b.splits
      ∙ ap (take (suc q.len)) (
          set-append text (replicate b.left 0) q.len 0 b';' (omega (arith, b.len_is))
          ∙ ap (λ back. text ++ back) (set-replicate_head b.left b';' (omega (arith, b.whole)))
          ∙ sym (append_assoc text (b';' ∷ []) (replicate (b.left - 1) 0)))
      ∙ take-append (text ++ b';' ∷ []) (replicate (b.left - 1) 0) (suc q.len)
          (omega (arith, b.len_is, length-append text (b';' ∷ []))),
)

length-command_text :
    (p : Packet) (fs : List Bytes)
    → length (command_text p fs) ≡ length (header_text p) + length (joined fs) + 1
length-command_text p fs =
    length-append (header_text p) (joined fs ++ b';' ∷ [])
    ∙ omega (arith, length-append (joined fs) (b';' ∷ []))

encode-loop :
    (p : Packet) (fs : List Bytes)
    → length fs ≡ p.count
    → p.count < 4294967296
    → encode p ≡ (write_fields (length fs) 0 (headed p) >>= end_command)
encode-loop p fs n word =
    encode-headed p word ∙ ap (λ k. write_fields k 0 (headed p) >>= end_command) (sym n)

-- The command is in the buffer, text and length, if it has fewer than 254 bytes with its `;`, and
-- so leaves room for two more.
pub encode-command_text :
    (p : Packet) (fs : List Bytes)
    → Arguments p.field 0 fs
    → length fs ≡ p.count
    → p.count < 4294967296
    → length (command_text p fs) < 254
    → (q : Packet) × (encode p ≡ ok (q, success))
      × (q.len ≡ length (command_text p fs))
      × (take q.len q.buf ≡ command_text p fs)
encode-command_text p fs args n word room =
    let size = length-command_text p fs in
    let (w, wrote, written) =
      write_fields-Written fs 0 (headed p) (header_text p) (headed-Filled p word) args
        (omega (arith, size)) in
    let (q, ended, len_is, text_is) =
      end_command-Filled w (header_text p ++ joined fs) written.filled
        (omega (arith, size, length-append (header_text p) (joined fs))) in
    (
      q,
      encode-loop p fs n word ∙ ap (λ r. r >>= end_command) wrote ∙ ended,
      len_is ∙ omega (arith, size, length-append (header_text p) (joined fs)),
      text_is ∙ append_assoc (header_text p) (joined fs) (b';' ∷ []),
    )

-- A command with parameters of 254 bytes or more is refused with EOVERFLOW.
encode-eoverflow :
    (p : Packet) (fs : List Bytes)
    → Arguments p.field 0 fs
    → length fs ≡ p.count
    → p.count < 4294967296
    → 254 ≤ length (command_text p fs)
    → (q : Packet) × (encode p ≡ ok (q, failed eoverflow))
unfolding end_command
encode-eoverflow p fs args n word full =
    let size = length-command_text p fs in
    let short = length-header_text p word in
    let some_field : fs ≢ [] =
      λ e. absurd (omega (arith, size, short, ap (λ l. length (joined l)) e)) in
    let (w, refused) =
      write_fields-Overflow fs 0 (headed p) (header_text p) (headed-Filled p word) args some_field
        (omega (arith, size)) in
    (w, encode-loop p fs n word ∙ ap (λ r. r >>= end_command) refused)

-- A command that stands in the buffer of a packet, or that is too long for it.
abbrev pub Encoded : Bytes → Packet → Status → Type 0
Encoded text q status =
    ((length text < 254) × (status ≡ success) × (q.len ≡ length text) × (take q.len q.buf ≡ text))
    ⊎ ((254 ≤ length text) × (status ≡ failed eoverflow))

-- On every command whose slots give the texts of as many parameters as it announces, `wu_write`
-- writes nothing out of bounds; a command of fewer than 254 bytes stands in the buffer, text and
-- length, and a longer one is refused with EOVERFLOW.
pub encode-Encoded :
    (p : Packet) (fs : List Bytes)
    → Arguments p.field 0 fs
    → length fs ≡ p.count
    → p.count < 4294967296
    → (q : Packet) × (status : Status) × (encode p ≡ ok (q, status))
      × Encoded (command_text p fs) q status
encode-Encoded p fs args n word = elim (Bool-cases (leb 254 (length (command_text p fs)))) [
  | inl full ↦
      let long : 254 ≤ length (command_text p fs) = ground arith in
      let (q, refused) = encode-eoverflow p fs args n word long in
      (q, failed eoverflow, refused, inr (long, refl))
  | inr fits ↦
      let short : length (command_text p fs) < 254 = ground arith in
      let (q, done, len, text) = encode-command_text p fs args n word short in
      (q, success, done, inl (short, refl, len, text))
]
