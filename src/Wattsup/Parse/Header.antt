-- ===== src/Wattsup/Parse/Header.antt =====
-- The header of a packet in `parse_packet` of wattsup/wattsup.c: how its loop is reached.
use soml_apps.Common.{
  ℕ, suc, ◌+◌, ◌<◌, ◌≡◌, refl, ◌∙◌, Option, none, some, List, [], ◌∷◌, ◌++◌, arith, ◌==◌, set,
  length, lt→ltb, Option-cases, inl, inr, take,
}
use soml_apps.Clib.Run.{Run, ok, Status, failed, efault}
use soml_apps.Clib.Text.{Bytes, until_nul, find_byte}
use soml_apps.Clib.Text.Laws.{
  find_byte-Found, find_byte-none, append-advance, length-advance, until_nul-set,
}
use soml_apps.Clib.Number.{atoi}
use soml_apps.Wattsup.Packet.{Packet, Pointer}
use soml_apps.Wattsup.Parse.{
  parse_fields, parse_count, parse_sub_cmd, parse_cmd, parse_hash, parse_packet,
}
use soml_apps.Wattsup.Parse.Spec.{
  Header, first_char, header_count, header_sub_cmd, header_cmd, header_of,
}
use soml_apps.Wattsup.Parse.Stages.{
  strchr_at, byte_at-first_char, parse_hash-none, parse_hash-some, parse_cmd-none, parse_cmd-some,
  parse_sub_cmd-none, parse_sub_cmd-some, parse_count-none, parse_count-some, counted, comma_at,
  behind_at, behind_here, ended_at, number_at,
}

-- The loop starts at the parameters, in a packet with the command and the count of the header.
pub record Reached (h : Header) (field : List Pointer) (q : Packet) (s : ℕ) : Type 0 where
  pub front : Bytes
  pub back : Bytes
  pub at : q.buf ≡ front ++ back
  pub here : s ≡ length front
  pub parameters : until_nul back ≡ h.parameters
  pub cmd : q.cmd ≡ h.cmd
  pub sub_cmd : q.sub_cmd ≡ h.sub_cmd
  pub count : q.count ≡ atoi h.number
  pub same_field : q.field ≡ field

abbrev pub Starts : Option Header → List Pointer → Run (Packet × Status) → Type 0
Starts none field r = (q : Packet) × (r ≡ ok (q, failed efault))
Starts (some h) field r =
    (q : Packet) × (s : ℕ) × (r ≡ parse_fields (atoi h.number) 0 s q) × Reached h field q s

-- What a stage of the parse is to do, from any place in the buffer on.
abbrev Stage : (Packet → Bytes → Option Header) → (ℕ → Packet → Run (Packet × Status)) → Type 0
Stage spec stage =
    (p : Packet) (s : ℕ) (pre buf : Bytes)
    → p.buf ≡ pre ++ buf
    → s ≡ length pre
    → Starts (spec p (until_nul buf)) p.field (stage s p)

parse_count-Stage : Stage (λ p. header_count p.cmd p.sub_cmd) parse_count
unfolding header_count
parse_count-Stage p s pre buf at here = elim (Option-cases (find_byte (λ b. b == b',') buf)) [
  | inl nothing ↦
      rw
        (
          find_byte-none (λ b. b == b',') buf refl nothing,
          parse_count-none s p (strchr_at b',' pre buf s p at here nothing),
        )
        (p, refl)
  | inr (k, found) ↦
      let f = find_byte-Found (λ b. b == b',') buf k refl found in
      let whole = pre ++ (f.before ++ 0 ∷ f.after) in
      rw
        (
          f.agrees,
          parse_count-some s p (strchr_at b',' pre buf s p at here found)
              (ended_at s pre buf p at here f) (number_at s pre buf p at here f),
        )
        (
          counted (s + k) f.before whole p,
          suc (s + k),
          refl,
          record {
            front = pre ++ (f.before ++ 0 ∷ []);
            back = f.after;
            at = append-advance pre f.before 0 f.after;
            here = behind_here s pre buf p at here f 0;
            parameters = refl;
            cmd = refl;
            sub_cmd = refl;
            count = refl;
            same_field = refl;
          },
        )
]

parse_sub_cmd-Stage :
    Stage (λ p. header_count p.cmd p.sub_cmd) parse_count
    → Stage (λ p. header_sub_cmd p.cmd) parse_sub_cmd
unfolding header_sub_cmd
parse_sub_cmd-Stage later p s pre buf at here =
    elim (Option-cases (find_byte (λ b. b == b',') buf)) [
      | inl nothing ↦
          rw
            (
              find_byte-none (λ b. b == b',') buf refl nothing,
              parse_sub_cmd-none s p (strchr_at b',' pre buf s p at here nothing),
            )
            (p, refl)
      | inr (k, found) ↦
          let f = find_byte-Found (λ b. b == b',') buf k refl found in
          rw
            (
              f.agrees,
              parse_sub_cmd-some s p (strchr_at b',' pre buf s p at here found) (
                  byte_at-first_char pre f.before f.after s p (comma_at s pre buf p at here f)
                    here),
            )
            (later (record p { sub_cmd = first_char f.before }) (suc (s + k))
              (pre ++ (f.before ++ b',' ∷ [])) f.after (behind_at s pre buf p at here f)
              (behind_here s pre buf p at here f b','))
    ]

parse_cmd-Stage :
    Stage (λ p. header_sub_cmd p.cmd) parse_sub_cmd → Stage (λ p. header_cmd) parse_cmd
unfolding header_cmd
parse_cmd-Stage later p s pre buf at here = elim (Option-cases (find_byte (λ b. b == b',') buf)) [
  | inl nothing ↦
      rw
        (
          find_byte-none (λ b. b == b',') buf refl nothing,
          parse_cmd-none s p (strchr_at b',' pre buf s p at here nothing),
        )
        (p, refl)
  | inr (k, found) ↦
      let f = find_byte-Found (λ b. b == b',') buf k refl found in
      rw
        (
          f.agrees,
          parse_cmd-some s p (strchr_at b',' pre buf s p at here found)
              (byte_at-first_char pre f.before f.after s p (comma_at s pre buf p at here f) here),
        )
        (later (record p { cmd = first_char f.before }) (suc (s + k))
          (pre ++ (f.before ++ b',' ∷ [])) f.after (behind_at s pre buf p at here f)
          (behind_here s pre buf p at here f b','))
]

parse_hash-Starts : (p : Packet) → Starts (header_of (until_nul p.buf)) p.field (parse_hash p)
unfolding header_of
parse_hash-Starts p = elim (Option-cases (find_byte (λ b. b == b'#') p.buf)) [
  | inl nothing ↦
      rw
        (
          find_byte-none (λ b. b == b'#') p.buf refl nothing,
          parse_hash-none p (strchr_at b'#' [] p.buf 0 p refl refl nothing),
        )
        (p, refl)
  | inr (k, found) ↦
      let f = find_byte-Found (λ b. b == b'#') p.buf k refl found in
      rw (f.agrees, parse_hash-some p (strchr_at b'#' [] p.buf 0 p refl refl found))
        (parse_cmd-Stage (parse_sub_cmd-Stage parse_count-Stage) p (suc (0 + k))
          (f.before ++ f.mark ∷ []) f.after (f.splits ∙ append-advance [] f.before f.mark f.after)
          (omega (arith, f.place, length-advance [] f.before f.mark)))
]

-- The text that a packet holds when it is parsed.
abbrev pub received : Packet → Bytes
received p = until_nul (take p.len p.buf)

-- `parse_packet` reports EFAULT, or its loop starts at the parameters of the text.
pub parse_packet-Starts :
    (p : Packet) → p.len < length p.buf → Starts (header_of (received p)) p.field (parse_packet p)
unfolding parse_packet
parse_packet-Starts p room =
    rw (lt→ltb _ _ room, ← (until_nul-set p.buf p.len room))
      (parse_hash-Starts (record p { buf = set p.buf p.len 0 }))
