-- ===== src/Wattsup/Parse/Sizes.antt =====
-- `parse_packet` of wattsup/wattsup.c keeps the sizes of the packet's arrays, also where it fails.

use soml_apps.Common.{
  ℕ, zero, suc, ◌≡◌, refl, ◌∙◌, subst, none, arith, ltb, length, set, length-set, Bool-cases,
  Option-cases, inl, inr,
}
use soml_apps.Clib.Run.{Run, ok, fault, Status}
use soml_apps.Clib.Text.{strpbrk, strchr, string_at}
use soml_apps.Clib.Number.{atoi}
use soml_apps.Wattsup.Packet.{Packet}
use soml_apps.Wattsup.Parse.{
  parse_fields, parse_hash, parse_cmd, parse_sub_cmd, parse_count, parse_packet, byte_at,
}
use soml_apps.Wattsup.Parse.Overrun.{parse_fields-full_some, parse_fields-full_none}
use soml_apps.Wattsup.Parse.Stages.{
  parse_hash-none, parse_hash-some, parse_cmd-none, parse_cmd-some, parse_sub_cmd-none,
  parse_sub_cmd-some, parse_count-none, parse_count-some,
}
use soml_apps.Wattsup.Parse.Steps.{
  stored, parse_fields-some, parse_fields-none, parse_fields-malformed,
}

pub record SameSizes (p q : Packet) : Type 0 where
  pub buf : length q.buf ≡ length p.buf
  pub field : length q.field ≡ length p.field
  pub label : q.label ≡ p.label

abbrev SizesKept : Packet → Run (Packet × Status) → Type 0
SizesKept p (ok r) = SameSizes p r.0
SizesKept p fault = Unit

SameSizes-trans : {p q r : Packet} → SameSizes p q → SameSizes q r → SameSizes p r
SameSizes-trans a b = record {
  buf = b.buf ∙ a.buf;
  field = b.field ∙ a.field;
  label = b.label ∙ a.label;
}

SizesKept-from :
    {p q : Packet} (r : Run (Packet × Status)) → SameSizes p q → SizesKept q r → SizesKept p r
SizesKept-from (ok r) a b = SameSizes-trans a b
SizesKept-from fault a b = tt

unchanged : (p : Packet) → SameSizes p p
unchanged p = record { buf = refl; field = refl; label = refl }

stored-SameSizes : (i s next : ℕ) (p : Packet) → SameSizes p (stored i s next p)
stored-SameSizes i s next p = record {
  buf = length-set p.buf next 0;
  field = length-set p.field i _;
  label = refl;
}

last_field :
    (k i s : ℕ) (p : Packet) → strpbrk p.buf s ≡ none → SizesKept p (parse_fields (suc k) i s p)
last_field zero i s p e = elim (Bool-cases (ltb i (length p.field))) [
  | inl room ↦
      rw (parse_fields-none i s p e (ground arith))
        (record { buf = refl; field = length-set p.field i _; label = refl })
  | inr full ↦ rw (parse_fields-full_none i s p e (ground arith)) tt
]
last_field (suc k) i s p e = rw (parse_fields-malformed k i s p e) (unchanged p)

parse_fields-SizesKept : (k i s : ℕ) (p : Packet) → SizesKept p (parse_fields k i s p)
unfolding parse_fields
parse_fields-SizesKept zero i s p = unchanged p
parse_fields-SizesKept (suc k) i s p = elim (Option-cases (strpbrk p.buf s)) [
  | inl nothing ↦ last_field k i s p nothing
  | inr (next, found) ↦ elim (Bool-cases (ltb i (length p.field))) [
    | inl room ↦ rw (parse_fields-some k i s next p found (ground arith)) (
        SizesKept-from (parse_fields k (suc i) (suc next) (stored i s next p))
          (stored-SameSizes i s next p)
          (parse_fields-SizesKept k (suc i) (suc next) (stored i s next p)))
    | inr full ↦ rw (parse_fields-full_some k i s next p found (ground arith)) tt
  ]
]

parse_count-SizesKept : (s : ℕ) (p : Packet) → SizesKept p (parse_count s p)
parse_count-SizesKept s p = elim (Option-cases (strchr p.buf s b',')) [
  | inl nothing ↦ rw (parse_count-none s p nothing) (unchanged p)
  | inr (n, found) ↦
      let q = record p { buf = set p.buf n 0; count = atoi (string_at (set p.buf n 0) s) } in
      let same : SameSizes p q = record {
        buf = length-set p.buf n 0;
        field = refl;
        label = refl;
      } in
      rw (parse_count-some s p found refl refl) (
        SizesKept-from (parse_fields q.count 0 (suc n) q) same
          (parse_fields-SizesKept q.count 0 (suc n) q))
]

parse_sub_cmd-SizesKept : (s : ℕ) (p : Packet) → SizesKept p (parse_sub_cmd s p)
parse_sub_cmd-SizesKept s p = elim (Option-cases (strchr p.buf s b',')) [
  | inl nothing ↦ rw (parse_sub_cmd-none s p nothing) (unchanged p)
  | inr (n, found) ↦
      let q = record p { sub_cmd = byte_at p.buf s } in
      rw (parse_sub_cmd-some s p found refl) (
        SizesKept-from (parse_count (suc n) q) (record { buf = refl; field = refl; label = refl })
          (parse_count-SizesKept (suc n) q))
]

parse_cmd-SizesKept : (s : ℕ) (p : Packet) → SizesKept p (parse_cmd s p)
parse_cmd-SizesKept s p = elim (Option-cases (strchr p.buf s b',')) [
  | inl nothing ↦ rw (parse_cmd-none s p nothing) (unchanged p)
  | inr (n, found) ↦
      let q = record p { cmd = byte_at p.buf s } in
      rw (parse_cmd-some s p found refl) (
        SizesKept-from (parse_sub_cmd (suc n) q) (record { buf = refl; field = refl; label = refl })
          (parse_sub_cmd-SizesKept (suc n) q))
]

parse_hash-SizesKept : (p : Packet) → SizesKept p (parse_hash p)
parse_hash-SizesKept p = elim (Option-cases (strchr p.buf 0 b'#')) [
  | inl nothing ↦ rw (parse_hash-none p nothing) (unchanged p)
  | inr (n, found) ↦ rw (parse_hash-some p found) (parse_cmd-SizesKept (suc n) p)
]

parse_packet-SizesKept : (p : Packet) → SizesKept p (parse_packet p)
unfolding parse_packet
parse_packet-SizesKept p = elim (Bool-cases (ltb p.len (length p.buf))) [
  | inl room ↦
      let q = record p { buf = set p.buf p.len 0 } in
      rw room (
        SizesKept-from (parse_hash q)
          (record { buf = length-set p.buf p.len 0; field = refl; label = refl })
          (parse_hash-SizesKept q))
  | inr full ↦ rw full tt
]

pub parse_packet-sizes :
    (p : Packet) {q : Packet} {status : Status} → parse_packet p ≡ ok (q, status) → SameSizes p q
parse_packet-sizes p e = subst (SizesKept p) e (parse_packet-SizesKept p)
