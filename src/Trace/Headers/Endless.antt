-- ===== src/Trace/Headers/Endless.antt =====
-- Where the walk over the headers of trace/trace.c does not end, and where it reads too early.
use soml_apps.Common.{
  ℕ, zero, suc, ◌+◌, ◌%◌, ◌≡◌, ◌≢◌, ◌⊎◌, inl, inr, refl, ap, some, [], ◌++◌, false, ◌==◌, arith,
  get_elem?,
}
use soml_apps.Clib.Run.{ok}
use soml_apps.Clib.Text.{Bytes}
use soml_apps.Trace.Headers.{
  walk, turn, read_header, header_length, unfinished, undefined, trace_oml_parse_ip6_hdrs, advance,
}

-- A header that says of itself that it comes next, with a length that wraps to 0.
pub record NamesItself (bytes : Bytes) (at t : ℕ) : Type 0 where
  pub kind : (t ≡ 43) ⊎ (t ≡ 60)
  pub nxt : get_elem? bytes at ≡ some t
  pub len : ℕ
  pub has_len : get_elem? bytes (at + 1) ≡ some len
  pub wraps : len % 32 ≡ 31

turn_skips : (bytes : Bytes) (at t : ℕ) → (t ≡ 43) ⊎ (t ≡ 60) → turn bytes at t ≡ ok (advance [])
unfolding turn
turn_skips bytes at t kind = elim kind [ inl e ↦ rw e refl | inr e ↦ rw e refl ]

read_skips :
    (bytes : Bytes) (at t : ℕ) (n : NamesItself bytes at t)
    → read_header bytes at t ≡ ok (n.len, advance [], t)
read_skips bytes at t n = rw (n.has_len, turn_skips bytes at t n.kind, n.nxt)

stays :
    (fuel : ℕ) (bytes : Bytes) (from hdr_len at t : ℕ)
    → from + hdr_len ≡ at
    → NamesItself bytes at t
    → walk fuel bytes from hdr_len t ≡ ([], unfinished)
unfolding walk
stays zero bytes from hdr_len at t place n = refl
stays (suc fuel) bytes from hdr_len at t place n =
    let other : (t == 59) ≡ false = ground arith in
    let wrapped : header_length n.len ≡ 0 = omega (arith, n.wraps) in
    rw (place, other, read_skips bytes at t n, wrapped)
      (ap (λ r. ([] ++ r.0, r.1)) (stays fuel bytes at 0 at t (omega arith) n))

-- Where the header that the walk reads first is a routing or destination option that names its own
-- type as the next, with a length byte of 31 modulo 32, the walk does not end, whatever the bound
-- on its rounds.
pub parse-unfinished :
    (fuel : ℕ) (bytes : Bytes) (t : ℕ)
    → get_elem? bytes 6 ≡ some t
    → NamesItself bytes 8 t
    → trace_oml_parse_ip6_hdrs fuel bytes ≡ ([], unfinished)
unfolding trace_oml_parse_ip6_hdrs
parse-unfinished fuel bytes t nxt n = rw nxt (stays fuel bytes 0 8 8 t refl n)

-- A mobility header is looked for in the source address of the packet.
pub parse-undefined :
    (fuel : ℕ) (bytes : Bytes) (len hdr_type : ℕ)
    → get_elem? bytes 6 ≡ some 135
    → get_elem? bytes 9 ≡ some len
    → get_elem? bytes 10 ≡ some hdr_type
    → hdr_type ≢ 5
    → hdr_type ≢ 6
    → trace_oml_parse_ip6_hdrs (suc fuel) bytes ≡ ([], undefined)
unfolding trace_oml_parse_ip6_hdrs walk turn
parse-undefined fuel bytes len hdr_type nxt length_byte third no_bu no_back =
    let not_bu : (hdr_type == 5) ≡ false = ground arith in
    let not_back : (hdr_type == 6) ≡ false = ground arith in
    rw (nxt, length_byte, third, not_bu, not_back)
