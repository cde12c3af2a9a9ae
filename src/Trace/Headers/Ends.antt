-- ===== src/Trace/Headers/Ends.antt =====
-- The walk over the headers of trace/trace.c on a chain of options.
use soml_apps.Common.{
  ℕ, zero, suc, ◌+◌, ◌*◌, ◌<◌, ◌≡◌, refl, ap, sym, false, List, [], ◌∷◌, ◌++◌, ◌==◌, arith, length,
  get_elem?, length-append, append_assoc,
}
use soml_apps.Clib.Run.{ok}
use soml_apps.Clib.Text.{Bytes}
use soml_apps.Trace.Headers.{
  walk, turn, read_header, header_length, returned, trace_oml_parse_ip6_hdrs, advance, follow,
  enter,
}

-- A routing header or a destination option; `units` is its length byte.
pub data OptionKind : Type 0 where
  routing destination : OptionKind

pub record Extension : Type 0 where
  pub kind : OptionKind
  pub units : ℕ
  pub body : Bytes

-- Its length fits in 8 bits, and it has as many bytes as it says.
pub record IsExtension (e : Extension) : Type 0 where
  pub fits : e.units < 31
  pub size : length e.body ≡ e.units * 8 + 6

abbrev pub AreExtensions : List Extension → Type 0
AreExtensions [] = Unit
AreExtensions (e ∷ es) = IsExtension e × AreExtensions es

abbrev number : OptionKind → ℕ
number routing = 43
number destination = 60

-- The type of the first header of a chain, which is 59 if there is none.
abbrev pub first_type : List Extension → ℕ
first_type [] = 59
first_type (e ∷ es) = number e.kind

-- The chain, in front of more bytes.
abbrev pub chain_bytes : List Extension → Bytes → Bytes
chain_bytes [] rest = rest
chain_bytes (e ∷ es) rest = first_type es ∷ e.units ∷ e.body ++ chain_bytes es rest

-- A capture in which the chain stands where the walk looks for it, behind 8 bytes.
abbrev pub capture : Bytes → ℕ → List Extension → Bytes → Bytes
capture front hop es rest = front ++ (first_type es ∷ hop ∷ chain_bytes es rest)

get_elem?-append :
    (front back : Bytes) (n i : ℕ)
    → n ≡ length front + i
    → get_elem? (front ++ back) n ≡ get_elem? back i
get_elem?-append [] back n i e = ap (get_elem? back) (omega (arith, e))
get_elem?-append (x ∷ xs) back zero i e = absurd (omega arith)
get_elem?-append (x ∷ xs) back (suc n) i e = get_elem?-append xs back n i (omega arith)

turn_lem : (bytes : Bytes) (at : ℕ) (k : OptionKind) → turn bytes at (number k) ≡ ok (advance [])
unfolding turn
turn_lem bytes at routing = refl
turn_lem bytes at destination = refl

not_last : (k : OptionKind) → (number k == 59) ≡ false
not_last routing = refl
not_last destination = refl

header_length_lem : (units : ℕ) → units < 31 → header_length units ≡ units * 8 + 8
header_length_lem units b = omega arith

-- What a round reads of a header of the chain.
read_header_lem :
    (front : Bytes) (e : Extension) (next : ℕ) (rest : Bytes) (at : ℕ)
    → at ≡ length front
    → read_header (front ++ (next ∷ e.units ∷ rest)) at (number e.kind)
      ≡ ok (e.units, advance [], next)
read_header_lem front e next rest at here =
    let bytes = front ++ (next ∷ e.units ∷ rest) in
    rw
      (
        get_elem?-append front (next ∷ e.units ∷ rest) (at + 1) 1 (omega (arith, here)),
        turn_lem bytes at e.kind,
        get_elem?-append front (next ∷ e.units ∷ rest) at 0 (omega (arith, here)),
      )
      refl

walk_lem :
    (fuel : ℕ) (front : Bytes) (es : List Extension) (rest : Bytes) (at hdr_len : ℕ)
    → AreExtensions es
    → length front ≡ at + hdr_len
    → length es < fuel
    → walk fuel (front ++ chain_bytes es rest) at hdr_len (first_type es) ≡ ([], returned)
unfolding walk follow
walk_lem zero front es rest at hdr_len are place enough = absurd (omega arith)
walk_lem (suc fuel) front [] rest at hdr_len are place enough = refl
walk_lem (suc fuel) front (e ∷ es) rest at hdr_len (is, are) place enough =
    let header = first_type es ∷ e.units ∷ e.body in
    let bytes = front ++ chain_bytes (e ∷ es) rest in
    let again : front ++ chain_bytes (e ∷ es) rest ≡ (front ++ header) ++ chain_bytes es rest =
      sym (append_assoc front header (chain_bytes es rest)) in
    let size : length (front ++ header) ≡ (at + hdr_len) + (e.units * 8 + 8) =
      omega (arith, length-append front header, is.size, place) in
    let further =
      walk_lem fuel (front ++ header) es rest (at + hdr_len) (e.units * 8 + 8) are size
        (omega arith) in
    rw
      (
        not_last e.kind,
        read_header_lem front e (first_type es) (e.body ++ chain_bytes es rest) (at + hdr_len)
            (sym place),
        header_length_lem e.units is.fits,
        again,
        further,
      )
      refl

-- On a capture with a chain of routing headers and destination options behind its first 8 bytes,
-- where the walk looks for them, each with a length byte below 31 and as many bytes as it says, the
-- walk returns in one round for each header and one more, reads nothing outside the capture and
-- injects nothing.
pub parse-capture :
    (fuel : ℕ) (front : Bytes) (hop : ℕ) (es : List Extension) (rest : Bytes)
    → length front ≡ 6
    → AreExtensions es
    → length es < fuel
    → trace_oml_parse_ip6_hdrs fuel (capture front hop es rest) ≡ ([], returned)
unfolding trace_oml_parse_ip6_hdrs enter
parse-capture fuel front hop es rest size are enough =
    let opening = first_type es ∷ hop ∷ [] in
    let again : capture front hop es rest ≡ (front ++ opening) ++ chain_bytes es rest =
      sym (append_assoc front opening (chain_bytes es rest)) in
    rw
      (get_elem?-append front (first_type es ∷ hop ∷ chain_bytes es rest) 6 0 (omega (arith, size)))
      (rw again (
        walk_lem fuel (front ++ opening) es rest 0 8 are
          (omega (arith, length-append front opening, size)) enough))
