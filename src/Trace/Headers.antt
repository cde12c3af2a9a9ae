-- ===== src/Trace/Headers.antt =====
-- `trace_oml_parse_ip6_hdrs` of trace/trace.c, on the bytes captured from the IPv6 header on. On the
-- hosts modelled a pointer has 8 bytes and words are little-endian; a `libtrace_ip6_ext_t` is the two
-- bytes `nxt` and `len`.
pub mod Endless
pub mod Ends
use soml_apps.Common.{
  ℕ, zero, suc, ◌+◌, ◌*◌, ◌%◌, Bool, true, false, Option, none, some, List, [], ◌∷◌, ◌++◌, ltb, leb,
  ◌==◌, if◌then◌else◌, length, take, drop, get_elem?,
}
use soml_apps.Clib.Run.{Run, ok, fault, ◌>>=◌, demand}
use soml_apps.Clib.Text.{Bytes}

-- The value of the type that `oml_inject_ip6_mh` is given.
pub data Mobility : Type 0 where
  bu back : Mobility

-- The rows injected: the addresses of a nested header, or a mobility message, with the bytes from
-- which its care-of address is printed.
pub data Row : Type 0 where
  ip6 : Bytes → Bytes → Row
  ip6_mh : Mobility → ℕ → Option Bytes → Row

-- How the walk over the headers ends: it returns, a read is out of bounds or of a pointer that was
-- never set, or the rounds of the model run out.
pub data End : Type 0 where
  returned undefined unfinished : End

-- Some bytes of the capture.
abbrev pub slice : Bytes → ℕ → ℕ → Run Bytes
slice bytes at n = if leb (at + n) (length bytes) then ok (take n (drop at bytes)) else fault

abbrev pub byte : Bytes → ℕ → Run ℕ
byte bytes at = demand (get_elem? bytes at)

-- `htons` of a 16-bit field of the capture
abbrev pub network16 : Bytes → ℕ → Run ℕ
network16 bytes at = do high ← byte bytes at; low ← byte bytes (at + 1); ok (high * 256 + low)

-- `trace_oml_inject_ip6` of the header at a place
unfoldable pub inject_ip6 : Bytes → ℕ → Run Row
inject_ip6 bytes at = do
  src ← slice bytes (at + 8) 16
  dst ← slice bytes (at + 24) 16
  ok (ip6 src dst)

-- The case of a mobility header. The address is read 16 headers, of 2 bytes each, behind it; for
-- the other types the text that is injected was never set.
unfoldable pub mobility : Bytes → ℕ → Run Row
mobility bytes at = do
  hdr_type ← byte bytes (at + 2)
  let binding_update = (do
    sequ_nb ← network16 bytes (at + 6)
    coa ← slice bytes (at + 32) 16
    ok (ip6_mh bu sequ_nb (some coa)))
  let acknowledgement = (do sequ_nb ← network16 bytes (at + 8); ok (ip6_mh back sequ_nb none))
  if hdr_type == 5 then binding_update else if hdr_type == 6 then acknowledgement else fault

-- What the header of a type makes the loop do.
pub data Turn : Type 0 where
  nested : Row → Turn
  advance : List Row → Turn
  resume : Turn

unfoldable pub turn : Bytes → ℕ → ℕ → Run Turn
unfolding inject_ip6 mobility
turn bytes at hdr_type =
    let inner = (do row ← inject_ip6 bytes at; ok (nested row)) in
    let moved = (do row ← mobility bytes at; ok (advance (row ∷ []))) in
    if hdr_type == 41
    then inner
    else if hdr_type == 43
    then ok (advance [])
    else if hdr_type == 60
    then ok (advance [])
    else if hdr_type == 135
    then moved
    else ok resume

-- `hdr_len = hdr->len*8 + 8`, in 8 bits
abbrev pub header_length : ℕ → ℕ
header_length len = (len * 8 + 8) % 256

after : List Row → List Row × End → List Row × End
after rows r = (rows ++ r.0, r.1)

-- What a round reads: `hdr->len`, what the header asks for, and `hdr->nxt`.
abbrev pub read_header : Bytes → ℕ → ℕ → Run (ℕ × Turn × ℕ)
read_header bytes at hdr_type = do
  len ← byte bytes (at + 1)
  t ← turn bytes at hdr_type
  next ← byte bytes at
  ok (len, t, next)

abbrev Walk : Type 0
Walk = List Row × End

entered : (ℕ → ℕ → ℕ → Walk) → ℕ → Option ℕ → Walk
entered walk at none = ([], undefined)
entered walk at (some next) = walk at 8 next

-- `trace_oml_parse_ip6_hdrs` of the header at a place: `hdr_len` starts as the size of a pointer.
abbrev enter : Bytes → (ℕ → ℕ → ℕ → Walk) → ℕ → Walk
unfolding entered
enter bytes walk at = entered walk at (get_elem? bytes (at + 6))

follow : Bytes → (ℕ → ℕ → ℕ → Walk) → ℕ → Run (ℕ × Turn × ℕ) → Walk
unfolding after enter
follow bytes walk at fault = ([], undefined)
follow bytes walk at (ok (len, resume, next)) = ([], returned)
follow bytes walk at (ok (len, advance rows, next)) = after rows (walk at (header_length len) next)
follow bytes walk at (ok (len, nested row, next)) = after (row ∷ []) (enter bytes walk at)

-- The loop, from the header at `at` with the length `hdr_len` on.
unfoldable pub walk : ℕ → Bytes → ℕ → ℕ → ℕ → Walk
unfolding follow turn
walk zero bytes at hdr_len hdr_next = ([], unfinished)
walk (suc fuel) bytes at hdr_len hdr_next =
    let place = at + hdr_len in
    let rest = follow bytes (walk fuel bytes) place (read_header bytes place hdr_next) in
    if hdr_next == 59 then ([], returned) else rest

-- `trace_oml_parse_ip6_hdrs`, on a bound of the rounds
unfoldable pub trace_oml_parse_ip6_hdrs : ℕ → Bytes → List Row × End
unfolding walk enter
trace_oml_parse_ip6_hdrs fuel bytes = enter bytes (walk fuel bytes) 0
