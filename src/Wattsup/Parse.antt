-- ===== src/Wattsup/Parse.antt =====
-- `parse_packet` of wattsup/wattsup.c, on the packet's buffer.
pub mod Spec
pub mod Fields
pub mod Steps
mod Stages
pub mod Sizes
pub mod Overrun
pub mod Header
pub mod Refines
use soml_apps.Common.{
  ℕ, zero, suc, ◌+◌, none, some, ltb, if◌then◌else◌, length, get_elem?, set, drop,
}
use soml_apps.Clib.Run.{Run, ok, fault, ◌>>=◌, Status, success, failed, efault}
use soml_apps.Clib.Text.{Bytes, string_at, until_nul, find_byte, strchr, strpbrk, leading_spaces}
use soml_apps.Clib.Number.{atoi}
use soml_apps.Wattsup.Packet.{Pointer, into_buf, Packet}

-- `p->field[i] = s`
unfoldable pub store_field : ℕ → Pointer → Packet → Run Packet
store_field i s p =
    if ltb i (length p.field) then ok (record p { field = set p.field i s }) else fault

-- `while (isspace(*s)) s++`
abbrev pub skip_from : Bytes → ℕ → ℕ
skip_from buf s = s + leading_spaces (drop s buf)

-- The loop of `parse_packet`, on the rounds left; `i < p->count - 1` if a round is left.
unfoldable pub parse_fields : ℕ → ℕ → ℕ → Packet → Run (Packet × Status)
unfolding find_byte leading_spaces store_field
parse_fields zero i s p = ok (p, success)
parse_fields (suc k) i s p = elim (strpbrk p.buf s) [
  | some next ↦ do
    let buf = set p.buf next 0
    q ← store_field i (into_buf (skip_from buf s)) (record p { buf = buf })
    parse_fields k (suc i) (suc next) q
  | none ↦
      if ltb 0 k
      then ok (p, failed efault)
      else do q ← store_field i (into_buf (skip_from p.buf s)) p; ok (q, success)
]

-- The number of parameters is next.
unfoldable pub parse_count : ℕ → Packet → Run (Packet × Status)
unfolding parse_fields find_byte atoi until_nul
parse_count s p = elim (strchr p.buf s b',') [
  | none ↦ ok (p, failed efault)
  | some next ↦
      let buf = set p.buf next 0 in
      let count = atoi (string_at buf s) in
      parse_fields count 0 (suc next) (record p { buf = buf; count = count })
]

-- `*s`
abbrev pub byte_at : Bytes → ℕ → ℕ
byte_at buf s = elim (get_elem? buf s) [ none ↦ 0 | some c ↦ c ]

unfoldable pub parse_sub_cmd : ℕ → Packet → Run (Packet × Status)
unfolding parse_count find_byte
parse_sub_cmd s p = elim (strchr p.buf s b',') [
  | none ↦ ok (p, failed efault)
  | some next ↦ parse_count (suc next) (record p { sub_cmd = byte_at p.buf s })
]

unfoldable pub parse_cmd : ℕ → Packet → Run (Packet × Status)
unfolding parse_sub_cmd find_byte
parse_cmd s p = elim (strchr p.buf s b',') [
  | none ↦ ok (p, failed efault)
  | some next ↦ parse_sub_cmd (suc next) (record p { cmd = byte_at p.buf s })
]

unfoldable pub parse_hash : Packet → Run (Packet × Status)
unfolding parse_cmd find_byte
parse_hash p = elim (strchr p.buf 0 b'#') [
  | none ↦ ok (p, failed efault)
  | some hash ↦ parse_cmd (suc hash) p
]

-- `parse_packet`; the write of the terminating NUL needs `p->len` below the buffer's size.
unfoldable pub parse_packet : Packet → Run (Packet × Status)
unfolding parse_hash
parse_packet p =
    if ltb p.len (length p.buf) then parse_hash (record p { buf = set p.buf p.len 0 }) else fault
