-- ===== src/Wattsup/Command.antt =====
-- `wu_write` of wattsup/wattsup.c: the command that it puts into the packet's buffer.
mod Buffer
pub mod Format
use soml_apps.Clib.Memory.{overwrite_at}
use soml_apps.Common.{
  ℕ, zero, suc, ◌+◌, List, [], ◌∷◌, ◌++◌, ltb, leb, if◌then◌else◌, length, get_elem?, set,
  replicate,
}
use soml_apps.Clib.Run.{Run, ok, fault, ◌>>=◌, demand, Status, success, failed, eoverflow}
use soml_apps.Clib.Text.{Bytes}
use soml_apps.Clib.Number.{signed_decimal}
use soml_apps.Wattsup.Packet.{Pointer, null, into_buf, literal, Packet, wu_strlen}

-- `sprintf` of a text at an offset of the buffer, with its NUL.
unfoldable pub print_at : ℕ → Bytes → Bytes → Run Bytes
unfolding overwrite_at
print_at n text buf =
    if ltb (n + length text) (length buf) then ok (overwrite_at n (text ++ 0 ∷ []) buf) else fault

outside_text : Pointer → Run Bytes
outside_text null = fault
outside_text (into_buf o) = fault
outside_text (literal t) = ok t

-- The argument of `%s` in `wu_write`: `sprintf` may not copy from the buffer that it fills.
unfoldable pub argument_text : List Pointer → ℕ → Run Bytes
unfolding outside_text
argument_text field i = demand (get_elem? field i) >>= outside_text

-- `sprintf(p->buf, "#%c,%c,%d", p->cmd, p->sub_cmd, p->count)`
abbrev pub header_text : Packet → Bytes
header_text p = b'#' ∷ p.cmd ∷ b',' ∷ p.sub_cmd ∷ b',' ∷ signed_decimal p.count

-- The loop of `wu_write`, on the rounds left.
unfoldable pub write_fields : ℕ → ℕ → Packet → Run (Packet × Status)
unfolding argument_text print_at
write_fields zero i p = ok (p, success)
write_fields (suc k) i p = do
  f ← argument_text p.field i
  let next = (do
    buf ← print_at p.len (b',' ∷ f) p.buf
    write_fields k (suc i) (record p { buf = buf; len = p.len + suc (length f) }))
  if leb wu_strlen (p.len + length f + 4) then ok (p, failed eoverflow) else next

-- `p->buf[p->len++] = ';'`
end_command : Packet × Status → Run (Packet × Status)
end_command (p, failed e) = ok (p, failed e)
end_command (p, success) =
    if ltb p.len wu_strlen
    then ok (record p { buf = set p.buf p.len b';'; len = suc p.len }, success)
    else fault

-- `wu_write`, up to the call of `write`: the command is in the buffer, or it did not fit.
unfoldable pub encode : Packet → Run (Packet × Status)
unfolding write_fields print_at signed_decimal end_command
encode p = do
  buf ← print_at 0 (header_text p) (replicate wu_strlen 0)
  r ← write_fields p.count 0 (record p { buf = buf; len = length (header_text p) })
  end_command r
