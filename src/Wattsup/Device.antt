-- ===== src/Wattsup/Device.antt =====
-- `wu_write` and `wu_read` of wattsup/wattsup.c over the device, and the requests that need no
-- options: `wu_start_log`, `wu_stop_log`, `wu_clear`.
pub mod Safe
use soml_apps.Clib.Memory.{overwrite}
use soml_apps.Common.{
  ℕ, suc, Bool, true, false, Option, none, some, List, [], ◌∷◌, if◌then◌else◌, take, length,
}
use soml_apps.Common.Int.{pos}
use soml_apps.Clib.Run.{ok, Status, success, failed, etime, os_error, is_failed}
use soml_apps.Clib.Text.{Bytes, codes}
use soml_apps.Wattsup.Packet.{Packet, packet, Pointer, literal, wu_strlen}
use soml_apps.Wattsup.Command.{encode}
use soml_apps.Wattsup.Parse.{parse_packet}
use soml_apps.Wattsup.State.{
  Prog, wrote, slept, ReadEvent, select_failed, timed_out, read_failed, received, ◌>>=◌, ◌>>◌, pure,
  lift, act, when,
}

-- The answer of the next `write`.
unfoldable pub next_write : Prog (Option ℕ)
next_write s = ok (s.world.writes s.writes_done, record s { writes_done = suc s.writes_done })

-- The answer of the next `select`, and of the `read` behind it.
unfoldable pub next_read : Prog ReadEvent
next_read s = ok (s.world.reads s.reads_done, record s { reads_done = suc s.reads_done })

-- `write(fd, p->buf, p->len)`: a short write is no error.
unfoldable pub send : Packet → Option ℕ → Prog (Packet × Status)
send p none = pure (p, failed os_error)
send p (some n) = do act (wrote (take n (take p.len p.buf))); pure (p, success)

unfoldable pub wu_write : Packet → Prog (Packet × Status)
unfolding encode send next_write
wu_write p = do
  (q, status) ← lift (encode p)
  if is_failed status then pure (q, status) else (do answer ← next_write; send q answer)

-- `read(fd, p->buf, wu_strlen)`
abbrev pub filled : Bytes → Packet → Packet
filled bytes p =
    let got = take wu_strlen bytes in record p { buf = overwrite got p.buf; len = length got }

unfoldable pub receive : Packet → ReadEvent → Prog (Packet × Status)
unfolding parse_packet overwrite
receive p select_failed = pure (p, failed os_error)
receive p timed_out = pure (p, failed etime)
receive p read_failed = pure (p, failed os_error)
receive p (received bytes) = lift (parse_packet (filled bytes p))

unfoldable pub wu_read : Packet → Prog (Packet × Status)
unfolding receive next_read
wu_read p = do event ← next_read; receive p event

-- A request and its answer, with the pause that most of the callers make in between.
unfoldable pub exchange : Bool → Packet → Prog (Packet × Status)
unfolding wu_write wu_read
exchange pause p = do
  (q, status) ← wu_write p
  if is_failed status then pure (q, status) else (do when pause (act (slept (pos 1))); wu_read q)

abbrev pub labels : List Bytes → List Pointer
labels [] = []
labels (l ∷ ls) = literal l ∷ labels ls

unfoldable pub start_log_packet : Packet
start_log_packet =
    packet b'L' b'W' 3 (literal (codes "E") ∷ literal (codes "1") ∷ literal (codes "1") ∷ []) []

unfoldable pub wu_start_log : Prog Status
unfolding wu_write start_log_packet
wu_start_log = do
  (q, status) ← wu_write start_log_packet
  if is_failed status then pure status else (do act (slept (pos 1)); pure status)

unfoldable pub stop_log_packet : Packet
stop_log_packet = packet b'L' b'R' 0 [] (labels (codes "time stamp" ∷ codes "interval" ∷ []))

unfoldable pub clear_packet : Packet
clear_packet = packet b'R' b'W' 0 [] []

-- The pause, then a read whose result is dropped; the status is that of the request.
unfoldable pub wu_clear : Prog Status
unfolding wu_write wu_read clear_packet
wu_clear = do
  (q, status) ← wu_write clear_packet
  when (if is_failed status then false else true) (act (slept (pos 2)))
  dropped ← wu_read q
  pure status
