-- ===== src/Wpamon.antt =====
-- The monitor of wpa_supplicant: `main` of wpamon/wpamon.c. The calls of the system are arguments:
-- which of them succeed, and what `recv` hands over.
pub mod Events
pub mod Ends
use Prim.Native.String.{String}
use soml_apps.Common.{
  ℕ, zero, suc, ◌+◌, ◌-◌, Bool, true, false, ◌&&◌, ◌||◌, Option, none, some, List, [], ◌∷◌, ◌++◌,
  ltb, leb, ◌==◌, if◌then◌else◌, length, take, drop,
}
use soml_apps.Clib.Run.{Run, ok, fault, ◌>>=◌}
use soml_apps.Clib.Text.{Bytes, codes, until_nul, same_text}
use soml_apps.Clib.Tokens.{strtok_r, chopped, starts_with}

-- What `oml_inject_network_event` is given, the time of the message left out.
pub record EventRow : Type 0 where
  pub event : Bytes
  pub bssid : Bytes
  pub full_string : Bytes

abbrev pub is_blank : ℕ → Bool
is_blank c = c == b' '

-- "> "
abbrev pub ends_priority : ℕ → Bool
ends_priority c = c == b'>' || c == b' '

-- "= "
abbrev pub is_equals : ℕ → Bool
is_equals c = c == b'=' || c == b' '

-- `strtok_r(NULL, ...)`, some times over
abbrev pub nth_token : ℕ → (ℕ → Bool) → Bytes → Option Bytes
nth_token zero is_delim text = (strtok_r is_delim text).0
nth_token (suc n) is_delim text = nth_token n is_delim (strtok_r is_delim text).1

abbrev or_empty : Option Bytes → Bytes
or_empty none = []
or_empty (some t) = t

-- What the branches for the kinds of event find: the BSSID, or that the event is skipped.
unfoldable pub bssid_of : Bytes → Bytes → Option Bytes
bssid_of kind text =
    if starts_with kind (codes "CONNECTED")
    then some (or_empty (nth_token 3 is_blank text))
    else if starts_with kind (codes "DISCONNECTED")
    then some (or_empty (nth_token 1 is_equals text))
    else if starts_with kind (codes "BSS-ADDED") || starts_with kind (codes "BSS-REMOVED")
    then some (or_empty (nth_token 1 is_blank text))
    else if starts_with kind (codes "SCAN-RESULTS")
    then none
    else some []

row_of : Bytes → Bytes → Option Bytes → List EventRow
row_of message event none = []
row_of message event (some bssid) =
    record { event = event; bssid = bssid; full_string = message } ∷ []

event_rows : Bytes → Bytes → Bytes → List EventRow
unfolding row_of bssid_of
event_rows message event text =
    if starts_with event (codes "CTRL-EVENT-")
    then row_of message event (bssid_of (drop 11 event) text)
    else []

-- The rows for a message, and `temp` after it; without an event `temp` stays cut into tokens.
handle_event : Bytes → Option Bytes × Bytes → List EventRow × Bytes
unfolding event_rows
handle_event message (none, text) = ([], chopped ends_priority message)
handle_event message (some event, text) = (event_rows message event text, message)

unfoldable pub handle : Bytes → Bytes → List EventRow × Bytes
unfolding handle_event
handle temp message =
    let fresh = handle_event message (strtok_r is_blank (strtok_r ends_priority message).1) in
    if same_text temp message then ([], temp) else fresh

-- What `recv` does: it fills the buffer from a datagram, and a signal may come in the same round; it
-- fails, or the server has closed the connection, which an empty datagram looks like.
pub data Recv : Type 0 where
  datagram : Bytes → Bool → Recv
  failed closed : Recv

-- A round of the loop on a datagram: at most 100 bytes are received, and a NUL is put behind them.
unfoldable pub receive : Bytes → Bytes → Run (List EventRow × Bytes)
unfolding handle
receive temp bytes =
    let got = take 100 bytes in
    if leb 100 (length got) then fault else ok (handle temp (until_nul got))

-- How the loop is left: with a value of `exit_loop`, or not at all while more is to come.
pub data Exit : Type 0 where
  exits : ℕ → Exit
  listening : Exit

pub record Heard : Type 0 where
  pub rows : List EventRow
  pub exit : Exit

more : List EventRow → Run Heard → Run Heard
more rows rest = do h ← rest; ok (record h { rows = rows ++ h.rows })

-- What a datagram does before the next round.
proceed : Bool → (Bytes → Run Heard) → List EventRow × Bytes → Run Heard
unfolding more
proceed true rest (rows, temp) = ok (record { rows = rows; exit = exits 1 })
proceed false rest (rows, temp) = more rows (rest temp)

unfoldable pub event_loop : List Recv → Bytes → Run Heard
unfolding proceed receive
event_loop [] temp = ok (record { rows = []; exit = listening })
event_loop (failed ∷ rest) temp = ok (record { rows = []; exit = exits 4 })
event_loop (closed ∷ rest) temp = ok (record { rows = []; exit = exits 1 })
event_loop (datagram [] signalled ∷ rest) temp = ok (record { rows = []; exit = exits 1 })
event_loop (datagram (b ∷ bytes) signalled ∷ rest) temp =
    receive temp (b ∷ bytes) >>= proceed signalled (event_loop rest)

pub record Options : Type 0 where
  pub interface : Bytes
  pub ctrl_interface : Option Bytes
  pub local_path : Option Bytes

-- Which calls succeed.
pub record System : Type 0 where
  pub socket : Bool
  pub bind : Bool
  pub connect : Bool
  pub send : Bool

-- `strncpy` of an option into 104 bytes, or `snprintf` of the name that the interface has.
unfoldable pub path_in : Option Bytes → Bytes → Run Bytes
path_in (some path) name = if ltb (length path) 104 then ok path else fault
path_in none name = ok (take 103 name)

abbrev pub local_name : Bytes → Bytes
local_name interface = codes "/tmp/wpamon_" ++ (interface ++ codes ".sock")

abbrev pub remote_name : Bytes → Bytes
remote_name interface = codes "/var/run/wpa_supplicant/" ++ interface

-- The end of `main`: the rows injected, the path that is removed, and the exit status, if the loop
-- is left.
pub record Ending : Type 0 where
  pub rows : List EventRow
  pub removed : Bytes
  pub status : ℕ

abbrev cleanup : Bytes → ℕ → Run (Option Ending)
cleanup path exit_loop = ok (some (record { rows = []; removed = path; status = exit_loop - 1 }))

finish : Bytes → List EventRow → Exit → Option Ending
finish path rows (exits n) = some (record { rows = rows; removed = path; status = n - 1 })
finish path rows listening = none

-- `exit_loop` when the loop is reached, or at the jump past it.
abbrev pub attach : System → ℕ
attach sys = if sys.socket && (sys.bind && sys.connect) then (if sys.send then 0 else 3) else 2

abbrev listen : List Recv → Bytes → Run (Option Ending)
unfolding event_loop finish
listen input path = do h ← event_loop input []; ok (finish path h.rows h.exit)

unfoldable pub main : System → Options → List Recv → Run (Option Ending)
unfolding path_in listen
main sys opts input = do
  path ← path_in opts.local_path (local_name opts.interface)
  remote ← path_in opts.ctrl_interface (remote_name opts.interface)
  if attach sys == 0 then listen input path else cleanup path (attach sys)
