-- ===== src/Gpslogger.antt =====
-- gpslogger/gpslogger.c: the fixes of gpsd that go to OML. What gpsd, `floor` and `gmtime_r` answer
-- is given, and so are the constants of gps.h.
pub mod Throttle
use soml_apps.Common.{
  ℕ, ◌+◌, ◌-◌, Bool, true, false, not, ◌&&◌, Option, none, some, List, [], ◌∷◌, ◌++◌, leb, ◌==◌,
  if◌then◌else◌, length, take, replicate,
}
use soml_apps.Common.Int.{ℤ, pos, negsuc}
use soml_apps.Clib.Text.{Bytes, codes, same_text}
use soml_apps.Clib.Number.{decimal}

abbrev pub Double : Type 0
Double = ℕ

-- `struct tm`, whose fields are not negative from 1900 on.
pub record Tm : Type 0 where
  pub tm_year : ℕ
  pub tm_mon : ℕ
  pub tm_mday : ℕ
  pub tm_hour : ℕ
  pub tm_min : ℕ
  pub tm_sec : ℕ

-- `struct gps_fix_t`
pub record Fix : Type 0 where
  pub time : Double
  pub mode : ℕ
  pub latitude : Double
  pub longitude : Double
  pub altitude : Double
  pub track : Double
  pub speed : Double
  pub climb : Double

pub record World : Type 0 where
  pub mode_no_fix : ℕ
  pub mode_2d : ℕ
  pub floor : Double → ℤ
  pub gmtime : ℤ → Tm
  pub print_double : Double → Bytes

-- One row of the measurement point `gps_data`.
pub record Row : Type 0 where
  pub fix : Fix
  pub mode : Bytes
  pub time_string : Bytes

-- The static variables, what has been printed, and what has been injected.
pub record State : Type 0 where
  pub old_int_time : ℤ
  pub verbose : Bool
  pub device : Option Bytes
  pub header_printed : Bool
  pub printed : List Bytes
  pub injected : List Row

abbrev same_integer : ℤ → ℤ → Bool
same_integer (pos m) (pos n) = m == n
same_integer (negsuc m) (negsuc n) = m == n
same_integer _ _ = false

abbrev padded : ℕ → ℕ → Bytes
padded width n = replicate (width - length (decimal n)) b'0' ++ decimal n

-- "%04d-%02d-%02dT%02d:%02d:%02dZ"
unfoldable pub time_text : Tm → Bytes
unfolding decimal
time_text t = take 99 (
    padded 4 (t.tm_year + 1900)
    ++ (b'-' ∷ padded 2 (t.tm_mon + 1))
    ++ (b'-' ∷ padded 2 t.tm_mday)
    ++ (b'T' ∷ padded 2 t.tm_hour)
    ++ (b':' ∷ padded 2 t.tm_min)
    ++ (b':' ∷ padded 2 t.tm_sec)
    ++ codes "Z")

unfoldable pub mode_text : World → ℕ → Bytes
unfolding decimal
mode_text w mode =
    if mode == w.mode_no_fix then codes "none" else take 9 (decimal mode ++ codes "d")

abbrev pub row : World → Fix → Row
row w f = record {
  fix = f;
  mode = mode_text w f.mode;
  time_string = time_text (w.gmtime (w.floor f.time));
}

-- The line that `log_fix` prints.
abbrev pub line : World → Row → Bytes
line w r =
    let value : Double → Bytes = λ v. codes ",\t" ++ w.print_double v in
    r.time_string
    ++ value r.fix.latitude
    ++ value r.fix.longitude
    ++ value r.fix.altitude
    ++ value r.fix.track
    ++ value r.fix.speed
    ++ value r.fix.climb
    ++ codes ",\t"
    ++ r.mode
    ++ codes "\n"

abbrev heading : Bytes
heading = codes "timestamp,\tlatitude,\tlongitude,\televation,\ttrack,\tspeed,\tclimb,\tfix\n"

abbrev print_row : World → Row → State → State
print_row w r s =
    if s.verbose
    then record s {
      header_printed = true;
      printed = (s.printed ++ (if s.header_printed then [] else heading ∷ [])) ++ line w r ∷ [];
    }
    else s

-- `log_fix`, for a fix whose time has been made a `struct tm`.
unfoldable pub log_fix : World → Fix → State → State
unfolding time_text mode_text
log_fix w f s =
    let t = print_row w (row w f) s in record t { injected = t.injected ++ row w f ∷ [] }

-- `(int_time != old_int_time) && gpsfix->mode >= MODE_2D`
abbrev pub is_new : World → ℤ → Fix → Bool
is_new w old f = not (same_integer (w.floor f.time) old) && leb w.mode_2d f.mode

unfoldable pub conditionally_log_fix : World → Fix → State → State
unfolding log_fix
conditionally_log_fix w f s =
    if is_new w s.old_int_time f
    then log_fix w f (record s { old_int_time = w.floor f.time })
    else s

-- `gpsdata->dev.path[0] && source.device != NULL && strcmp(...) != 0`
unfoldable pub is_filtered : Option Bytes → Bytes → Bool
unfolding same_text
is_filtered none path = false
is_filtered (some device) [] = false
is_filtered (some device) (c ∷ cs) = not (same_text device (c ∷ cs))

unfoldable pub process : World → Bytes → Fix → State → State
unfolding conditionally_log_fix is_filtered
process w path f s = if is_filtered s.device path then s else conditionally_log_fix w f s

-- One round of `socket_mainloop`: a signal has come, or what `select` and gpsd say.
pub data Round : Type 0 where
  stopped select_failed timed_out : Round
  received : Bytes → Fix → Round

-- `socket_mainloop`, on the rounds that are to come, from its test of `stop_loop` on.
unfoldable pub socket_mainloop : World → List Round → State → State
unfolding process
socket_mainloop w [] s = s
socket_mainloop w (stopped ∷ rs) s = s
socket_mainloop w (select_failed ∷ rs) s = s
socket_mainloop w (timed_out ∷ rs) s = socket_mainloop w rs s
socket_mainloop w (received path f ∷ rs) s = socket_mainloop w rs (process w path f s)

-- The static variables at the start. `source` is never set.
abbrev pub start : State
start = record {
  old_int_time = pos 0;
  verbose = false;
  device = none;
  header_printed = false;
  printed = [];
  injected = [];
}

-- What `getopt` returns.
pub data Flag : Type 0 where
  verbose_flag other_flag : Flag

-- The loop over the options: `verbose`, or the exit after the usage.
unfoldable pub read_flags : Bool → List Flag → Option Bool
read_flags is_verbose [] = some is_verbose
read_flags is_verbose (verbose_flag ∷ flags) = read_flags true flags
read_flags is_verbose (other_flag ∷ flags) = none

-- What follows the options: whether `gps_open` succeeds, and the loop, which ends in `exit(0)`.
unfoldable pub log_all : World → Bool → List Round → Option Bool → ℕ × State
unfolding socket_mainloop
log_all w opened rounds none = (1, start)
log_all w true rounds (some is_verbose) =
    (0, socket_mainloop w rounds (record start { verbose = is_verbose }))
log_all w false rounds (some is_verbose) = (1, record start { verbose = is_verbose })

-- `main`: the exit status, and the state at the end.
unfoldable pub main : World → Bool → List Flag → Bool → List Round → ℕ × State
unfolding read_flags log_all
main w initialised flags opened rounds =
    if initialised then log_all w opened rounds (read_flags false flags) else (1, start)
