-- ===== src/Ripwavemon.antt =====
-- The monitor of Navini Ripwave modems: ripwavemon/ripwavemon.c. What `recv` hands over until a
-- signal stops the loop is an argument, and so is what the calls of the system and of OML return.
pub mod Layout
use soml_apps.Common.{
  ℕ, ◌+◌, ◌-◌, ◌*◌, ◌/◌, ◌%◌, Bool, true, false, Option, none, some, List, [], ◌∷◌, ◌++◌, ltb, ◌==◌,
  if◌then◌else◌, length, take, drop,
}
use soml_apps.Common.Int.{ℤ, sub_ℕ}
use soml_apps.Clib.Run.{Run, ok, fault, ◌>>=◌}
use soml_apps.Clib.Text.{Bytes}
use soml_apps.Clib.Words.{Host, little, big, htons, htonl}

-- What `oml_inject_ripwave_stats` is given.
pub record Report : Type 0 where
  pub modemid : ℕ
  pub month : ℕ
  pub day : ℕ
  pub year : ℕ
  pub hour : ℕ
  pub minute : ℕ
  pub second : ℕ
  pub syncstrength1 : ℤ
  pub btsid : ℕ
  pub networkid : ℕ
  pub antenna : ℕ
  pub syncstrength2 : ℤ
  pub snr : ℕ
  pub temperature : ℕ

-- The word that a host loads from its bytes.
abbrev pub load16 : Host → ℕ → ℕ → ℕ
load16 little a b = b * 256 + a
load16 big a b = a * 256 + b

abbrev pub load32 : Host → ℕ → ℕ → ℕ → ℕ → ℕ
load32 little a b c d = d * 16777216 + c * 65536 + b * 256 + a
load32 big a b c d = a * 16777216 + b * 65536 + c * 256 + d

-- The identifier and the time of the report.
pub record Stamp : Type 0 where
  pub modemid : ℕ
  pub month : ℕ
  pub day : ℕ
  pub year : ℕ
  pub hour : ℕ
  pub minute : ℕ
  pub second : ℕ

next_stamp : Host → Bytes → Run (Stamp × Bytes)
next_stamp h (a ∷ b ∷ c ∷ d ∷ month ∷ day ∷ year ∷ hour ∷ minute ∷ second ∷ rest) = ok (
  record {
    modemid = htonl h (load32 h a b c d);
    month = month;
    day = day;
    year = year;
    hour = hour;
    minute = minute;
    second = second;
  },
  rest,
)
next_stamp h _ = fault

next8 : Bytes → Run (ℕ × Bytes)
next8 [] = fault
next8 (c ∷ rest) = ok (c, rest)

next16 : Host → Bytes → Run (ℕ × Bytes)
next16 h (a ∷ b ∷ rest) = ok (htons h (load16 h a b), rest)
next16 h _ = fault

-- The bit-fields `antpad:4, antenna:4`: the first lies in the lower bits of its byte on little-endian
-- hosts, and in the upper bits on big-endian ones.
abbrev pub antenna_of : Host → ℕ → ℕ
antenna_of little c = c / 16
antenna_of big c = c % 16

-- The fields of a `navini_report_t`, each behind its padding.
unfoldable pub fields : Host → Bytes → Run Report
unfolding next_stamp next8 next16
fields h report = do
  stamp ← next_stamp h (drop 18 report)
  sync1 ← next8 (drop 17 stamp.1)
  bts ← next8 (drop 15 sync1.1)
  network ← next16 h (drop 4 bts.1)
  antenna ← next8 (drop 26 network.1)
  sync2 ← next8 (drop 6 antenna.1)
  snr ← next8 (drop 12 sync2.1)
  temperature ← next8 (drop 26 snr.1)
  ok (record {
    modemid = stamp.0.modemid;
    month = stamp.0.month;
    day = stamp.0.day;
    year = stamp.0.year;
    hour = stamp.0.hour;
    minute = stamp.0.minute;
    second = stamp.0.second;
    syncstrength1 = sub_ℕ 0 sync1.0;
    btsid = bts.0;
    networkid = network.0;
    antenna = antenna_of h antenna.0;
    syncstrength2 = sub_ℕ 0 sync2.0;
    snr = snr.0;
    temperature = temperature.0;
  })

-- `sizeof(navini_report_t)`
abbrev pub report_size : ℕ
report_size = 309

-- What a round of `receive_reports` gives: a row, or a warning with the length received.
pub data Output : Type 0 where
  row : Report → Output
  unexpected_size : Option ℕ → Output

-- A round: `none` is -1, and a longer datagram is cut.
unfoldable pub receive : Host → Option Bytes → Run Output
receive h none = ok (unexpected_size none)
receive h (some datagram) =
    let report = take report_size datagram in
    let read = (do r ← fields h report; ok (row r)) in
    if length report == report_size then read else ok (unexpected_size (some (length report)))

-- `receive_reports`
unfoldable pub receive_reports : Host → List (Option Bytes) → Run (List Output)
unfolding receive
receive_reports h [] = ok []
receive_reports h (input ∷ inputs) = do
  out ← receive h input
  outs ← receive_reports h inputs
  ok (out ∷ outs)

-- Which calls succeed: `socket`, `bind`, `omlc_init` and `omlc_start`.
pub record System : Type 0 where
  pub socket : Bool
  pub bind : Bool
  pub omlc_init : Bool
  pub omlc_start : Bool

abbrev prepare_socket : System → Bool
prepare_socket sys = if sys.socket then sys.bind else false

abbrev prepare_oml : System → Bool
prepare_oml sys = if sys.omlc_init then sys.omlc_start else false

-- `main`: the outputs and the exit status.
unfoldable pub main : Host → System → List (Option Bytes) → Run (List Output × ℕ)
unfolding receive_reports
main h sys inputs =
    let reports = (do outs ← receive_reports h inputs; ok (outs, 0)) in
    if prepare_socket sys then (if prepare_oml sys then reports else ok ([], 2)) else ok ([], 1)
