-- ===== src/Trace/Main.antt =====
-- `run` and `main` of trace/trace.c. Which calls fail, and the packets that `trace_read_packet`
-- finds, are arguments.
pub mod Names
use soml_apps.Common.{
  ℕ, suc, ◌+◌, Bool, true, false, ◌&&◌, not, Option, none, some, List, [], ◌∷◌, ◌++◌, leb, ◌==◌,
  if◌then◌else◌, length,
}
use soml_apps.Clib.Run.{Run, ok, fault, ◌>>=◌}
use soml_apps.Clib.Text.{Bytes, codes}
use soml_apps.Clib.Words.{Host}
use soml_apps.Trace.Headers as H
use soml_apps.Trace.Packet.{View, Traced, andthen, per_packet}
use soml_apps.Trace.Rows.{Row, Ntop}

-- What libtrace says of the interface; the number is that of `trace_get_err`.
pub record Setup : Type 0 where
  pub is_err : Bool
  pub filter_err : ℕ
  pub start_fails : Bool
  pub start_err : ℕ

-- How `run` ends: with a value, or in `iferr`.
pub data Ended : Type 0 where
  returns : ℕ → Traced → Ended
  exits : ℕ → Ended

module _ (host : Host) (ntop : Ntop) (guid : ℕ → ℕ) (fuel : ℕ) (radiotap : Bool) where
  -- The loop, on the packets that are read; with each comes whether `stop_loop` is set by then.
  unfoldable pub read_loop : ℕ → List (View × Bool) → Traced
  unfolding per_packet andthen
  read_loop n [] = ([], H.returned)
  read_loop n ((v, stop) ∷ packets) =
      let rest = read_loop (suc n) packets in
      if stop
      then ([], H.returned)
      else andthen (per_packet host ntop fuel radiotap v (guid n)) rest

  unfoldable pub run : Setup → Bool → List (View × Bool) → Ended
  unfolding read_loop
  run setup filter packets =
      if setup.is_err
      then returns 1 ([], H.returned)
      else if filter && not (setup.filter_err == 0)
      then exits 1
      else if setup.start_fails && not (setup.start_err == 0)
      then exits 1
      else returns 0 (read_loop 0 packets)

pub record Options : Type 0 where
  pub interface : Option Bytes
  pub radiotap : Bool
  pub filter : Bool

-- `strcat` of a text to one in an array of some bytes.
unfoldable pub append_in : ℕ → Bytes → Bytes → Run Bytes
append_in size front text =
    if leb (length front + length text + 1) size then ok (front ++ text) else fault

-- The file that tells whether an interface gives radiotap headers.
radiotap_path : Bytes → Run Bytes
unfolding append_in
radiotap_path interface = do
  path ← append_in 68 (codes "/proc/sys/net/") interface
  append_in 68 path (codes "/dev_type")

-- Whether radiotap headers are reported: the file has to be there.
unfoldable pub radiotap_on : (Bytes → Bool) → Bool → Bytes → Run Bool
unfolding radiotap_path
radiotap_on exists false interface = ok false
radiotap_on exists true interface = do path ← radiotap_path interface; ok (exists path)

-- The value of `main`, and what was traced; what `run` returns is not looked at.
status_of : Ended → ℕ × Traced
status_of (returns n traced) = (0, traced)
status_of (exits n) = (n, ([], H.returned))

module _ (host : Host) (ntop : Ntop) (guid : ℕ → ℕ) (fuel : ℕ) where
  start : (Bytes → Bool) → Options → Setup → List (View × Bool) → Option Bytes → Run (ℕ × Traced)
  unfolding radiotap_on status_of run append_in
  start exists opts setup packets none = ok (1, ([], H.returned))
  start exists opts setup packets (some interface) = do
    radiotap ← radiotap_on exists opts.radiotap interface
    uri ← append_in 50 (codes "int:") interface
    ok (status_of (run host ntop guid fuel radiotap setup opts.filter packets))

  -- `main`, with whether `omlc_init` succeeds
  unfoldable pub main :
      Bool → (Bytes → Bool) → Options → Setup → List (View × Bool) → Run (ℕ × Traced)
  unfolding start
  main initialised exists opts setup packets =
      if initialised
      then start exists opts setup packets opts.interface
      else ok (1, ([], H.returned))
