-- ===== src/Wattsup/Main.antt =====
-- `parse_args` and `main` of wattsup/wattsup.c. What `getopt_long` returns is a list of events and
-- the operands that it leaves; what OML and the kernel answer is given too.
pub mod Missing
pub mod Verbosity
use soml_apps.Common.{ℕ, Bool, true, Option, List, [], ◌∷◌, if◌then◌else◌, not}
use soml_apps.Common.Int.{ℤ, pos, negsuc}
use soml_apps.Clib.Run.{ok, Status, success, failed, einval, is_failed}
use soml_apps.Clib.Text.{Bytes}
use soml_apps.Wattsup.State.{Given, Field, Prog, closed, ◌>>=◌, ◌>>◌, pure, get, act, when}
use soml_apps.Wattsup.Fields.{enable_fields, enable_all_fields}
use soml_apps.Wattsup.Open.{Kernel, open_device, setup_serial_device}
use soml_apps.Wattsup.Device.{wu_clear, wu_start_log}
use soml_apps.Wattsup.ReadData.{wu_read_data, wu_stop_log}
use soml_apps.Wattsup.Options.{
  Opt, help, version, debug, verbose, quiet, count, final, delim, newline, localtime, gmtime, label,
  suppress, cal, header, interval, mode, user, info_all, no_data, set_only, wu_options,
  enable_long_option, enable_short_option,
}
use soml_apps.Wattsup.Show.{wu_show, wu_check_show}
use soml_apps.Wattsup.Store.{wu_check_store}

-- One return of `getopt_long` before -1, with `optarg`.
pub data Getopt : Type 0 where
  long : ℕ → Option Bytes → Getopt
  short : ℕ → Option Bytes → Getopt
  unknown : Getopt

-- `parse_args` returns, or ends the program with 0.
pub data Parsed : Type 0 where
  exited : Parsed
  returned : Status → Parsed

unfoldable set_options : List Given → Prog (Unit {0})
set_options gs s = ok (tt, record s { options = gs })

set_fields : Bytes → List Field → Prog (Unit {0})
set_fields device fs s = ok (tt, record s { device = device; fields = fs })

-- The loop over `getopt_long`.
unfoldable pub read_options : List Getopt → Prog Status
unfolding set_options enable_long_option enable_short_option
read_options [] = pure success
read_options (unknown ∷ es) = pure (failed einval)
read_options (long i arg ∷ es) = do
  s ← get
  set_options (enable_long_option i arg s.options)
  read_options es
read_options (short c arg ∷ es) = do
  s ← get
  set_options (enable_short_option wu_options c arg s.options)
  read_options es

-- The device and the fields to print.
unfoldable pub read_operands : List Bytes → Prog Status
unfolding set_fields enable_fields enable_all_fields wu_show
read_operands [] = do dropped ← wu_show help; pure (failed einval)
read_operands (device ∷ []) = do
  s ← get
  set_fields device (enable_all_fields s.fields)
  pure success
read_operands (device ∷ name ∷ names) = do
  s ← get
  set_fields device (enable_fields (name ∷ names) s.fields)
  pure success

unfoldable pub parse_args : List Getopt → List Bytes → Prog Parsed
unfolding read_options read_operands wu_check_show
parse_args events operands = do
  status ← read_options events
  let rest = (do
    helped ← wu_check_show help
    let versioned = (do
      v ← wu_check_show version
      let last = (do st ← read_operands operands; pure (returned st))
      if v then pure exited else last)
    if helped then pure exited else versioned)
  if is_failed status then pure (returned status) else rest

-- `if ((ret = wu_check_store(option, fd))) goto Close;`, option by option.
unfoldable pub store_all : List Opt → Prog Status
unfolding wu_check_store
store_all [] = pure success
store_all (o ∷ os) = do
  status ← wu_check_store o
  let rest = store_all os
  if is_failed status then pure status else rest

show_all : List Opt → Prog (Unit {0})
unfolding wu_show
show_all [] = pure tt
show_all (o ∷ os) = do dropped ← wu_show o; show_all os

check_show_all : List Opt → Prog (Unit {0})
unfolding wu_check_show
check_show_all [] = pure tt
check_show_all (o ∷ os) = do dropped ← wu_check_show o; check_show_all os

-- The options that print what the device says.
unfoldable pub show_device : Prog (Unit {0})
unfolding show_all check_show_all
show_device = do
  s ← get
  if s.settings.info_all then show_all (cal ∷ header ∷ interval ∷ mode ∷ user ∷ []) else (do
    check_show_all (cal ∷ header ∷ [])
    when (not s.settings.set_only) (check_show_all (interval ∷ mode ∷ user ∷ [])))

-- The measurements themselves.
unfoldable pub log_data : ℕ → Prog Status
unfolding store_all wu_start_log wu_read_data wu_stop_log
log_data fuel = do
  status ← store_all (count ∷ final ∷ [])
  let start = (do
    started ← wu_start_log
    let read = (do end ← wu_read_data fuel; last ← wu_stop_log; pure success)
    if is_failed started then pure started else read)
  if is_failed status then pure status else start

set_verbose : ℤ → Prog (Unit {0})
set_verbose v s = ok (tt, record s { settings = record s.settings { verbose = v } })

-- `if (verbose < 0) verbose = oml_enabled ? 0 : 1;`
default_verbose : ℤ → Bool → Prog (Unit {0})
unfolding set_verbose
default_verbose (pos n) oml = pure tt
default_verbose (negsuc n) oml = set_verbose (if oml then pos 0 else pos 1)

-- What stands between the two options that `main` reads first and `Close`.
unfoldable pub with_device : ℕ → Prog Status
unfolding store_all show_device log_data wu_clear
with_device fuel = do
  cleared ← wu_clear
  status ← store_all (
      delim ∷ label ∷ newline ∷ suppress ∷ localtime ∷ gmtime ∷ set_only ∷ no_data ∷ info_all
      ∷ interval ∷ mode ∷ user ∷ [])
  let go_on = (do
    show_device
    s ← get
    let read = log_data fuel
    if s.settings.no_data then pure success else read)
  if is_failed status then pure status else go_on

-- `Close`
close : Status → Prog Status
close status = do act closed; pure status

-- What `main` is given: the answers of OML, of `getopt_long`, of the kernel and of the terminal.
pub record Call : Type 0 where
  pub oml_started : Bool
  pub events : List Getopt
  pub operands : List Bytes
  pub kernel : Kernel
  pub terminal_got : Bool
  pub terminal_set : Bool

set_oml : Bool → Prog (Unit {0})
set_oml b s = ok (tt, record s { settings = record s.settings { oml_enabled = b } })

unfoldable pub run_device : ℕ → Call → Prog Status
unfolding close with_device open_device setup_serial_device
run_device fuel call =
    let opened = (open_device call.kernel 0).status in
    let terminal = setup_serial_device call.terminal_got call.terminal_set in
    let run = (do status ← with_device fuel; close status) in
    if is_failed opened then pure opened else if is_failed terminal then close terminal else run

-- The early options, the default of `verbose`, and the device.
run_options : ℕ → Call → Prog Status
unfolding store_all default_verbose run_device close
run_options fuel call = do
  status ← store_all (debug ∷ quiet ∷ verbose ∷ [])
  let go_on = (do
    s ← get
    default_verbose s.settings.verbose s.settings.oml_enabled
    run_device fuel call)
  if is_failed status then close status else go_on

-- The status that `main` returns; `fuel` bounds the rounds of the loop over the records.
unfoldable pub main : ℕ → Call → Prog Status
unfolding set_oml parse_args run_options
main fuel call = do
  when call.oml_started (set_oml true)
  parsed ← parse_args call.events call.operands
  let go_on = run_options fuel call
  elim parsed [
    | exited ↦ pure success
    | returned (failed e) ↦ pure success
    | returned success ↦ go_on
  ]
