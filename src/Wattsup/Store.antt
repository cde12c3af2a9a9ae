-- ===== src/Wattsup/Store.antt =====
-- The `store` methods of wattsup/wattsup.c.
pub mod Commands
pub mod User
use soml_apps.Common.{
  ℕ, Bool, true, false, Option, none, some, [], ◌∷◌, ◌++◌, if◌then◌else◌, not, take,
}
use soml_apps.Common.Int.{pos}
use soml_apps.Clib.Run.{Run, ok, fault, demand, Status, success, failed, einval, is_failed}
use soml_apps.Clib.Run as R
use soml_apps.Clib.Text.{Bytes, codes, is_digit}
use soml_apps.Clib.Number.{decimal, scan, long_word, ulong_word, int_of}
use soml_apps.Wattsup.Packet.{Packet, packet, literal}
use soml_apps.Wattsup.State.{Settings, Prog, slept, ◌>>=◌, ◌>>◌, pure, lift, get, act, when}
use soml_apps.Wattsup.Device.{wu_write, labels}
use soml_apps.Wattsup.Options.{
  Opt, debug, verbose, quiet, count, final, delim, newline, localtime, gmtime, label, suppress,
  interval, mode, user, info_all, no_data, set_only, index, wu_check_option, wu_option_value,
}

abbrev modify : (Settings → Settings) → Prog (Unit {0})
modify f s = ok (tt, record s { settings = f s.settings })

-- `*end != '\0'`
abbrev is_left : Bytes → Bool
is_left [] = false
is_left (c ∷ cs) = true

-- `snprintf(str, wu_param_len, "%ud", n)`: the number, and the letter d.
abbrev pub param_text : ℕ → Bytes
param_text n = take 15 (decimal n ++ codes "d")

unfoldable pub interval_command : ℕ → ℕ → Packet
unfolding decimal
interval_command seconds spacing =
    packet b'S' b'W' 2 (literal (param_text seconds) ∷ literal (param_text spacing) ∷ []) []

unfoldable pub wu_write_interval : ℕ → ℕ → Prog Status
unfolding wu_write interval_command
wu_write_interval seconds spacing = do
  (q, status) ← wu_write (interval_command seconds spacing)
  when (not (is_failed status)) (act (slept (pos 1)))
  pure status

-- The value is read with no test for a missing one.
unfoldable pub wu_store_interval : Prog Status
unfolding wu_write_interval wu_option_value scan
wu_store_interval = do
  s ← get
  text ← lift (demand (wu_option_value s (index interval)))
  let r = scan text
  modify (λ t. record t { interval = int_of (long_word r) })
  if is_left r.rest then pure (failed einval) else wu_write_interval 1 (long_word r)

unfoldable pub mode_command : ℕ → Packet
unfolding decimal
mode_command display = packet b'M' b'W' 1 (literal (param_text display) ∷ []) []

unfoldable pub wu_write_mode : ℕ → Prog Status
unfolding wu_write mode_command
wu_write_mode display = do
  (q, status) ← wu_write (mode_command display)
  when (not (is_failed status)) (act (slept (pos 1)))
  pure status

unfoldable pub wu_store_mode : Prog Status
unfolding wu_write_mode wu_option_value scan
wu_store_mode = do
  s ← get
  text ← lift (demand (wu_option_value s (index mode)))
  let r = scan text
  if is_left r.rest then pure (failed einval) else wu_write_mode (long_word r)

-- As in the source, a request to read, with the parameters for labels.
unfoldable pub user_command : ℕ → ℕ → ℕ → ℕ → Packet
unfolding decimal
user_command kwh_cost second_tier_cost second_tier_threshold duty_cycle_threshold =
    packet b'U' b'R' 0 [] (
      labels (
        param_text kwh_cost
        ∷ param_text second_tier_cost
        ∷ param_text second_tier_threshold
        ∷ param_text duty_cycle_threshold
        ∷ []))

unfoldable pub wu_write_user : ℕ → ℕ → ℕ → ℕ → Prog Status
unfolding wu_write user_command
wu_write_user kwh_cost second_tier_cost second_tier_threshold duty_cycle_threshold = do
  (q, status) ←
      wu_write (user_command kwh_cost second_tier_cost second_tier_threshold duty_cycle_threshold)
  when (not (is_failed status)) (act (slept (pos 1)))
  pure status

-- `while (s && !isdigit(*s)) s++`: with no digit left it runs past the end of the text.
unfoldable pub skip_to_digit : Bytes → Run Bytes
skip_to_digit [] = fault
skip_to_digit (c ∷ cs) = let rest = skip_to_digit cs in if is_digit c then ok (c ∷ cs) else rest

-- One parameter: its value, and the text from the next digit on; nothing if no number is there.
unfoldable pub user_parameter : Bytes → Run (Option (ℕ × Bytes))
unfolding scan skip_to_digit
user_parameter text =
    let r = scan text in
    if r.found
    then R.◌>>=◌ (skip_to_digit r.rest) (λ rest. ok (some (ulong_word r, rest)))
    else ok none

-- A parameter that is missing ends `wu_store_user` with EINVAL.
abbrev pub or_incomplete : Option (ℕ × Bytes) → (ℕ → Bytes → Prog Status) → Prog Status
or_incomplete none next = pure (failed einval)
or_incomplete (some (n, rest)) next = next n rest

unfoldable user_parameters : Bytes → Prog Status
unfolding user_parameter wu_write_user
user_parameters text = do
  first ← lift (user_parameter text)
  or_incomplete first (λ kwh_cost rest. do
    second ← lift (user_parameter rest)
    or_incomplete second (λ second_tier_cost rest. do
      third ← lift (user_parameter rest)
      or_incomplete third (λ second_tier_threshold rest. do
        fourth ← lift (user_parameter rest)
        or_incomplete fourth (λ duty_cycle_threshold rest.
            wu_write_user kwh_cost second_tier_cost second_tier_threshold duty_cycle_threshold))))

-- `if (!s) return ret_err(EINVAL)` in front of the parameters.
unfoldable parameters_of : Option Bytes → Prog Status
unfolding user_parameters
parameters_of none = pure (failed einval)
parameters_of (some text) = user_parameters text

unfoldable pub wu_store_user : Prog Status
unfolding parameters_of wu_option_value
wu_store_user = do s ← get; parameters_of (wu_option_value s (index user))

unfoldable pub wu_store_count : Prog Status
unfolding wu_option_value scan
wu_store_count = do
  s ← get
  elim (wu_option_value s (index count)) [
    | none ↦ pure success
    | some text ↦ do
      let r = scan text
      modify (λ t. record t { count = int_of (long_word r) })
      if is_left r.rest then pure (failed einval) else pure success
  ]

unfoldable pub wu_store_delim : Prog Status
unfolding wu_option_value
wu_store_delim = do
  s ← get
  elim (wu_option_value s (index delim)) [
    | none ↦ pure success
    | some text ↦ do modify (λ t. record t { delim = text }); pure success
  ]

-- The `store` method of an option; 0 where it has none.
unfoldable pub wu_store : Opt → Prog Status
unfolding wu_store_interval wu_store_mode wu_store_user wu_store_count wu_store_delim
wu_store debug = do modify (λ t. record t { debug = true }); pure success
wu_store verbose = do modify (λ t. record t { verbose = pos 1 }); pure success
wu_store quiet = do modify (λ t. record t { verbose = pos 0 }); pure success
wu_store count = wu_store_count
wu_store final = do modify (λ t. record t { final = true }); pure success
wu_store delim = wu_store_delim
wu_store newline = do modify (λ t. record t { newline = true }); pure success
wu_store localtime = do modify (λ t. record t { localtime = true }); pure success
wu_store gmtime = do modify (λ t. record t { gmtime = true }); pure success
wu_store label = do modify (λ t. record t { label = true }); pure success
wu_store suppress = do modify (λ t. record t { suppress = true }); pure success
wu_store interval = wu_store_interval
wu_store mode = wu_store_mode
wu_store user = wu_store_user
wu_store info_all = do modify (λ t. record t { info_all = true }); pure success
wu_store no_data = do modify (λ t. record t { no_data = true }); pure success
wu_store set_only = do modify (λ t. record t { set_only = true }); pure success
wu_store _ = pure success

-- `wu_check_store`: the method is called if the option is set.
unfoldable pub wu_check_store : Opt → Prog Status
unfolding wu_store wu_check_option
wu_check_store o = do s ← get; if wu_check_option s (index o) then wu_store o else pure success
