-- ===== src/Wattsup/Main/Verbosity.antt =====
-- How the options of wattsup/wattsup.c choose what is printed.
use soml_apps.Common.{
  ℕ, ◌≡◌, refl, ap, ◌∙◌, Bool, true, false, ◌||◌, List, [], ◌∷◌, if◌then◌else◌, Bool-cases, inl,
  inr,
}
use soml_apps.Common.Int.{ℤ, pos, negsuc}
use soml_apps.Clib.Run.{ok, success}
use soml_apps.Wattsup.State.{State, Settings}
use soml_apps.Wattsup.Options.{Opt, debug, quiet, verbose, index, wu_check_option}
use soml_apps.Wattsup.Store.{wu_check_store, wu_store}
use soml_apps.Wattsup.Main.{
  Call, store_all, returned, parse_args, set_oml, default_verbose, run_options, run_device, main,
}

-- The settings after the options that `main` stores first.
abbrev pub early_settings : State → Settings
early_settings s = record s.settings {
  debug = wu_check_option s (index debug) || s.settings.debug;
  verbose =
      (if wu_check_option s (index verbose)
        then pos 1
        else if wu_check_option s (index quiet)
        then pos 0
        else s.settings.verbose);
}

-- A check that succeeds, with the settings that it leaves.
store_first :
    (o : Opt) (s : State) (t : Settings)
    → wu_check_store o s ≡ ok (success, record s { settings = t })
    → (os : List Opt) → store_all (o ∷ os) s ≡ store_all os (record s { settings = t })
unfolding store_all
store_first o s t e os = rw e refl

check_debug :
    (s : State)
    → wu_check_store debug s
      ≡ ok (
        success,
        record s {
          settings = record s.settings {
            debug = wu_check_option s (index debug) || s.settings.debug;
          };
        },
      )
unfolding wu_check_store wu_store
check_debug s = elim (Bool-cases (wu_check_option s (index debug))) [
  | inl on ↦ rw on refl
  | inr off ↦ rw off refl
]

check_quiet :
    (s : State)
    → wu_check_store quiet s
      ≡ ok (
        success,
        record s {
          settings = record s.settings {
            verbose = if wu_check_option s (index quiet) then pos 0 else s.settings.verbose;
          };
        },
      )
unfolding wu_check_store wu_store
check_quiet s = elim (Bool-cases (wu_check_option s (index quiet))) [
  | inl on ↦ rw on refl
  | inr off ↦ rw off refl
]

check_verbose :
    (s : State)
    → wu_check_store verbose s
      ≡ ok (
        success,
        record s {
          settings = record s.settings {
            verbose = if wu_check_option s (index verbose) then pos 1 else s.settings.verbose;
          };
        },
      )
unfolding wu_check_store wu_store
check_verbose s = elim (Bool-cases (wu_check_option s (index verbose))) [
  | inl on ↦ rw on refl
  | inr off ↦ rw off refl
]

early_lem :
    (s : State)
    → store_all (debug ∷ quiet ∷ verbose ∷ []) s
      ≡ ok (success, record s { settings = early_settings s })
unfolding store_all wu_check_option
early_lem s =
    let t = record s {
      settings = record s.settings { debug = wu_check_option s (index debug) || s.settings.debug };
    } in
    let u = record t {
      settings = record t.settings {
        verbose = if wu_check_option t (index quiet) then pos 0 else t.settings.verbose;
      };
    } in
    store_first debug s t.settings (check_debug s) (quiet ∷ verbose ∷ [])
    ∙ store_first quiet t u.settings (check_quiet t) (verbose ∷ [])
    ∙ store_first verbose u _ (check_verbose u) []

-- The verbosity of a program that has none: 0 if it reports to OML, and 1 otherwise.
abbrev pub decided : Bool → ℤ → ℤ
decided oml (pos n) = pos n
decided oml (negsuc n) = if oml then pos 0 else pos 1

abbrev pub decided_settings : State → Settings
decided_settings s = record (early_settings s) {
  verbose = decided ((early_settings s).oml_enabled) ((early_settings s).verbose);
}

-- The state once OML has answered.
abbrev pub with_oml : Bool → State → State
with_oml true s = record s { settings = record s.settings { oml_enabled = true } }
with_oml false s = s

default_lem :
    (v : ℤ) (s : State)
    → s.settings.verbose ≡ v
    → default_verbose v s.settings.oml_enabled s
      ≡ ok (
        tt,
        record s { settings = record s.settings { verbose = decided s.settings.oml_enabled v } },
      )
unfolding default_verbose
default_lem (pos n) s e =
    ap (λ v. ok (tt, record s { settings = record s.settings { verbose = v } })) e
default_lem (negsuc n) s e = elim (Bool-cases s.settings.oml_enabled) [
  | inl on ↦ rw on refl
  | inr off ↦ rw off refl
]

run_options_lem :
    (fuel : ℕ) (call : Call) (t : State)
    → run_options fuel call t ≡ run_device fuel call (record t { settings = decided_settings t })
unfolding run_options
run_options_lem fuel call t =
    let u = record t { settings = early_settings t } in
    rw (early_lem t, default_lem (u.settings.verbose) u refl) refl

-- Once `parse_args` has succeeded, `main` goes on to the device, with debugging on if `debug` was
-- given, and with the verbosity 1 for `verbose`, else 0 for `quiet`, else the one it had, or, if
-- that is negative, 0 with OML and 1 without.
pub main-decided_settings :
    (fuel : ℕ) (call : Call) (s t : State)
    → parse_args call.events call.operands (with_oml call.oml_started s) ≡ ok (returned success, t)
    → main fuel call s ≡ run_device fuel call (record t { settings = decided_settings t })
unfolding main set_oml
main-decided_settings fuel call s t parsed = elim (Bool-cases call.oml_started) [
  | inl on ↦ rw (on, rw on at parsed) (run_options_lem fuel call t)
  | inr off ↦ rw (off, rw off at parsed) (run_options_lem fuel call t)
]
