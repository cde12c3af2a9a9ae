-- ===== src/Wattsup/Options.antt =====
-- The table `wu_options` of wattsup/wattsup.c: its constant part, and the flags and values that the
-- command line sets.
pub mod Letters
use Prim.Native.String.{String}
use soml_apps.Common.{
  ℕ, zero, suc, Bool, true, false, Option, none, some, List, [], ◌∷◌, ◌==◌, if◌then◌else◌,
  get_elem?,
}
use soml_apps.Clib.Text.{Bytes, codes}
use soml_apps.Wattsup.State.{State, Given}

pub data Opt : Type 0 where
  help version debug verbose quiet count final delim newline localtime gmtime label : Opt
  suppress cal header interval mode user info_all no_data set_only : Opt

abbrev pub index : Opt → ℕ
index help = 0
index version = 1
index debug = 2
index verbose = 3
index quiet = 4
index count = 5
index final = 6
index delim = 7
index newline = 8
index localtime = 9
index gmtime = 10
index label = 11
index suppress = 12
index cal = 13
index header = 14
index interval = 15
index mode = 16
index user = 17
index info_all = 18
index no_data = 19
index set_only = 20

-- The constant part of a `struct wu_options` that the parser of the command line reads; `param` is
-- 0 for no parameter, 1 for a required one and 2 for an optional one.
pub record Spelling : Type 0 where
  pub longopt : Bytes
  pub shortopt : ℕ
  pub param : ℕ

abbrev spelled : String → ℕ → ℕ → Spelling
spelled longopt shortopt param = record {
  longopt = codes longopt;
  shortopt = shortopt;
  param = param;
}

abbrev pub wu_options : List Spelling
wu_options =
    spelled "help" b'h' 0
    ∷ spelled "version" b'V' 0
    ∷ spelled "debug" b'd' 0
    ∷ spelled "verbose" b'v' 0
    ∷ spelled "quiet" b'q' 0
    ∷ spelled "count" b'c' 1
    ∷ spelled "final" b'z' 0
    ∷ spelled "delim" b'f' 1
    ∷ spelled "newline" b'n' 0
    ∷ spelled "localtime" b't' 0
    ∷ spelled "gmtime" b'g' 0
    ∷ spelled "label" b'l' 0
    ∷ spelled "suppress" b's' 0
    ∷ spelled "calibrate" b'b' 0
    ∷ spelled "header" b'r' 0
    ∷ spelled "interval" b'i' 2
    ∷ spelled "mode" b'm' 2
    ∷ spelled "user" b'u' 2
    ∷ spelled "show-all" b'a' 0
    ∷ spelled "no-data" b'N' 0
    ∷ spelled "set-only" b'S' 0
    ∷ []

-- The options before the command line is read.
abbrev pub none_given : List Given
none_given = all wu_options
  where
    all : List Spelling → List Given
    all [] = []
    all (o ∷ os) = record { flag = false; value = none } ∷ all os

-- `wu_option_value(index)`
unfoldable pub wu_option_value : State → ℕ → Option Bytes
wu_option_value s i = elim (get_elem? s.options i) [ none ↦ none | some g ↦ g.value ]

-- `wu_check_option_show` and `wu_check_option_store`: whether the option is set.
unfoldable pub wu_check_option : State → ℕ → Bool
wu_check_option s i = elim (get_elem? s.options i) [ none ↦ false | some g ↦ g.flag ]

-- `if (arg) ... = strdup(arg)`
abbrev pub given : Option Bytes → Given → Given
given none g = record g { flag = true }
given (some arg) g = record { flag = true; value = some arg }

-- `case 0` of `parse_args`: the long option with this index.
unfoldable pub enable_long_option : ℕ → Option Bytes → List Given → List Given
enable_long_option i arg [] = []
enable_long_option zero arg (g ∷ gs) = given arg g ∷ gs
enable_long_option (suc i) arg (g ∷ gs) = g ∷ enable_long_option i arg gs

-- `enable_short_option`: the first option with this letter.
unfoldable pub enable_short_option : List Spelling → ℕ → Option Bytes → List Given → List Given
enable_short_option [] c arg gs = gs
enable_short_option (o ∷ os) c arg [] = []
enable_short_option (o ∷ os) c arg (g ∷ gs) =
    if o.shortopt == c then given arg g ∷ gs else g ∷ enable_short_option os c arg gs

-- `make_shortopt`: the letters, with a mark behind those that take a parameter.
unfoldable pub make_shortopt : List Spelling → Bytes
make_shortopt [] = []
make_shortopt (o ∷ os) =
    let rest = make_shortopt os in
    if o.param == 0
    then o.shortopt ∷ rest
    else o.shortopt ∷ (if o.param == 1 then b':' else b';') ∷ rest

-- `struct option` of getopt.h; its `flag` points to the option's own flag, and `val` is 0.
pub record LongOption : Type 0 where
  pub name : Bytes
  pub has_arg : ℕ

unfoldable pub make_longopt : List Spelling → List LongOption
make_longopt [] = []
make_longopt (o ∷ os) = record { name = o.longopt; has_arg = o.param } ∷ make_longopt os
