-- ===== src/Wattsup/Fields.antt =====
-- The table `wu_fields` of wattsup/wattsup.c, and which of its columns the command line enables.
pub mod Enabled
use soml_apps.Common.{Bool, true, false, List, [], ◌∷◌, if◌then◌else◌}
use soml_apps.Clib.Text.{Bytes, codes, same_ignoring_case}
use soml_apps.Wattsup.State.{Field, Multiplier, by_tenth, by_thousandth, by_one}
use Prim.Native.String.{String}
use soml_apps.Common.{ℕ}

abbrev column : String → Multiplier → ℕ → Field
column name multiplier precision = record {
  enable = false;
  name = codes name;
  multiplier = multiplier;
  precision = precision;
}

-- In the order of the enumeration. The names of the extreme volts are as in the source: the column
-- of the minimum is called "max-volts", and that of the maximum "min-volts".
abbrev pub wu_fields : List Field
wu_fields =
    column "watts" by_tenth 1
    ∷ column "volts" by_tenth 1
    ∷ column "amps" by_thousandth 3
    ∷ column "kwh" by_tenth 1
    ∷ column "cost" by_tenth 1
    ∷ column "mo-kwh" by_one 1
    ∷ column "mo-cost" by_tenth 1
    ∷ column "max-watts" by_tenth 1
    ∷ column "min-volts" by_tenth 1
    ∷ column "max-amps" by_thousandth 3
    ∷ column "min-watts" by_tenth 1
    ∷ column "max-volts" by_tenth 1
    ∷ column "min-amps" by_thousandth 3
    ∷ column "power-factor" by_one 0
    ∷ column "duty-cycle" by_one 0
    ∷ column "power-cycle" by_one 0
    ∷ column "line-frequency" by_tenth 1
    ∷ column "apparent-powey" by_tenth 1
    ∷ []

abbrev pub enabled : Field → Field
enabled f = record f { enable = true }

-- The first column with this name, whatever the case of its letters.
unfoldable pub enable_field : Bytes → List Field → List Field
unfolding same_ignoring_case
enable_field name [] = []
enable_field name (f ∷ fs) =
    if same_ignoring_case f.name name then enabled f ∷ fs else f ∷ enable_field name fs

unfoldable pub enable_all_fields : List Field → List Field
enable_all_fields [] = []
enable_all_fields (f ∷ fs) = enabled f ∷ enable_all_fields fs

-- `for (i = optind; i < argc; i++) enable_field(argv[i]);`
unfoldable pub enable_fields : List Bytes → List Field → List Field
unfolding enable_field
enable_fields [] fs = fs
enable_fields (name ∷ names) fs = enable_fields names (enable_field name fs)
