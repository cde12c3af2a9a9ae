-- ===== src/Wattsup/State.antt =====
-- The static variables of wattsup/wattsup.c, the world that it runs in, and programs over them.
-- What the device, the kernel and the clock answer is a sequence each, and what the program does
-- to them is a list of actions, the first one first. A `double` is its 64-bit pattern.
pub mod Returns
use soml_apps.Common.{ℕ, Bool, Option, List, [], ◌∷◌, ◌++◌, if◌then◌else◌}
use soml_apps.Common.Int.{ℤ, is_nat}
use soml_apps.Clib.Run as R
use soml_apps.Clib.Run.{Run, ok, fault}
use soml_apps.Clib.Text.{Bytes}

abbrev pub Double : Type 0
Double = ℕ

-- What `select` and `read` do in one call of `wu_read`.
pub data ReadEvent : Type 0 where
  select_failed timed_out read_failed : ReadEvent
  received : Bytes → ReadEvent

-- The hour, minute and second of a `struct tm`.
pub record Tm : Type 0 where
  pub hour : ℕ
  pub minute : ℕ
  pub second : ℕ

-- The answers of the world, each by the number of its call, and the floating-point operations.
pub record World : Type 0 where
  pub reads : ℕ → ReadEvent
  pub writes : ℕ → Option ℕ
  pub stop_loop : ℕ → Bool
  pub local_time : ℕ → Tm
  pub gm_time : ℕ → Tm
  pub strtod : Bytes → Double
  pub multiply : Double → Double → Double
  pub is_nan : Double → Bool
  pub nan : Double
  pub truncate : Double → ℤ
  pub print_double : ℕ → Double → Bytes
  pub tenth : Double
  pub thousandth : Double
  pub one : Double

-- A multiplier of the table `wu_fields`.
pub data Multiplier : Type 0 where
  by_tenth by_thousandth by_one : Multiplier

abbrev pub multiplier_value : World → Multiplier → Double
multiplier_value w by_tenth = w.tenth
multiplier_value w by_thousandth = w.thousandth
multiplier_value w by_one = w.one

-- `struct wu_field`; `precision` is the N of its format `%.Nf`.
pub record Field : Type 0 where
  pub enable : Bool
  pub name : Bytes
  pub multiplier : Multiplier
  pub precision : ℕ

-- The samples that are injected into the measurement points of OML.
pub data Sample : Type 0 where
  power : Double → Double → Double → Double → Double → Double → Sample
  cost : Double → Sample
  monthly : Double → Double → Sample
  maxima : Double → Double → Double → Sample
  minima : Double → Double → Double → Sample
  meta : ℤ → ℤ → ℤ → Sample

pub data Action : Type 0 where
  wrote : Bytes → Action
  slept : ℤ → Action
  printed : Bytes → Action
  injected : Sample → Action
  showed_help : Action
  closed : Action

pub record Settings : Type 0 where
  pub count : ℤ
  pub debug : Bool
  pub delim : Bytes
  pub final : Bool
  pub interval : ℤ
  pub label : Bool
  pub newline : Bool
  pub suppress : Bool
  pub localtime : Bool
  pub gmtime : Bool
  pub info_all : Bool
  pub no_data : Bool
  pub set_only : Bool
  pub oml_enabled : Bool
  pub verbose : ℤ

-- The variable part of a `struct wu_options`.
pub record Given : Type 0 where
  pub flag : Bool
  pub value : Option Bytes

pub record State : Type 0 where
  pub world : World
  pub settings : Settings
  pub options : List Given
  pub device : Bytes
  pub fields : List Field
  pub reads_done : ℕ
  pub writes_done : ℕ
  pub tests_done : ℕ
  pub times_read : ℕ
  pub actions : List Action

-- A program changes the state and returns a value, or its behaviour is undefined.
abbrev pub Prog {ℓ} : Type ℓ → Type ℓ
Prog A = State → Run (A × State)

infixl 5 ◌>>=◌
abbrev pub ◌>>=◌ {ℓ κ} : {A : Type ℓ} {B : Type κ} (m : Prog A) (f : A → Prog B) → Prog B
◌>>=◌ m f s = R.◌>>=◌ (m s) (λ r. f r.0 r.1)

infixl 5 ◌>>◌
abbrev pub ◌>>◌ {κ} : (first : Prog (Unit {0})) {C : Type κ} (rest : Prog C) → Prog C
first >> rest = first >>= λ nothing. rest

abbrev pub pure {ℓ} : {A : Type ℓ} → A → Prog A
pure a s = ok (a, s)

abbrev pub lift {ℓ} : {A : Type ℓ} → Run A → Prog A
lift m s = R.◌>>=◌ m (λ a. ok (a, s))

abbrev pub get : Prog State
get s = ok (s, s)

abbrev pub act : Action → Prog (Unit {0})
act a s = ok (tt, record s { actions = s.actions ++ a ∷ [] })

abbrev pub when : Bool → Prog (Unit {0}) → Prog (Unit {0})
when b m = if b then m else pure tt

-- `if (!verbose) return;` in front of the rest of `msg`, `msg_start` and `msg_end`.
abbrev pub unless_quiet : Prog (Unit {0}) → Prog (Unit {0})
unless_quiet m = do s ← get; if is_nat s.settings.verbose 0 then pure tt else m

abbrev pub msg : Bytes → Prog (Unit {0})
msg text = unless_quiet (act (printed text))
