-- ===== src/Wattsup/State/Returns.antt =====
-- Total correctness of a program over the state of wattsup/wattsup.c: it returns, with no fault,
-- and its result and the new state are as stated.
use soml_apps.Common.{◌≡◌, refl, ◌∙◌, Bool, true, false}
use soml_apps.Clib.Run.{ok}
use soml_apps.Wattsup.State.{State, Prog, Action, ◌>>=◌, ◌>>◌, act, when}

abbrev pub Returns {ℓ κ} : {A : Type ℓ} → Prog A → State → (A → State → Type κ) → Type (ℓ ⊔ κ)
Returns {A = A} m s P = (a : A) × (t : State) × (m s ≡ ok (a, t)) × P a t

pub bind {ℓ κ μ ν} :
    {A : Type ℓ} {B : Type κ} (m : Prog A) (f : A → Prog B) (s : State) {P : A → State → Type μ}
    {Q : B → State → Type ν}
    → Returns m s P
    → ((a : A) (t : State) → P a t → Returns (f a) t Q)
    → Returns (m >>= f) s Q
bind m f s (a, t, e, p) next = let (b, u, e', q) = next a t p in (b, u, rw e e', q)

-- What no step of a measurement changes, but for its test of `stop_loop`.
pub record Keeps (s t : State) : Type 0 where
  pub world : t.world ≡ s.world
  pub settings : t.settings ≡ s.settings
  pub fields : t.fields ≡ s.fields
  pub tests : t.tests_done ≡ s.tests_done

pub Keeps-refl : (s : State) → Keeps s s
Keeps-refl s = record { world = refl; settings = refl; fields = refl; tests = refl }

pub Keeps-trans : {s t u : State} → Keeps s t → Keeps t u → Keeps s u
Keeps-trans k l = record {
  world = l.world ∙ k.world;
  settings = l.settings ∙ k.settings;
  fields = l.fields ∙ k.fields;
  tests = l.tests ∙ k.tests;
}

-- A program that returns and keeps these.
abbrev pub Runs {ℓ} : {A : Type ℓ} → Prog A → State → Type ℓ
Runs m s = Returns m s (λ a t. Keeps s t)

-- Two in a row.
pub Runs-bind {ℓ κ} :
    {A : Type ℓ} {B : Type κ} (m : Prog A) (f : A → Prog B) (s : State)
    → Runs m s
    → ((a : A) (t : State) → Keeps s t → Runs (f a) t)
    → Runs (m >>= f) s
Runs-bind m f s h next =
    bind m f s h (λ a t k. let (b, u, e, l) = next a t k in (b, u, e, Keeps-trans k l))

pub then-Runs {ℓ} :
    {B : Type ℓ} (m : Prog (Unit {0})) (n : Prog B) (s : State)
    → Runs m s
    → ((t : State) → Keeps s t → Runs n t)
    → Runs (m >> n) s
then-Runs m n s h next = Runs-bind m (λ a. n) s h (λ a t k. next t k)

pub act-Runs : (a : Action) (s : State) → Runs (act a) s
act-Runs a s = (tt, _, refl, record { world = refl; settings = refl; fields = refl; tests = refl })

pub when-Runs :
    (b : Bool) (m : Prog (Unit {0})) (s : State) → (b ≡ true → Runs m s) → Runs (when b m) s
when-Runs true m s h = h refl
when-Runs false m s h = (tt, s, refl, Keeps-refl s)
