-- ===== src/Clib/Run.antt =====
-- Runs of C code: a value, or undefined behaviour (an access out of bounds, a null dereference).
use soml_apps.Common.{Bool, true, false, Option, none, some}

pub data Run {ℓ} (A : Type ℓ) : Type ℓ where
  ok : A → Run A
  fault : Run A

infixl 5 ◌>>=◌
abbrev pub ◌>>=◌ {ℓ κ} : {A : Type ℓ} {B : Type κ} (m : Run A) (next : A → Run B) → Run B
fault >>= next = fault
ok a >>= next = next a

-- An access that must find something.
abbrev pub demand {ℓ} : {A : Type ℓ} → Option A → Run A
demand none = fault
demand (some a) = ok a

-- The `errno` behind a result of -1; `os_error` is that of a failed system call.
pub data Errno : Type 0 where
  efault eoverflow etime einval os_error : Errno

-- What an `int`-returning function hands back: 0, or an error.
pub data Status : Type 0 where
  success : Status
  failed : Errno → Status

abbrev pub is_failed : Status → Bool
is_failed success = false
is_failed (failed e) = true
