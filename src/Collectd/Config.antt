-- ===== src/Collectd/Config.antt =====
-- `oml_config`, `oml_init` and `oml_cleanup` of collectd/write_oml/write_oml.c. What OML answers is
-- given.
pub mod Strings
use soml_apps.Common.{
  ℕ, zero, suc, ◌+◌, Bool, true, false, ◌&&◌, Option, none, some, List, [], ◌∷◌, ◌++◌,
  if◌then◌else◌, length, leb, ltb, not, take, ◌==◌,
}
use soml_apps.Common.Int.{ℤ, pos, negsuc}
use soml_apps.Clib.Run.{Run, ok, fault, ◌>>=◌}
use soml_apps.Clib.Text.{Bytes, codes, same_ignoring_case, find_byte}
use soml_apps.Clib.Number.{read_digits, strip_sign, starts_number, low_word, int_of}
use soml_apps.Clib.Text.{skip_spaces}
use soml_apps.Clib.Memory.{overwrite, overwrite_at, malloc, read_string}
use soml_apps.Collectd.Session.{
  Session, MPoint, Def, DefName, constant, copied, end_of_defs, Stored,
}

-- `malloc(strlen(value) + 1)`, then `strncpy` of `strlen(value)` bytes.
unfoldable pub copy_bytes : (ℕ → ℕ) → Bytes → Stored
unfolding overwrite malloc
copy_bytes memory value = record { block = overwrite value (malloc memory 0 (length value + 1)) }

-- `malloc(tmp + 1)`, `strncpy` of `tmp` bytes, and a NUL at `tmp`.
unfoldable pub copy_sized : (ℕ → ℕ) → ℕ → Bytes → Stored
unfolding overwrite overwrite_at malloc
copy_sized memory tmp text = record {
  block = overwrite_at tmp (0 ∷ []) (overwrite text (malloc memory 0 (tmp + 1)));
}

-- `strtol(value, &endptr, 10)`: nothing where `endptr == value`.
unfoldable pub log_level : Bytes → Option ℤ
unfolding strip_sign starts_number read_digits skip_spaces
log_level value =
    let (negative, digits) = strip_sign (skip_spaces value) in
    if starts_number 10 digits
    then some (int_of (low_word negative (read_digits 10 0 digits).0))
    else none

-- The length up to the point. With no point, the null of `strchr` takes part in a subtraction.
unfoldable pub buffer_size_of : (ℕ → ℕ) → Bytes → Run Stored
unfolding find_byte copy_sized
buffer_size_of memory value = elim (find_byte (λ c. c == b'.') value) [
  | none ↦ fault
  | some n ↦
      if n == 0
      then ok (copy_sized memory (length value + 1) (value ++ 0 ∷ []))
      else ok (copy_sized memory n (take n value))
]

set_log_level : Option ℤ → Session → ℤ × Session
set_log_level none s = (negsuc 0, s)
set_log_level (some n) s = (pos 0, record s { loglevel = n })

unfoldable pub oml_config : (ℕ → ℕ) → Bytes → Bytes → Session → Run (ℤ × Session)
unfolding copy_bytes log_level buffer_size_of set_log_level same_ignoring_case
oml_config memory key value s =
    let sized = (do
      size ← buffer_size_of memory value
      ok (pos 0, record s { buffer_size = some size })) in
    if same_ignoring_case (codes "NodeID") key
    then ok (pos 0, record s { node_id = some (copy_bytes memory value) })
    else if same_ignoring_case (codes "Domain") key
    then ok (pos 0, record s { domain = some (copy_bytes memory value) })
    else if same_ignoring_case (codes "CollectURI") key
    then ok (pos 0, record s { collect_uri = some (copy_bytes memory value) })
    else if same_ignoring_case (codes "OMLLogLevel") key
    then ok (set_log_level (log_level value) s)
    else if same_ignoring_case (codes "OMLBufferSize") key
    then sized
    else ok (negsuc 0, s)

-- An argument of `omlc_init`, which reads it as a string: the default, or what is configured.
unfoldable pub argument : Bytes → Option Stored → Run Bytes
unfolding read_string
argument default none = ok default
argument default (some t) = read_string t.block

-- `oml_init`, with the name of the host and whether `omlc_init` and `omlc_start` succeed.
unfoldable pub oml_init : Bytes → Bool → Bool → Session → Run (ℤ × Session)
unfolding argument
oml_init hostname_g inited started s = do
  node_id ← argument hostname_g s.node_id
  domain ← argument (codes "collectd") s.domain
  collect_uri ← argument (codes "file:-") s.collect_uri
  buffer_size ← argument (codes "4096") s.buffer_size
  ok (pos 0, record s { oml_initialized = inited && started })

-- `while(*md->name)`: a name is read, and freed, which is undefined for a literal.
abbrev free_def : DefName → Run (Unit {0}) → Run (Unit {0})
free_def (constant []) rest = ok tt
free_def (constant (c ∷ cs)) rest = fault
free_def (copied []) rest = ok tt
free_def (copied (c ∷ cs)) rest = rest
free_def end_of_defs rest = fault

unfoldable pub free_defs : List Def → Run (Unit {0})
free_defs [] = fault
free_defs (d ∷ ds) = let rest = free_defs ds in free_def d.name rest

unfoldable pub free_mpoints : List MPoint → Run (Unit {0})
unfolding free_defs
free_mpoints [] = ok tt
free_mpoints (mp ∷ mps) = do done ← free_defs mp.mp_defs; free_mpoints mps

-- `oml_cleanup`, with the result of `omlc_close`.
unfoldable pub oml_cleanup : ℤ → Session → Run ℤ
unfolding free_mpoints
oml_cleanup closed s = do done ← free_mpoints s.mpoint; ok closed
