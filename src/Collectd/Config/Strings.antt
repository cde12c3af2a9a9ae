-- ===== src/Collectd/Config/Strings.antt =====
-- Configured strings and the end of collectd/write_oml/write_oml.c.
use soml_apps.Common.{
  ℕ, suc, ◌+◌, ◌≡◌, ◌≢◌, refl, ap, ◌∙◌, sym, Bool, true, false, some, List, [], ◌∷◌, ◌++◌, ◌==◌,
  if◌then◌else◌, length, arith,
}
use soml_apps.Common.Int.{ℤ, pos}
use soml_apps.Clib.Run.{Run, ok, fault, ◌>>=◌}
use soml_apps.Clib.Memory.{
  malloc, read_string, overwrite, overwrite-split, length-malloc, drop-malloc,
}
use soml_apps.Clib.Text.Laws.{NoNul}
use soml_apps.Clib.Text.{Bytes, codes, same_ignoring_case}
use soml_apps.Collectd.Session.{
  Def, DataSet, MPoint, Session, source_defs, configure_mpoint, find_mpoint, find_mpoint_struct,
  create_mpoint, or_create,
}
use soml_apps.Collectd.Config.{
  copy_bytes, argument, oml_config, oml_init, oml_cleanup, free_mpoints, free_defs,
}

is_not : (n : ℕ) → n ≢ 0 → (n == 0) ≡ false
is_not n h = ground arith

read_string-append :
    (text : Bytes) (c : ℕ)
    → NoNul text
    → read_string (text ++ c ∷ []) ≡ (if c == 0 then ok text else fault)
unfolding read_string
read_string-append [] c plain = refl
read_string-append (x ∷ xs) c (first, rest) =
    rw (is_not x first, read_string-append xs c rest) (under (c == 0))
  where
    under :
        (b : Bool)
        → ((if b then ok xs else fault) >>= λ text. ok (x ∷ text))
          ≡ (if b then ok (x ∷ xs) else fault)
    under true = refl
    under false = refl

-- The byte behind the copy is the one that `malloc` found there.
copy_bytes-block :
    (memory : ℕ → ℕ) (value : Bytes)
    → (copy_bytes memory value).block ≡ value ++ memory (length value) ∷ []
unfolding copy_bytes
copy_bytes-block memory value =
    let size : length value + 1 ≡ suc (length value) = omega arith in
    ap (λ n. overwrite value (malloc memory 0 n)) size
    ∙ overwrite-split value (malloc memory 0 (suc (length value)))
        (omega (arith, length-malloc memory 0 (suc (length value))))
    ∙ ap (λ bs. value ++ bs)
        (drop-malloc memory 0 (length value) ∙ ap (λ k. memory k ∷ []) (omega arith))

node_id_read :
    (memory : ℕ → ℕ) (value hostname : Bytes)
    → NoNul value
    → argument hostname (some (copy_bytes memory value))
      ≡ (if memory (length value) == 0 then ok value else fault)
unfolding argument
node_id_read memory value hostname plain =
    rw (copy_bytes-block memory value) (read_string-append value (memory (length value)) plain)

-- Configuring the key NodeID succeeds; the value is then what `oml_init` reads if the byte that
-- `malloc` found behind the copy happens to be 0, and otherwise `oml_init` reads past the end of
-- the block.
pub oml_config-oml_init :
    (memory : ℕ → ℕ) (key value hostname : Bytes) (inited started : Bool) (s : Session)
    → same_ignoring_case (codes "NodeID") key ≡ true
    → NoNul value
    → (t : Session) × (oml_config memory key value s ≡ ok (pos 0, t))
      × (memory (length value) ≡ 0 → argument hostname t.node_id ≡ ok value)
      × (memory (length value) ≢ 0 → oml_init hostname inited started t ≡ fault)
unfolding oml_config oml_init
oml_config-oml_init memory key value hostname inited started s is_key plain =
    let read : argument hostname (some (copy_bytes memory value))
        ≡ (if memory (length value) == 0 then ok value else fault) =
      node_id_read memory value hostname plain in
    (
      record s { node_id = some (copy_bytes memory value) },
      rw is_key refl,
      (λ e. rw e at read),
      λ e. rw (read, is_not (memory (length value)) e) refl,
    )

freed : Run (MPoint × Session) → Run (Unit {0})
freed (ok r) = free_mpoints r.1.mpoint
freed fault = fault

created-freed :
    (n : ℕ) (ds : DataSet) (s : Session) (r : Run (List Def))
    → source_defs ds.ds ≡ r
    → freed (create_mpoint n ds s) ≡ fault
unfolding create_mpoint configure_mpoint freed free_mpoints free_defs
created-freed n ds s (ok defs) e = rw e refl
created-freed n ds s fault e = rw e refl

found-freed :
    (n : ℕ) (ds : DataSet) (s : Session) → s.mpoint ≡ [] → freed (find_mpoint n ds s) ≡ fault
unfolding find_mpoint find_mpoint_struct
found-freed n ds s empty =
    ap (λ o. freed (or_create n ds s o)) (ap (find_mpoint_struct n ds.type) empty)
    ∙ created-freed n ds s (source_defs ds.ds) refl

-- Once a session has made its first measurement point, `oml_cleanup` frees a string literal, the
-- name of the first column.
pub oml_cleanup-fault :
    (n : ℕ) (ds : DataSet) (s t : Session) (closed : ℤ) {mp : MPoint}
    → s.mpoint ≡ []
    → find_mpoint n ds s ≡ ok (mp, t)
    → oml_cleanup closed t ≡ fault
unfolding oml_cleanup freed
oml_cleanup-fault n ds s t closed empty run =
    let freeing : free_mpoints t.mpoint ≡ fault = sym (ap freed run) ∙ found-freed n ds s empty in
    rw freeing refl
