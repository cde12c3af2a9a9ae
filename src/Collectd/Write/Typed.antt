-- ===== src/Collectd/Write/Typed.antt =====
-- What `oml_write` of collectd/write_oml/write_oml.c injects has the types of its measurement point.
use soml_apps.Common.{
  ℕ, zero, suc, ◌<◌, ◌≤◌, ◌≡◌, refl, ap, ◌∙◌, true, false, Option, none, some, List, [], ◌∷◌, ◌++◌,
  length, leb, arith,
}
use soml_apps.Common.Int.{pos}
use soml_apps.Clib.Run.{Run, ok, fault, ◌>>=◌}
use soml_apps.Clib.Text.{Bytes}
use soml_apps.Collectd.Session.{
  OmlType, no_type, uint64_value, int64_value, double_value, string_value, Def, DataSource, DataSet,
  MPoint, Session, OmlValue, uint64, int64, double, string, type_of, source_defs, configure_mpoint,
  find_mpoint_struct, header_defs,
}
use soml_apps.Collectd.Session.Unique.{Unique, find_mpoint-Found}
use soml_apps.Collectd.Write.{
  ValueList, header_values, or_empty, value_of, source_values, oml_write,
}

abbrev pub type_of_value : OmlValue → OmlType
type_of_value (uint64 n) = uint64_value
type_of_value (int64 n) = int64_value
type_of_value (double n) = double_value
type_of_value (string t) = string_value

abbrev pub types : List Def → List OmlType
types [] = []
types (d ∷ ds) = d.param_types ∷ types ds

-- The types of some values, and that of the entry that ends the columns.
abbrev pub value_types : List OmlValue → List OmlType
value_types [] = no_type ∷ []
value_types (v ∷ vs) = type_of_value v ∷ value_types vs

value_of-type_of :
    (k n : ℕ) {t : OmlType}
    → type_of k ≡ ok t
    → (v : OmlValue) × (value_of k n ≡ ok v) × (type_of_value v ≡ t)
value_of-type_of zero n e = (int64 n, refl, cc)
value_of-type_of (suc zero) n e = (double n, refl, cc)
value_of-type_of (suc (suc zero)) n e = (int64 n, refl, cc)
value_of-type_of (suc (suc (suc zero))) n e = (uint64 n, refl, cc)
value_of-type_of (suc (suc (suc (suc k)))) n e = cc

bind-ok {ℓ κ} :
    {X : Type ℓ} {Y : Type κ} (r : Run X) (next : X → Run Y) {y : Y}
    → (r >>= next) ≡ ok y
    → (x : X) × (r ≡ ok x) × (next x ≡ ok y)
bind-ok fault next h = cc
bind-ok (ok x) next h = (x, refl, h)

run_types : Run (List Def) → List OmlType
run_types (ok defs) = types defs
run_types fault = []

source_values-source_defs :
    (slots : ℕ) (ds : List DataSource) (ns : List ℕ) {defs : List Def}
    → source_defs ds ≡ ok defs
    → length ns ≡ length ds
    → length ds ≤ slots
    → (vs : List OmlValue) × (source_values slots ds ns ≡ ok vs) × (value_types vs ≡ types defs)
unfolding source_defs source_values run_types
source_values-source_defs slots [] ns {defs} e same room = ([], refl, ap run_types e)
source_values-source_defs slots (d ∷ ds) [] e same room = absurd (omega arith)
source_values-source_defs zero (d ∷ ds) (n ∷ ns) e same room = absurd (omega arith)
source_values-source_defs (suc slots) (d ∷ ds) (n ∷ ns) {defs} e same room =
    let (t, typed, e') = bind-ok (type_of d.type) _ e in
    let (rest, more, e'') = bind-ok (source_defs ds) _ e' in
    let (v, valued, type) = value_of-type_of d.type n typed in
    let (vs, others, all) =
      source_values-source_defs slots ds ns more (omega arith) (omega arith) in
    (
      v ∷ vs,
      rw (valued, others) refl,
      ap (λ a. a ∷ value_types vs) type ∙ ap (◌∷◌ t) all ∙ ap run_types e'',
    )

or_empty-type : (t : Option Bytes) → type_of_value (or_empty t) ≡ string_value
or_empty-type none = refl
or_empty-type (some t) = refl

header_types :
    (vl : ValueList) (vs : List OmlValue) (defs : List Def)
    → value_types vs ≡ types defs
    → value_types (header_values vl ++ vs) ≡ types (header_defs ++ defs)
header_types vl vs defs e =
    rw
      (
        or_empty-type vl.host,
        or_empty-type vl.plugin,
        or_empty-type vl.plugin_instance,
        or_empty-type vl.type,
        or_empty-type vl.type_instance,
        e,
      )
      refl

-- The result of a write that injects values for these columns.
pub record Injects (n : ℕ) (ds : DataSet) (vl : ValueList) (s : Session) (defs : List Def)
    : Type 0 where
  pub point : MPoint
  pub values : List OmlValue
  pub after : Session
  pub returns : oml_write n ds vl s ≡ ok (pos 0, after)
  pub injected : after.injected ≡ s.injected ++ (point.oml_mp, values) ∷ []
  pub found : find_mpoint_struct n ds.type after.mpoint ≡ some point
  pub unique : Unique n after.mpoint
  pub typed : value_types values ≡ types defs

-- With OML initialized, fewer than 58 values, one for each data source, and no type above 3,
-- `oml_write` returns 0 and injects one row, into the measurement point of the session that has the
-- name of the data set, which it makes if there is none. The row has the types of the columns that
-- `configure_mpoint` makes for that data set, in order; the names of the points stay different.
pub oml_write-Injects :
    (n : ℕ) (ds : DataSet) (vl : ValueList) (s : Session) {defs : List Def}
    → Unique n s.mpoint
    → configure_mpoint ds.ds ≡ ok defs
    → s.oml_initialized ≡ true
    → length vl.values ≡ length ds.ds
    → length vl.values < 58
    → Injects n ds vl s defs
unfolding oml_write configure_mpoint run_types
oml_write-Injects n ds vl s {defs} unique e on same few =
    let (mp, t, f) = find_mpoint-Found n ds s unique e in
    let (sources, made, whole) = bind-ok (source_defs ds.ds) _ e in
    let (vs, valued, typed) =
      source_values-source_defs 58 ds.ds vl.values made same (omega arith) in
    let small : leb 58 (length vl.values) ≡ false = ground arith in
    record {
      point = mp;
      values = header_values vl ++ vs;
      after = record t { injected = t.injected ++ (mp.oml_mp, header_values vl ++ vs) ∷ [] };
      returns = rw (f.returns, f.initialized, on, small, valued) refl;
      injected = ap (λ l. l ++ (mp.oml_mp, header_values vl ++ vs) ∷ []) f.injected;
      found = f.found;
      unique = f.unique;
      typed = header_types vl vs sources typed ∙ ap run_types whole;
    }
