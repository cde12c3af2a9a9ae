-- ===== src/Collectd/Write.antt =====
-- `oml_write` of collectd/write_oml/write_oml.c.
pub mod Typed
use soml_apps.Common.{
  ℕ, zero, suc, ◌+◌, Bool, true, false, Option, none, some, List, [], ◌∷◌, ◌++◌, if◌then◌else◌,
  length, leb, ltb, not,
}
use soml_apps.Common.Int.{ℤ, pos, negsuc}
use soml_apps.Clib.Run.{Run, ok, fault, ◌>>=◌}
use soml_apps.Clib.Text.{Bytes, codes}
use soml_apps.Collectd.Session.{
  DataSource, DataSet, MPoint, Session, OmlValue, uint64, int64, double, string, find_mpoint,
}

-- `value_list_t` of collectd; a value is its 64 bits, a text may be null.
pub record ValueList : Type 0 where
  pub values : List ℕ
  pub time : ℕ
  pub host : Option Bytes
  pub plugin : Option Bytes
  pub plugin_instance : Option Bytes
  pub type : Option Bytes
  pub type_instance : Option Bytes

-- `t != NULL ? t : ""`
abbrev pub or_empty : Option Bytes → OmlValue
or_empty none = string []
or_empty (some t) = string t

abbrev pub header_values : ValueList → List OmlValue
header_values vl =
    uint64 vl.time
    ∷ or_empty vl.host
    ∷ or_empty vl.plugin
    ∷ or_empty vl.plugin_instance
    ∷ or_empty vl.type
    ∷ or_empty vl.type_instance
    ∷ []

-- The switch over `d->type`.
abbrev pub value_of : ℕ → ℕ → Run OmlValue
value_of zero n = ok (int64 n)
value_of (suc zero) n = ok (double n)
value_of (suc (suc zero)) n = ok (int64 n)
value_of (suc (suc (suc zero))) n = ok (uint64 n)
value_of (suc (suc (suc (suc t)))) n = fault

-- The loop over the data sources, by the slots of `v` that are left: it reads a value for each.
unfoldable pub source_values : ℕ → List DataSource → List ℕ → Run (List OmlValue)
source_values slots [] ns = ok []
source_values slots (d ∷ ds) [] = fault
source_values zero (d ∷ ds) (n ∷ ns) = fault
source_values (suc slots) (d ∷ ds) (n ∷ ns) = do
  v ← value_of d.type n
  vs ← source_values slots ds ns
  ok (v ∷ vs)

unfoldable pub oml_write : ℕ → DataSet → ValueList → Session → Run (ℤ × Session)
unfolding find_mpoint source_values
oml_write data_max_name_len ds vl s = do
  (mp, t) ← find_mpoint data_max_name_len ds s
  let write = (do
    vs ← source_values 58 ds.ds vl.values
    ok (pos 0, record t { injected = t.injected ++ (mp.oml_mp, header_values vl ++ vs) ∷ [] }))
  if not t.oml_initialized
      then ok (pos 0, t)
      else if leb 58 (length vl.values)
      then ok (negsuc 0, t)
      else write
