-- ===== src/Collectd/Session.antt =====
-- The session of collectd/write_oml/write_oml.c: its measurement points, and how they are found and
-- made. The locks are not modelled: no two calls overlap.
pub mod Unique
use soml_apps.Common.{
  ℕ, zero, suc, ◌+◌, Bool, true, false, Option, none, some, List, [], ◌∷◌, ◌++◌, if◌then◌else◌,
  length, take, replicate,
}
use soml_apps.Common.Int.{ℤ}
use soml_apps.Clib.Run.{Run, ok, fault, ◌>>=◌}
use soml_apps.Clib.Text.{Bytes, codes, same_text}

-- The types of OML that the plugin uses; a type of 0 is none of them.
pub data OmlType : Type 0 where
  no_type uint64_value int64_value double_value string_value : OmlType

-- The name of a column: a literal, a copy on the heap, or the null of the last entry.
pub data DefName : Type 0 where
  constant : Bytes → DefName
  copied : Bytes → DefName
  end_of_defs : DefName

-- `OmlMPDef`
pub record Def : Type 0 where
  pub name : DefName
  pub param_types : OmlType

-- `data_source_t` of collectd: the type is a number.
pub record DataSource : Type 0 where
  pub name : Bytes
  pub type : ℕ

-- `data_set_t`
pub record DataSet : Type 0 where
  pub type : Bytes
  pub ds : List DataSource

-- `MPoint`; `oml_mp` is the number of the measurement point at OML.
pub record MPoint : Type 0 where
  pub name : Bytes
  pub oml_mp : ℕ
  pub mp_defs : List Def

-- A string on the heap: the bytes of its block.
pub record Stored : Type 0 where
  pub block : Bytes

pub data OmlValue : Type 0 where
  uint64 int64 double : ℕ → OmlValue
  string : Bytes → OmlValue

-- The session, and what has been injected, by measurement point.
pub record Session : Type 0 where
  pub collect_uri : Option Stored
  pub domain : Option Stored
  pub node_id : Option Stored
  pub loglevel : ℤ
  pub buffer_size : Option Stored
  pub mpoint : List MPoint
  pub oml_initialized : Bool
  pub injected : List (ℕ × List OmlValue)

abbrev pub header_defs : List Def
header_defs =
    record { name = constant (codes "time"); param_types = uint64_value }
    ∷ record { name = constant (codes "host"); param_types = string_value }
    ∷ record { name = constant (codes "plugin"); param_types = string_value }
    ∷ record { name = constant (codes "plugin_instance"); param_types = string_value }
    ∷ record { name = constant (codes "type"); param_types = string_value }
    ∷ record { name = constant (codes "type_instance"); param_types = string_value }
    ∷ []

-- The switch over `d->type`; a larger type fails the assertion.
abbrev pub type_of : ℕ → Run OmlType
type_of zero = ok int64_value
type_of (suc zero) = ok double_value
type_of (suc (suc zero)) = ok int64_value
type_of (suc (suc (suc zero))) = ok uint64_value
type_of (suc (suc (suc (suc n)))) = fault

-- The loop of `configure_mpoint`, with the empty entry behind it.
unfoldable pub source_defs : List DataSource → Run (List Def)
source_defs [] = ok (record { name = end_of_defs; param_types = no_type } ∷ [])
source_defs (d ∷ ds) = do
  t ← type_of d.type
  rest ← source_defs ds
  ok (record { name = copied d.name; param_types = t } ∷ rest)

unfoldable pub configure_mpoint : List DataSource → Run (List Def)
unfolding source_defs
configure_mpoint ds = do defs ← source_defs ds; ok (header_defs ++ defs)

-- `strncmp(mp->name, name, DATA_MAX_NAME_LEN) == 0`, with the constant of collectd's plugin.h.
abbrev pub same_name : ℕ → Bytes → Bytes → Bool
same_name data_max_name_len a b = same_text (take data_max_name_len a) (take data_max_name_len b)

unfoldable pub find_mpoint_struct : ℕ → Bytes → List MPoint → Option MPoint
unfolding same_text
find_mpoint_struct data_max_name_len name [] = none
find_mpoint_struct data_max_name_len name (mp ∷ mps) =
    let rest = find_mpoint_struct data_max_name_len name mps in
    if same_name data_max_name_len mp.name name then some mp else rest

-- The new point is the first of the list.
unfoldable pub create_mpoint : ℕ → DataSet → Session → Run (MPoint × Session)
unfolding configure_mpoint
create_mpoint data_max_name_len ds s = do
  defs ← configure_mpoint ds.ds
  let mp : MPoint = record {
    name = take data_max_name_len ds.type;
    oml_mp = length s.mpoint;
    mp_defs = defs;
  }
  ok (mp, record s { mpoint = mp ∷ s.mpoint })

-- `find_mpoint`, with what `find_mpoint_struct` found.
abbrev pub or_create : ℕ → DataSet → Session → Option MPoint → Run (MPoint × Session)
or_create data_max_name_len ds s none = create_mpoint data_max_name_len ds s
or_create data_max_name_len ds s (some mp) = ok (mp, s)

unfoldable pub find_mpoint : ℕ → DataSet → Session → Run (MPoint × Session)
unfolding find_mpoint_struct create_mpoint
find_mpoint data_max_name_len ds s =
    or_create data_max_name_len ds s (find_mpoint_struct data_max_name_len ds.type s.mpoint)
