-- ===== src/Tests/Collectd.antt =====
-- The plugin of collectd/write_oml/write_oml.c at concrete inputs.
use soml_apps.Common.{ℕ, ◌≡◌, ◌≢◌, refl, true, none, some, List, [], ◌∷◌, ◌++◌, arith}
use soml_apps.Common.Int.{pos}
use soml_apps.Clib.Run.{ok, fault}
use soml_apps.Clib.Text.{codes}
use soml_apps.Clib.Text.Laws.{NoNul}
use soml_apps.Collectd.Session.{
  Def, DataSet, MPoint, Session, configure_mpoint, find_mpoint, header_defs, copied, end_of_defs,
  double_value, int64_value, no_type,
}
use soml_apps.Collectd.Session.Unique.{Found, find_mpoint-Found}
use soml_apps.Collectd.Write.{ValueList}
use soml_apps.Collectd.Write.Typed.{Injects, oml_write-Injects}
use soml_apps.Collectd.Config.{argument, oml_config, oml_init, oml_cleanup}
use soml_apps.Collectd.Config.Strings.{oml_config-oml_init, oml_cleanup-fault}

abbrev load : DataSet
load = record {
  type = codes "load";
  ds =
      record { name = codes "shortterm"; type = 1 }
      ∷ record { name = codes "users"; type = 2 }
      ∷ [];
}

abbrev load_defs : List Def
load_defs =
    header_defs
    ++ (record { name = copied (codes "shortterm"); param_types = double_value }
        ∷ record { name = copied (codes "users"); param_types = int64_value }
        ∷ record { name = end_of_defs; param_types = no_type }
        ∷ [])

abbrev load_values : ValueList
load_values = record {
  values = 4602678819172646912 ∷ 3 ∷ [];
  time = 1400000000;
  host = some (codes "node1");
  plugin = some (codes "load");
  plugin_instance = none;
  type = some (codes "load");
  type_instance = none;
}

abbrev session : Session
session = record {
  collect_uri = none;
  domain = none;
  node_id = none;
  loglevel = pos 0;
  buffer_size = none;
  mpoint = [];
  oml_initialized = true;
  injected = [];
}

find_mpoint-Found_example : (mp : MPoint) × (t : Session) × Found 64 load session mp t
unfolding configure_mpoint
find_mpoint-Found_example = find_mpoint-Found 64 load session {defs = load_defs} tt refl

oml_write-Injects_example : Injects 64 load load_values session load_defs
unfolding configure_mpoint
oml_write-Injects_example =
    oml_write-Injects 64 load load_values session {defs = load_defs} tt refl refl refl (omega arith)

abbrev old_memory : ℕ → ℕ
old_memory i = 120

oml_config-oml_init_example :
    (t : Session) × (oml_config old_memory (codes "nodeid") (codes "node1") session ≡ ok (pos 0, t))
    × (old_memory 5 ≡ 0 → argument (codes "localhost") t.node_id ≡ ok (codes "node1"))
    × (old_memory 5 ≢ 0 → oml_init (codes "localhost") true true t ≡ fault)
unfolding oml_config
oml_config-oml_init_example =
    oml_config-oml_init old_memory (codes "nodeid") (codes "node1") (codes "localhost") true true
      session refl no_nul
  where
    no_nul : NoNul (codes "node1")
    no_nul = ((λ e. cc), ((λ e. cc), ((λ e. cc), ((λ e. cc), ((λ e. cc), tt)))))

abbrev load_point : MPoint
load_point = record { name = codes "load"; oml_mp = 0; mp_defs = load_defs }

oml_cleanup-fault_example :
    oml_cleanup (pos 0) (record session { mpoint = load_point ∷ [] }) ≡ fault
unfolding find_mpoint
oml_cleanup-fault_example =
    oml_cleanup-fault 64 load session (record session { mpoint = load_point ∷ [] }) (pos 0)
      {mp = load_point} refl refl
