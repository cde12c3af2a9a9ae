-- ===== src/Tests/Loop.antt =====
-- The loop of wattsup/wattsup.c with a device that sends two records.
use soml_apps.Common.{◌+◌, ◌≡◌, ◌∷◌, ◌≢◌, refl, ap, subst, true, false, some, [], arith, leb}
use soml_apps.Common.Int.{pos}
use soml_apps.Clib.Text.{Bytes, codes, until_nul, skip_spaces}
use soml_apps.Clib.Text.Laws.{split}
use soml_apps.Clib.Number.{atoi}
use soml_apps.Wattsup.Parse.Spec.{header_of, message_of}
use soml_apps.Wattsup.State.{World, State, Settings, Tm, ReadEvent, received}
use soml_apps.Wattsup.State.Returns.{Returns}
use soml_apps.Wattsup.Fields.{wu_fields, enable_all_fields}
use soml_apps.Wattsup.Options.{none_given}
use soml_apps.Wattsup.Device.Safe.{FairBytes, IsSized}
use soml_apps.Wattsup.ReadData.Counts.{CanCount, read_loop-counted}
use soml_apps.Wattsup.ReadData.{counted, read_loop, data_packet, out_of_fuel}
use soml_apps.Wattsup.ReadData.Ends.{CanMeasure, read_loop-Ends}

abbrev record_text : Bytes
record_text = codes "#d,-,3,1200,2300,520;\r\n"

abbrev noon : Tm
noon = record { hour = 12; minute = 0; second = 0 }

-- Doubles are not looked at; a signal arrives at the third test.
abbrev world : World
world = record {
  reads = λ n. received record_text;
  writes = λ n. some 14;
  stop_loop = λ n. leb 2 n;
  local_time = λ n. noon;
  gm_time = λ n. noon;
  strtod = λ t. 0;
  multiply = λ a b. 0;
  is_nan = λ a. false;
  nan = 1;
  truncate = λ a. pos 0;
  print_double = λ n v. codes "0.0";
  tenth = 2;
  thousandth = 3;
  one = 4;
}

abbrev settings : Settings
settings = record {
  count = pos 0;
  debug = false;
  delim = codes ", ";
  final = false;
  interval = pos 1;
  label = false;
  newline = false;
  suppress = false;
  localtime = true;
  gmtime = false;
  info_all = false;
  no_data = false;
  set_only = false;
  oml_enabled = false;
  verbose = pos 1;
}

abbrev pub start : State
start = record {
  world = world;
  settings = settings;
  options = none_given;
  device = codes "ttyUSB0";
  fields = enable_all_fields wu_fields;
  reads_done = 0;
  writes_done = 0;
  tests_done = 0;
  times_read = 0;
  actions = [];
}

abbrev bytes_of : ReadEvent → Bytes
bytes_of (received bytes) = bytes
bytes_of _ = record_text

record_text-Fair : FairBytes record_text
unfolding header_of split until_nul atoi
record_text-Fair = record { short = omega arith; few = omega arith }

start-CanMeasure : CanMeasure start
unfolding enable_all_fields
start-CanMeasure = record {
  fair = λ n bytes e. subst FairBytes (ap bytes_of e) record_text-Fair;
  print = record {
    no_labels = refl;
    size = refl;
    numbers = λ n v. (omega arith, (omega arith, (omega arith, tt)));
  };
  no_final = refl;
  no_oml = refl;
}

data_packet-IsSized : IsSized data_packet
unfolding data_packet
data_packet-IsSized = record { buf = refl; field = refl }

read_loop-Ends_example : Returns (read_loop 3 0 0 data_packet) start (λ e t. e ≢ out_of_fuel)
read_loop-Ends_example =
    read_loop-Ends 3 2 0 0 data_packet start (omega arith) data_packet-IsSized start-CanMeasure refl

-- Two records are asked for, and no signal comes.
abbrev counting : State
counting = record start {
  settings = record settings { count = pos 2 };
  world = record world { stop_loop = λ n. false };
}

counting-CanCount : CanCount 2 counting
unfolding enable_all_fields message_of split until_nul atoi skip_spaces
counting-CanCount = record {
  measure = record {
    fair = λ n bytes e. subst FairBytes (ap bytes_of e) record_text-Fair;
    print = record {
      no_labels = refl;
      size = refl;
      numbers = λ n v. (omega arith, (omega arith, (omega arith, tt)));
    };
    no_final = refl;
    no_oml = refl;
  };
  count = refl;
  no_signal = λ k. refl;
  messages = λ k. record {
    bytes = record_text;
    arrives = refl;
    fair = record_text-Fair;
    message = record {
      cmd = b'd';
      sub_cmd = b'-';
      count = 3;
      fields = codes "1200" ∷ codes "2300" ∷ codes "520" ∷ [];
    };
    says = refl;
  };
}

read_loop-counted_example :
    Returns
      (read_loop 2 0 0 data_packet)
      counting
      (λ e t. (e ≡ counted) × (t.tests_done ≡ counting.tests_done + 2))
read_loop-counted_example =
    read_loop-counted 2 1 0 0 2 data_packet counting (omega arith) refl data_packet-IsSized
      counting-CanCount
