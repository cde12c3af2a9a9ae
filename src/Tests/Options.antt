-- ===== src/Tests/Options.antt =====
-- The command line of wattsup/wattsup.c, its commands and its reports at concrete inputs.
use mathlib.Core.Option
use soml_apps.Common.{
  ℕ, zero, suc, ◌<◌, ◌≡◌, refl, some, none, true, false, if◌then◌else◌, List, [], ◌∷◌, ◌++◌, arith,
  get_elem?, take, inl, map, replicate,
}
use soml_apps.Clib.Run.{ok, fault, success}
use soml_apps.Clib.Text.{Bytes, codes}
use soml_apps.Clib.Number.{decimal}
use soml_apps.Wattsup.Packet.{Packet, literal, field_text, pointer_text, wu_strlen, wu_num_fields}
use soml_apps.Wattsup.Command.{encode}
use soml_apps.Wattsup.State.{State, injected}
use soml_apps.Wattsup.Fields.{wu_fields, enable_fields, enable_all_fields}
use soml_apps.Wattsup.Fields.Enabled.{is_named, enabled_if, enable_fields-is_named}
use soml_apps.Wattsup.Options.{
  interval, make_shortopt, make_longopt, index, none_given, wu_options, enable_short_option,
  enable_long_option,
}
use soml_apps.Wattsup.Options.Letters.{
  getopt_arg, getopt_long_arg, optarg, letter_of, enable_short_option-letter_of,
}
use soml_apps.Wattsup.Report.{report_packet_filter}
use soml_apps.Wattsup.Report.Samples.{samples, groups, value_at, report_packet_filter-samples}
use soml_apps.Wattsup.Store.{wu_check_store, interval_command}
use soml_apps.Clib.Number.{scan}
use soml_apps.Wattsup.Store.{wu_store_user, skip_to_digit}
use soml_apps.Wattsup.Options.{user, wu_option_value}
use soml_apps.Wattsup.Store.User.{wu_store_user-fault}
use soml_apps.Wattsup.Store.Commands.{encode-interval_command}
use soml_apps.Wattsup.Open.{Kernel, open_device, directory, char_device}
use soml_apps.Wattsup.Open.Paths.{Leaves, Ends, open_device-Leaves}
use soml_apps.Wattsup.Main.{Call, short, long, returned, parse_args, run_device, main, read_options}
use soml_apps.Wattsup.Main.Missing.{wu_check_store-missing}
use soml_apps.Wattsup.Main.Verbosity.{decided_settings, main-decided_settings}
use soml_apps.Tests.Loop.{start as start_state}

abbrev names : List Bytes
names = codes "WATTS" ∷ codes "ohms" ∷ codes "min-volts" ∷ []

enable_fields-is_named_example :
    get_elem? (enable_fields names wu_fields) 8
    ≡ Option.map (enabled_if (is_named names wu_fields 8)) (get_elem? wu_fields 8)
enable_fields-is_named_example = enable_fields-is_named names wu_fields 8

enable_short_option-letter_of_example :
    (let short =
        optarg (getopt_arg (make_shortopt wu_options) (letter_of interval)) (some (codes "5")) in
      let long =
        optarg (getopt_long_arg (make_longopt wu_options) (index interval)) (some (codes "5")) in
      enable_short_option wu_options (letter_of interval) short none_given
      ≡ enable_long_option (index interval) (if true then none else long) none_given)
enable_short_option-letter_of_example =
    enable_short_option-letter_of interval (some (codes "5")) none_given

encode-interval_command_example :
    (q : Packet) × (encode (interval_command 1 60) ≡ ok (q, success))
    × (take q.len q.buf
        ≡ codes "#S,W,2," ++ (decimal 1 ++ (codes "d," ++ (decimal 60 ++ codes "d;"))))
encode-interval_command_example = encode-interval_command 1 60 (omega arith) (omega arith)

abbrev kernel : Kernel
kernel = record {
  open_dot = some 3;
  chdir_sysfs = true;
  stat_class = directory;
  fchdir_back = true;
  chdir_dev = false;
  stat_node = λ d. char_device;
  access_node = λ d. true;
  open_node = λ d. some 4;
  fchdir_done = true;
  close_dot = true;
}

open_device-Leaves_example :
    Leaves kernel (open_device kernel 0) × Ends kernel 0 (open_device kernel 0)
open_device-Leaves_example = open_device-Leaves kernel 0

abbrev bare_interval : State
bare_interval = record start_state { options = enable_long_option (index interval) none none_given }

wu_check_store-missing_example : wu_check_store interval bare_interval ≡ fault
unfolding read_options
wu_check_store-missing_example =
    wu_check_store-missing interval start_state bare_interval (inl refl) refl refl refl

abbrev call : Call
call = record {
  oml_started = false;
  events = short b'q' none ∷ long 3 none ∷ [];
  operands = codes "ttyUSB0" ∷ [];
  kernel = kernel;
  terminal_got = true;
  terminal_set = true;
}

abbrev parsed_state : State
parsed_state = record start_state {
  options =
      enable_long_option 3 none (enable_short_option wu_options b'q' none start_state.options);
  device = codes "ttyUSB0";
  fields = enable_all_fields start_state.fields;
}

call_parsed : parse_args call.events call.operands start_state ≡ ok (returned success, parsed_state)
unfolding parse_args
call_parsed = refl

main-decided_settings_example :
    main 5 call start_state
    ≡ run_device 5 call (record parsed_state { settings = decided_settings parsed_state })
main-decided_settings_example = main-decided_settings 5 call start_state parsed_state call_parsed

abbrev reading : Packet
reading = record {
  cmd = b'd';
  sub_cmd = b'-';
  count = 18;
  buf = replicate wu_strlen 0;
  len = 0;
  field = replicate 18 (literal (codes "1200"));
  label = [];
}

get_elem?-replicate : {A : Type 0} (n i : ℕ) (a : A) → i < n → get_elem? (replicate n a) i ≡ some a
get_elem?-replicate zero i a h = absurd (omega arith)
get_elem?-replicate (suc n) zero a h = refl
get_elem?-replicate (suc n) (suc i) a h = get_elem?-replicate n i a (omega arith)

reading-texts : (i : ℕ) → i < wu_num_fields → field_text reading i ≡ ok (codes "1200")
unfolding field_text pointer_text
reading-texts i h = rw (get_elem?-replicate 18 i (literal (codes "1200")) h) refl

report_packet_filter-samples_example :
    report_packet_filter reading start_state
    ≡ ok (
      tt,
      record start_state {
        actions =
            start_state.actions
            ++ map injected
                (samples (groups start_state.world (value_at start_state (λ i. codes "1200"))));
      },
    )
unfolding enable_all_fields
report_packet_filter-samples_example =
    report_packet_filter-samples start_state reading (λ i. codes "1200") refl reading-texts

abbrev four_numbers : Bytes
four_numbers = codes "90,120,500,3"

abbrev with_user : State
with_user = record start_state {
  options = enable_long_option (index user) (some four_numbers) none_given;
}

wu_store_user-fault_example : wu_store_user with_user ≡ fault
unfolding enable_long_option wu_option_value scan skip_to_digit
wu_store_user-fault_example = wu_store_user-fault 3 four_numbers with_user (omega arith) refl (
  codes "120,500,3",
  refl,
  refl,
  (codes "500,3", refl, refl, (codes "3", refl, refl, (refl, tt))),
)
