-- ===== src/Otg/Component.antt =====
-- The options that otg2 gives to popt: the tables of its components (otg2/lib/core/component.cpp and
-- the `defOpts` of each), and those of the programs otg2 and otr2 (otg2/lib/app). The variables that
-- the options set are left out.
pub mod Names
use soml_apps.Common.{
  ℕ, suc, ◌+◌, Option, none, some, List, [], ◌∷◌, ◌++◌, ltb, if◌then◌else◌, length,
}
use soml_apps.Clib.Run.{Run, ok, fault, ◌>>=◌}
use soml_apps.Clib.Text.{Bytes, codes}
use soml_apps.Otg.Application.{
  OutPort, udp_out, null_out, InPort, udp_in, create_out_port, create_in_port,
}
use soml_apps.Otg.Generator.{Kind, cbr, expo, create}

-- `argInfo`, without POPT_ARGFLAG_SHOW_DEFAULT, which all options of components have.
pub data ArgInfo : Type 0 where
  no_arg string_arg optional_string int_arg float_arg : ArgInfo

-- `struct poptOption`, but for an included table; a short name of 0 is none.
pub record PoptOption : Type 0 where
  pub long_name : Bytes
  pub short_name : ℕ
  pub arg_info : ArgInfo
  pub val : ℕ
  pub descrip : Bytes
  pub arg_descrip : Option Bytes

-- What has options: a stream, a generator, or a port.
pub data Component : Type 0 where
  stream : Component
  generator : Kind → Component
  out_port : OutPort → Component
  in_port : InPort → Component

-- `getNamespace`
abbrev pub get_namespace : Component → Bytes
get_namespace stream = codes "flow"
get_namespace (generator cbr) = codes "cbr"
get_namespace (generator expo) = codes "exp"
get_namespace (out_port udp_out) = codes "udp"
get_namespace (out_port null_out) = codes "null"
get_namespace (in_port udp_in) = codes "udp"

-- `defOpt`, on the options that are there: a table has memory for 20, and the last one, of zeros, ends
-- it for popt.
unfoldable pub def_opt :
    Bytes → Bytes → ArgInfo → Bytes → Option Bytes → List PoptOption → Run (List PoptOption)
def_opt namespace name info descrip arg_descrip opts =
    let o : PoptOption = record {
      long_name = namespace ++ (b':' ∷ name);
      short_name = 0;
      arg_info = info;
      val = 0;
      descrip = descrip;
      arg_descrip = arg_descrip;
    } in
    if ltb (suc (length opts)) 20 then ok (opts ++ o ∷ []) else fault

-- `Socket::defOpts`
unfoldable pub socket_opts : Bytes → List PoptOption → Run (List PoptOption)
unfolding def_opt
socket_opts ns opts = do
  local_host ←
      def_opt ns (codes "local_host") string_arg (codes "Name of local host")
        (some (codes "[name]")) opts
  local_port ←
      def_opt ns (codes "local_port") int_arg (codes "Local port to bind to") none local_host
  dst_host ←
      def_opt ns (codes "dst_host") string_arg (codes "Name of destination host")
        (some (codes "[name]")) local_port
  def_opt ns (codes "dst_port") int_arg (codes "Destination port to send to") none dst_host

-- `Stream::defOpts`
unfoldable pub stream_opts : Run (List PoptOption)
unfolding def_opt
stream_opts = def_opt (get_namespace stream) (codes "id") int_arg (codes "ID of flow") none []

-- `CBR_Generator::defOpts`
unfoldable pub cbr_opts : Run (List PoptOption)
unfolding def_opt
cbr_opts = do
  let ns = get_namespace (generator cbr)
  size ← def_opt ns (codes "size") int_arg (codes "Size of packet") (some (codes "Bytes")) []
  interval ←
      def_opt ns (codes "interval") float_arg (codes "Interval between consecutive packets")
        (some (codes "milliseconds")) size
  def_opt ns (codes "rate") float_arg (codes "Data rate of the flow") (some (codes "kbps")) interval

-- `Expo_Generator::defOpts`
unfoldable pub expo_opts : Run (List PoptOption)
unfolding def_opt
expo_opts = do
  let ns = get_namespace (generator expo)
  size ← def_opt ns (codes "size") int_arg (codes "Size of packet") (some (codes "Bytes")) []
  ontime ←
      def_opt ns (codes "ontime") float_arg (codes "Average length of burst")
        (some (codes "milliseconds")) size
  offtime ←
      def_opt ns (codes "offtime") float_arg (codes "Average length of idle time")
        (some (codes "milliseconds")) ontime
  def_opt ns (codes "rate") float_arg (codes "Data rate of the flow") (some (codes "kbps")) offtime

-- `UDPOutPort::defOpts`
unfoldable pub udp_out_opts : Run (List PoptOption)
unfolding def_opt socket_opts
udp_out_opts = do
  let ns = get_namespace (out_port udp_out)
  socket ← socket_opts ns []
  broadcast ←
      def_opt ns (codes "broadcast") int_arg (codes "Use UDP broadcast") (some (codes "on|off"))
        socket
  def_opt ns (codes "nonblock") string_arg (codes "Use Non-blocking UDP") (some (codes "on|off"))
      broadcast

-- `defOpts` of all components.
unfoldable pub def_opts : Component → Run (List PoptOption)
unfolding stream_opts cbr_opts expo_opts udp_out_opts socket_opts
def_opts stream = stream_opts
def_opts (generator cbr) = cbr_opts
def_opts (generator expo) = expo_opts
def_opts (out_port udp_out) = udp_out_opts
def_opts (out_port null_out) = ok []
def_opts (in_port udp_in) = socket_opts (get_namespace (in_port udp_in)) []

-- `getOptions`, with the table that there is already.
unfoldable pub get_options : Option (List PoptOption) → Component → Run (List PoptOption)
unfolding def_opts
get_options none c = def_opts c
get_options (some opts) c = ok opts

-- What `OTG::OTG` and `OTR::OTR` say of the options that name the sender and the source.
pub record Info : Type 0 where
  pub long_name : Bytes
  pub short_name : ℕ
  pub descrip : Bytes
  pub arg_descrip : Bytes

-- The programs otg2 and otr2.
pub data Role : Type 0 where
  otg otr : Role

abbrev pub sender_info : Role → Info
sender_info otg = record {
  long_name = codes "protocol";
  short_name = b'p';
  descrip = codes "Protocol to use to send packet";
  arg_descrip = codes "udp|null";
}
sender_info otr = record {
  long_name = codes "protocol";
  short_name = b'p';
  descrip = codes "Protocol to use to send packet";
  arg_descrip = codes "udp";
}

abbrev pub source_info : Role → Info
source_info otg = record {
  long_name = codes "generator";
  short_name = b'g';
  descrip = codes "Generator producing packets";
  arg_descrip = codes "cbr|expo";
}
source_info otr = record {
  long_name = codes "sink";
  short_name = b'g';
  descrip = codes "What to do with received packets";
  arg_descrip = codes "udp|null";
}

-- The names of the sender and of the source if the command line names none.
abbrev pub default_sender : Role → Bytes
default_sender otg = codes "udp"
default_sender otr = codes "null"

abbrev pub default_source : Role → Bytes
default_source otg = codes "cbr"
default_source otr = codes "udp"

kind_component : Option Kind → Option Component
kind_component none = none
kind_component (some k) = some (generator k)

in_component : Option InPort → Option Component
in_component none = none
in_component (some p) = some (in_port p)

out_component : Option OutPort → Option Component
out_component none = none
out_component (some p) = some (out_port p)

-- `createSource` and `createSender`
unfoldable pub create_source : Role → Bytes → Option Component
unfolding kind_component in_component create create_in_port
create_source otg name = kind_component (create name)
create_source otr name = in_component (create_in_port name)

unfoldable pub create_sender : Role → Bytes → Option Component
unfolding out_component create_out_port
create_sender role name = out_component (create_out_port name)

first_of : Option Component → Option Component → Option Component
first_of (some c) d = some c
first_of none d = d

options_of : Option Component → Run (Option (List PoptOption))
unfolding get_options
options_of none = ok none
options_of (some c) = do opts ← get_options none c; ok (some opts)

-- `getComponentOptions`: `none` where no source and no sender has the name.
unfoldable pub get_component_options : Role → Bytes → Run (Option (List PoptOption))
unfolding create_source create_sender first_of options_of
get_component_options role name =
    options_of (first_of (create_source role name) (create_sender role name))

-- `setSenderInfo` and `setSourceInfo`
abbrev named : Info → PoptOption
named info = record {
  long_name = info.long_name;
  short_name = info.short_name;
  arg_info = string_arg;
  val = 0;
  descrip = info.descrip;
  arg_descrip = some (info.arg_descrip);
}

abbrev option : Bytes → ℕ → ArgInfo → ℕ → Bytes → Option Bytes → PoptOption
option long short info val descrip arg = record {
  long_name = long;
  short_name = short;
  arg_info = info;
  val = val;
  descrip = descrip;
  arg_descrip = arg;
}

abbrev help : PoptOption
help =
    option (codes "help") b'h' optional_string 99 (codes "Show help") (some (codes "[component]"))

-- The table of the second phase, with the tables that it includes in their places.
unfoldable pub phase2 : Role → Component → Component → Run (List PoptOption)
unfolding get_options
phase2 role sender source = do
  sender_options ← get_options none sender
  source_options ← get_options none source
  stream_options ← get_options none stream
  ok (
      help ∷ sender_options
      ++ source_options
      ++ named (sender_info role) ∷ named (source_info role) ∷ stream_options
      ++ option (codes "debug-level") b'd' int_arg 0 (codes "Debug level - error:-2 .. debug: 1-3")
          (some (codes "FIXED"))
        ∷ option (codes "logfile") b'l' string_arg 0 (codes "File to log to") (some (codes "FIXED"))
        ∷ option (codes "version") b'v' no_arg 118 (codes "Print version information and exit")
            (some (codes "FIXED"))
        ∷ option (codes "exit") 0 no_arg 1 (codes "Stop the generator and exit") none
        ∷ option (codes "pause") 0 no_arg 2 (codes "pause the generator and exit") none
        ∷ option (codes "resume") 0 no_arg 3 (codes "resume the generator") none
        ∷ [])
