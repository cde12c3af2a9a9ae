-- ===== src/Otg/Application.antt =====
-- The command line and the console of otg2: otg2/lib/app/application.cpp, with the factories of
-- otg2/lib/generator and otg2/lib/port. What popt makes of a text is an argument.
pub mod Console
use soml_apps.Common.{
  ℕ, suc, ◌+◌, Bool, true, false, Option, none, some, List, [], ◌∷◌, ◌++◌, leb, ◌==◌, if◌then◌else◌,
  length,
}
use soml_apps.Clib.Run.{Run, ok, fault, ◌>>=◌}
use soml_apps.Clib.Text.{Bytes, codes, same_text}
use soml_apps.Otg.Clock.{UnixTime, pause_clock, resume_clock}
use soml_apps.Otg.Generator.{Kind, create}
use soml_apps.Otg.Stream.{Stream}

-- `Port::createOutPort` and `Port::createInPort`
pub data OutPort : Type 0 where
  udp_out null_out : OutPort

unfoldable pub create_out_port : Bytes → Option OutPort
unfolding same_text
create_out_port name =
    if same_text name (codes "udp")
    then some udp_out
    else if same_text name (codes "null")
    then some null_out
    else none

pub data InPort : Type 0 where
  udp_in : InPort

unfoldable pub create_in_port : Bytes → Option InPort
unfolding same_text
create_in_port name = if same_text name (codes "udp") then some udp_in else none

-- What `poptGetNextOpt` returns in the first phase.
pub data Flag : Type 0 where
  help_flag usage_flag version_flag bad_opt unknown_flag : Flag

-- `parseOptionsPhase1`: the exit status, or `none` where the program goes on.
unfoldable pub parse_options_phase1 : List Flag → Option ℕ
parse_options_phase1 [] = none
parse_options_phase1 (help_flag ∷ flags) = some 0
parse_options_phase1 (usage_flag ∷ flags) = some 0
parse_options_phase1 (version_flag ∷ flags) = some 0
parse_options_phase1 (bad_opt ∷ flags) = parse_options_phase1 flags
parse_options_phase1 (unknown_flag ∷ flags) = some 255

-- How far `Application::run` comes.
pub data Begun : Type 0 where
  exits : ℕ → Begun
  streams : Kind → OutPort → Begun

create_both : Bool → Option Kind → Option OutPort → Begun
create_both phase2_ok none sender = exits 255
create_both phase2_ok (some source) none = exits 255
create_both phase2_ok (some source) (some sender) =
    if phase2_ok then streams source sender else exits 255

begin_with : Option ℕ → Begun → Begun
begin_with none rest = rest
begin_with (some status) rest = exits status

-- `Application::run` of the generator, up to its stream: the flags of the first phase, the names of
-- the source and the sender, and whether the second phase finds no bad option.
unfoldable pub begin : List Flag → Bytes → Bytes → Bool → Begun
unfolding parse_options_phase1 create create_out_port create_both begin_with
begin flags source_name sender_name phase2_ok =
    begin_with (parse_options_phase1 flags)
      (create_both phase2_ok (create source_name) (create_out_port sender_name))

-- `pauseStream` and `resumeStream`
unfoldable pub pause_stream : ℕ → Stream × UnixTime → Stream × UnixTime
pause_stream now (s, clock) = (record s { paused = true }, (pause_clock now clock).1)

unfoldable pub resume_stream : ℕ → Stream × UnixTime → Stream × UnixTime
resume_stream now (s, clock) = (record s { paused = false }, (resume_clock now clock).1)

-- What `poptGetNextOpt` returns of a command: the options of the second phase.
pub data Command : Type 0 where
  stop pause resume other : Command

-- The text that popt is given: two dashes go in front of a command without.
unfoldable pub command_text : Bytes → Run Bytes
command_text [] = ok []
command_text (c ∷ cs) =
    if c == b'-'
    then ok (c ∷ cs)
    else if leb (2 + length (c ∷ cs) + 1) 256
    then ok (b'-' ∷ b'-' ∷ c ∷ cs)
    else fault

-- The loop over the options of a command; `none` is the end of the program.
unfoldable pub obey : ℕ → List Command → Stream × UnixTime → Option (Stream × UnixTime)
unfolding pause_stream resume_stream
obey now [] s = some s
obey now (stop ∷ commands) s = none
obey now (pause ∷ commands) s = obey now commands (pause_stream now s)
obey now (resume ∷ commands) s = obey now commands (resume_stream now s)
obey now (other ∷ commands) s = obey now commands s

-- What a command leads to: the end of the program, an exception, or the next command.
pub data Reply (G : Type 0) : Type 0 where
  ended : Reply G
  thrown : Reply G
  going : Stream × UnixTime → G → Reply G

updated : {G : Type 0} → Option (Stream × UnixTime) → Option G → Reply G
updated none g = ended
updated (some s) none = thrown
updated (some s) (some g) = going s g

-- `parseRuntimeOptions`: `popt` says which options a text holds, and `configure` what they make of
-- the components and their `update`, which may throw.
unfoldable pub parse_runtime_options :
    {G : Type 0}
    → (Bytes → List Command)
    → (Bytes → G → Option G)
    → ℕ
    → Bytes
    → Stream × UnixTime
    → G
    → Run (Reply G)
unfolding command_text obey updated
parse_runtime_options popt configure now [] s g = ok (going s g)
parse_runtime_options popt configure now (c ∷ cs) s g = do
  text ← command_text (c ∷ cs)
  ok (updated (obey now (popt text) s) (configure text g))
