-- ===== src/Nmetrics.antt =====
-- `run` of nmetrics/nmetrics.c: what is injected about the processor, the memory and the monitored
-- interfaces. What sigar answers is given by the number of the round.
pub mod Differences
use soml_apps.Common.{
  ℕ, zero, suc, ◌+◌, ◌-◌, ◌/◌, ◌%◌, Bool, true, false, List, [], ◌∷◌, ◌++◌, if◌then◌else◌, ltb,
  ◌&&◌, ◌||◌, take, length,
}
use soml_apps.Clib.Run.{Run, ok, fault}
use soml_apps.Clib.Text.{Bytes}

-- The counters of `sigar_net_interface_stat_t` that are used.
pub record Stat : Type 0 where
  pub rx_packets : ℕ
  pub rx_bytes : ℕ
  pub rx_errors : ℕ
  pub rx_dropped : ℕ
  pub rx_overruns : ℕ
  pub rx_frame : ℕ
  pub tx_packets : ℕ
  pub tx_bytes : ℕ
  pub tx_errors : ℕ
  pub tx_dropped : ℕ
  pub tx_overruns : ℕ
  pub tx_collisions : ℕ
  pub tx_carrier : ℕ
  pub speed : ℕ

-- `if_monitor_t`; `start` holds the fields `start_rx_packets` to `start_tx_carrier`, and
-- `next` is the rest of the list.
pub record IfMonitor : Type 0 where
  pub if_name : Bytes
  pub not_first : Bool
  pub start : Stat

-- One row of each measurement point.
pub data Row : Type 0 where
  cpu : List ℕ → Row
  memory : List ℕ → Row
  network : Bytes → List ℕ → Row

pub record World : Type 0 where
  pub cpu_get : ℕ → List ℕ
  pub mem_get : ℕ → List ℕ
  pub stat_get : ℕ → Bytes → Stat
  pub stop_loop : ℕ → Bool

pub record Opts : Type 0 where
  pub report_cpu : Bool
  pub report_memory : Bool

-- Subtraction of 64-bit counters.
abbrev pub subtract : ℕ → ℕ → ℕ
subtract a b = (a + (18446744073709551616 - b)) % 18446744073709551616

-- The start of a monitor that has none yet.
unfoldable pub started : Stat → IfMonitor → IfMonitor
started is m = if m.not_first then m else record m { not_first = true; start = is }

-- The values of `oml_inject_network`; `tx_carrier` is not made a difference.
abbrev pub network_values : Stat → Stat → List ℕ
network_values is start =
    subtract is.rx_packets start.rx_packets
    ∷ subtract is.rx_bytes start.rx_bytes
    ∷ subtract is.rx_errors start.rx_errors
    ∷ subtract is.rx_dropped start.rx_dropped
    ∷ subtract is.rx_overruns start.rx_overruns
    ∷ subtract is.rx_frame start.rx_frame
    ∷ subtract is.tx_packets start.tx_packets
    ∷ subtract is.tx_bytes start.tx_bytes
    ∷ subtract is.tx_errors start.tx_errors
    ∷ subtract is.tx_dropped start.tx_dropped
    ∷ subtract is.tx_overruns start.tx_overruns
    ∷ subtract is.tx_collisions start.tx_collisions
    ∷ is.tx_carrier
    ∷ is.speed / 1000000
    ∷ []

abbrev pub network_row : Stat → IfMonitor → Row
network_row is m = network m.if_name (network_values is m.start)

-- The loop over the interfaces: the monitors after it, and its rows.
unfoldable pub monitor_all : (Bytes → Stat) → List IfMonitor → List IfMonitor × List Row
unfolding started
monitor_all stat_get [] = ([], [])
monitor_all stat_get (m ∷ ms) =
    let is = stat_get m.if_name in
    let (rest, rows) = monitor_all stat_get ms in
    (started is m ∷ rest, network_row is (started is m) ∷ rows)

-- The rows of one round, in front of those of the interfaces.
abbrev pub system_rows : World → Opts → ℕ → List Row
system_rows w opts round =
    (if opts.report_cpu then cpu (w.cpu_get round) ∷ [] else [])
    ++ (if opts.report_memory then memory (w.mem_get round) ∷ [] else [])

-- The loop from round `round` on, for at most this many rounds: the monitors and what has been
-- injected.
unfoldable pub run : ℕ → World → Opts → ℕ → List IfMonitor → List IfMonitor × List Row
unfolding monitor_all
run zero w opts round ms = (ms, [])
run (suc fuel) w opts round ms =
    let (ms', rows) = monitor_all (w.stat_get round) ms in
    let (last, later) = run fuel w opts (suc round) ms' in
    if w.stop_loop round then (ms, []) else (last, system_rows w opts round ++ rows ++ later)

-- `memset` of a monitor.
abbrev pub no_stat : Stat
no_stat = record {
  rx_packets = 0;
  rx_bytes = 0;
  rx_errors = 0;
  rx_dropped = 0;
  rx_overruns = 0;
  rx_frame = 0;
  tx_packets = 0;
  tx_bytes = 0;
  tx_errors = 0;
  tx_dropped = 0;
  tx_overruns = 0;
  tx_collisions = 0;
  tx_carrier = 0;
  speed = 0;
}

-- The list of monitors, in front of which every option `-i` puts one. A name is cut at 64 bytes.
unfoldable pub monitors : List IfMonitor → List Bytes → List IfMonitor
monitors first [] = first
monitors first (name ∷ names) =
    monitors (record { if_name = take 64 name; not_first = false; start = no_stat } ∷ first) names

-- Whether all names are ended by a NUL in their arrays of 64 bytes.
abbrev pub are_ended : List IfMonitor → Bool
are_ended [] = true
are_ended (m ∷ ms) = ltb (length m.if_name) 64 && are_ended ms

-- `main`: whether `omlc_init` succeeds, and the interfaces that popt finds. It gives the exit status
-- and the rows; a round reads the name of every monitor up to its NUL.
unfoldable pub main : ℕ → Bool → List Bytes → World → Opts → Run (ℕ × List Row)
unfolding monitors run
main fuel initialised names w opts =
    let first = monitors [] names in
    let measured = ok (0, (run fuel w opts 0 first).1) in
    if initialised
    then (if w.stop_loop 0 || are_ended first then measured else fault)
    else ok (1, [])
