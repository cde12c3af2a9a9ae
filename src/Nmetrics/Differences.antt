-- ===== src/Nmetrics/Differences.antt =====
-- What nmetrics/nmetrics.c injects about the interfaces in every round.
use soml_apps.Common.{
  ℕ, zero, suc, ◌+◌, ◌-◌, ◌/◌, ◌%◌, if◌then◌else◌, ◌<◌, ◌≡◌, refl, ap, Bool, true, false, List, [],
  ◌∷◌, ◌++◌, map, arith, length, lt→ltb, ◌||◌, take_all,
}
use soml_apps.Clib.Text.{Bytes}
use soml_apps.Nmetrics.{
  Stat, IfMonitor, Row, World, Opts, network, cpu, memory, started, monitor_all, run, no_stat,
  monitors, are_ended, main,
}
use soml_apps.Clib.Run.{ok}

-- The monitors before the first round.
abbrev pub fresh : Stat → List Bytes → List IfMonitor
fresh nothing names =
    map (λ name. record { if_name = name; not_first = false; start = nothing }) names

-- A monitor since a round: its start is what the interface said then.
abbrev pub since : (Bytes → Stat) → List Bytes → List IfMonitor
since first names =
    map (λ name. record { if_name = name; not_first = true; start = first name }) names

-- How far a 64-bit counter has gone on from a value.
abbrev pub difference : ℕ → ℕ → ℕ
difference now first = (now + (18446744073709551616 - first)) % 18446744073709551616

-- The row of an interface: its counters since the first round, the carrier losses in all, and the
-- speed in megabits.
abbrev pub row_since : (Bytes → Stat) → (Bytes → Stat) → Bytes → Row
row_since first now name =
    let a = first name in
    let b = now name in
    network name (
      difference b.rx_packets a.rx_packets
      ∷ difference b.rx_bytes a.rx_bytes
      ∷ difference b.rx_errors a.rx_errors
      ∷ difference b.rx_dropped a.rx_dropped
      ∷ difference b.rx_overruns a.rx_overruns
      ∷ difference b.rx_frame a.rx_frame
      ∷ difference b.tx_packets a.tx_packets
      ∷ difference b.tx_bytes a.tx_bytes
      ∷ difference b.tx_errors a.tx_errors
      ∷ difference b.tx_dropped a.tx_dropped
      ∷ difference b.tx_overruns a.tx_overruns
      ∷ difference b.tx_collisions a.tx_collisions
      ∷ b.tx_carrier
      ∷ b.speed / 1000000
      ∷ [])

-- What a round says of the processor and of the memory, if that is asked for.
abbrev pub asked : World → Opts → ℕ → List Row
asked w opts round =
    (if opts.report_cpu then cpu (w.cpu_get round) ∷ [] else [])
    ++ (if opts.report_memory then memory (w.mem_get round) ∷ [] else [])

monitor_all-fresh :
    (now : Bytes → Stat) (nothing : Stat) (names : List Bytes)
    → monitor_all now (fresh nothing names) ≡ (since now names, map (row_since now now) names)
unfolding monitor_all started
monitor_all-fresh now nothing [] = refl
monitor_all-fresh now nothing (n ∷ ns) = rw (monitor_all-fresh now nothing ns) refl

monitor_all-since :
    (first now : Bytes → Stat) (names : List Bytes)
    → monitor_all now (since first names) ≡ (since first names, map (row_since first now) names)
unfolding monitor_all started
monitor_all-since first now [] = refl
monitor_all-since first now (n ∷ ns) = rw (monitor_all-since first now ns) refl

-- The rows of some rounds with no signal, from one round on.
abbrev pub rows_of : World → Opts → (Bytes → Stat) → List Bytes → ℕ → ℕ → List Row
rows_of w opts first names zero round = []
rows_of w opts first names (suc k) round =
    asked w opts round
    ++ map (row_since first (w.stat_get round)) names
    ++ rows_of w opts first names k (suc round)

run-since :
    (fuel k : ℕ) (w : World) (opts : Opts) (first : Bytes → Stat) (names : List Bytes) (round : ℕ)
    → k < fuel
    → ((n : ℕ) → n < round + k → w.stop_loop n ≡ false)
    → w.stop_loop (round + k) ≡ true
    → (run fuel w opts round (since first names)).1 ≡ rows_of w opts first names k round
unfolding run
run-since zero k w opts first names round lt go_on stop = absurd (omega arith)
run-since (suc fuel) zero w opts first names round lt go_on stop =
    let here : round + 0 ≡ round = omega arith in
    let now : w.stop_loop round ≡ true = rw here at stop in rw now refl
run-since (suc fuel) (suc k) w opts first names round lt go_on stop =
    let place : round + suc k ≡ suc round + k = omega arith in
    rw (go_on round (omega arith), monitor_all-since first (w.stat_get round) names)
      (ap (λ rows. asked w opts round ++ map (row_since first (w.stat_get round)) names ++ rows)
        (run-since fuel k w opts first names (suc round) (omega arith)
          (λ n below. go_on n (omega arith)) (rw place at stop)))

-- Where the signal comes in round `k`, the loop ends with fuel for one round more than that, and
-- has injected the rows of the rounds before it, in order. The counters of an interface are
-- differences, modulo 2 ^ 64, to those of the first round, in which they are therefore 0, except
-- for `tx_carrier`, which is the total, and the speed, in megabits.
pub run-rows_of :
    (fuel k : ℕ) (w : World) (opts : Opts) (nothing : Stat) (names : List Bytes)
    → k < fuel
    → ((n : ℕ) → n < k → w.stop_loop n ≡ false)
    → w.stop_loop k ≡ true
    → (run fuel w opts 0 (fresh nothing names)).1 ≡ rows_of w opts (w.stat_get 0) names k 0
unfolding run
run-rows_of zero k w opts nothing names lt go_on stop = absurd (omega arith)
run-rows_of (suc fuel) zero w opts nothing names lt go_on stop = rw stop refl
run-rows_of (suc fuel) (suc k) w opts nothing names lt go_on stop =
    rw (go_on 0 (omega arith), monitor_all-fresh (w.stat_get 0) nothing names)
      (ap (λ rows. asked w opts 0 ++ map (row_since (w.stat_get 0) (w.stat_get 0)) names ++ rows)
        (run-since fuel k w opts (w.stat_get 0) names 1 (omega arith)
          (λ n below. go_on n (omega arith))
          (let place : suc k ≡ 1 + k = omega arith in rw place at stop)))

-- Names that fit into their arrays.
abbrev pub AreShort : List Bytes → Type 0
AreShort [] = Unit
AreShort (n ∷ ns) = (length n < 64) × AreShort ns

-- The names in the reverse order, in front of others.
abbrev pub reverse_onto : List Bytes → List Bytes → List Bytes
reverse_onto done [] = done
reverse_onto done (n ∷ ns) = reverse_onto (n ∷ done) ns

monitors-fresh :
    (done names : List Bytes)
    → AreShort names
    → monitors (fresh no_stat done) names ≡ fresh no_stat (reverse_onto done names)
unfolding monitors
monitors-fresh done [] s = refl
monitors-fresh done (n ∷ ns) s = rw (take_all n 64 s.0) (monitors-fresh (n ∷ done) ns s.1)

reverse_onto-AreShort :
    (done names : List Bytes) → AreShort done → AreShort names → AreShort (reverse_onto done names)
reverse_onto-AreShort done [] d s = d
reverse_onto-AreShort done (n ∷ ns) d s = reverse_onto-AreShort (n ∷ done) ns (s.0, d) s.1

are_ended-fresh : (names : List Bytes) → AreShort names → are_ended (fresh no_stat names) ≡ true
are_ended-fresh [] s = refl
are_ended-fresh (n ∷ ns) s = rw (lt→ltb (length n) 64 s.0) (are_ended-fresh ns s.1)

or_true : (b : Bool) → (b || true) ≡ true
or_true false = refl
or_true true = refl

-- With OML initialised, with interfaces whose names are shorter than 64 bytes, and where the signal
-- comes in round `k`, `main` of nmetrics.c ends with status 0 and has injected the rows of the
-- rounds before it: of the processor and the memory, if asked for, and of the interfaces in the
-- reverse order of the command line. Their counters are differences, modulo 2 ^ 64, to those of the
-- first round, but `tx_carrier` is the total, and the speed is in megabits.
pub main-rows_of :
    (fuel k : ℕ) (names : List Bytes) (w : World) (opts : Opts)
    → AreShort names
    → k < fuel
    → ((n : ℕ) → n < k → w.stop_loop n ≡ false)
    → w.stop_loop k ≡ true
    → main fuel true names w opts
      ≡ ok (0, rows_of w opts (w.stat_get 0) (reverse_onto [] names) k 0)
unfolding main
main-rows_of fuel k names w opts short enough go_on stop =
    let ended = are_ended-fresh (reverse_onto [] names) (reverse_onto-AreShort [] names tt short) in
    let rows = run-rows_of fuel k w opts no_stat (reverse_onto [] names) enough go_on stop in
    rw (monitors-fresh [] names short, ended, rows, or_true (w.stop_loop 0)) refl
