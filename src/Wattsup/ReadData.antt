-- ===== src/Wattsup/ReadData.antt =====
-- `wu_stop_log` and the loop `wu_read_data` of wattsup/wattsup.c. The loop takes fuel; how it ends
-- is returned beside the state, where the source returns 0 in any case.
pub mod Reset
pub mod Ends
pub mod Counts
use soml_apps.Common.{ℕ, zero, suc, Bool, true, not, ◌&&◌, [], ◌∷◌, ltb, ◌==◌, if◌then◌else◌}
use soml_apps.Common.Int.{is_nat}
use soml_apps.Clib.Run.{ok, Status, is_failed}
use soml_apps.Clib.Text.{codes}
use soml_apps.Wattsup.Packet.{Packet, packet}
use soml_apps.Wattsup.State.{Prog, slept, ◌>>=◌, ◌>>◌, pure, get, act, when}
use soml_apps.Wattsup.Device.{wu_read, exchange, stop_log_packet, wu_start_log, wu_clear, labels}
use soml_apps.Wattsup.Print.{print_packet, print_packet_filter}
use soml_apps.Wattsup.Report.{report_packet_filter}

unfoldable pub wu_stop_log : Prog Status
unfolding exchange stop_log_packet print_packet
wu_stop_log = do
  (q, status) ← exchange true stop_log_packet
  s ← get
  when (s.settings.final && not (is_failed status))
      (print_packet q (codes "Final Time Stamp and Interval"))
  pure status

-- Why the loop ended.
pub data End : Type 0 where
  stopped gave_up counted out_of_fuel : End

abbrev pub wu_max_retry : ℕ
wu_max_retry = 2

-- The next test of `stop_loop`, which a signal sets.
unfoldable pub next_stop : Prog Bool
next_stop s = ok (s.world.stop_loop s.tests_done, record s { tests_done = suc s.tests_done })

-- `sleep(wu_interval)`
abbrev pub sleep_interval : Prog (Unit {0})
sleep_interval = do s ← get; act (slept s.settings.interval)

-- The reset after a second bad record.
unfoldable pub reset_device : Prog (Unit {0})
unfolding wu_stop_log wu_clear wu_start_log
reset_device = do a ← wu_stop_log; b ← wu_clear; c ← wu_start_log; pure tt

-- A good record.
unfoldable pub show_record : Packet → Prog (Unit {0})
unfolding print_packet_filter report_packet_filter
show_record p = do
  print_packet_filter p
  s ← get
  when s.settings.oml_enabled (report_packet_filter p)

-- After a bad record: again, again with a reset in front, or no more; `rest` is the loop from its
-- next round on, by the new count of retries.
unfoldable pub after_bad : (ℕ → Prog End) → ℕ → Prog End
unfolding reset_device
after_bad rest retry =
    let again = (do sleep_interval; rest (suc retry)) in
    let reset = (do reset_device; sleep_interval; rest (suc retry)) in
    if ltb (suc retry) wu_max_retry
    then again
    else if suc retry == wu_max_retry
    then reset
    else pure gave_up

-- After a good record; `rest` takes the new number of records, which counts only where `wu_count`
-- is set.
unfoldable pub after_good : (ℕ → Prog End) → ℕ → Packet → Prog End
unfolding show_record
after_good rest i p = do
  show_record p
  s ← get
  let counting = not (is_nat s.settings.count 0)
  let i' : ℕ = (if counting then suc i else i)
  let next = (do sleep_interval; rest i')
  if counting && is_nat s.settings.count i' then pure counted else next

-- The loop, from its test on.
unfoldable pub read_loop : ℕ → ℕ → ℕ → Packet → Prog End
unfolding next_stop wu_read after_bad after_good
read_loop zero retry i p = pure out_of_fuel
read_loop (suc fuel) retry i p = do
  stop ← next_stop
  let go_on = (do
    (q, status) ← wu_read p
    let bad = after_bad (λ r. read_loop fuel r i q) retry
    let good = after_good (λ j. read_loop fuel 0 j q) i q
    if is_failed status then bad else good)
  if stop then pure stopped else go_on

unfoldable pub data_packet : Packet
data_packet = packet 0 0 0 [] (
    labels (
      codes "watts"
      ∷ codes "volts"
      ∷ codes "amps"
      ∷ codes "watt hours"
      ∷ codes "cost"
      ∷ codes "mo. kWh"
      ∷ codes "mo. cost"
      ∷ codes "max watts"
      ∷ codes "max volts"
      ∷ codes "max amps"
      ∷ codes "min watts"
      ∷ codes "min volts"
      ∷ codes "min amps"
      ∷ codes "power factor"
      ∷ codes "duty cycle"
      ∷ codes "power cycle"
      ∷ codes "line frequency"
      ∷ codes "apparent power"
      ∷ []))

unfoldable pub wu_read_data : ℕ → Prog End
unfolding read_loop data_packet
wu_read_data fuel = read_loop fuel 0 0 data_packet
