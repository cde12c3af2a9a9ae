-- ===== src/Wattsup/ReadData/Ends.antt =====
-- The loop `wu_read_data` of wattsup/wattsup.c ends, once a signal has set `stop_loop`.
use soml_apps.Common.{
  ℕ, zero, suc, ◌+◌, ◌<◌, ◌≡◌, ◌≢◌, refl, ap, ◌∙◌, true, false, not, ◌&&◌, arith, ltb, ◌==◌,
  if◌then◌else◌, Bool-cases, inl, inr,
}
use soml_apps.Common.Int.{is_nat}
use soml_apps.Clib.Run.{is_failed}
use soml_apps.Wattsup.Packet.{Packet}
use soml_apps.Wattsup.State.{State, Settings, Prog, ◌>>=◌, ◌>>◌, get, when, slept}
use soml_apps.Wattsup.State.Returns.{Returns, bind, Keeps, Runs, then-Runs, act-Runs, when-Runs}
use soml_apps.Wattsup.Device.{wu_read}
use soml_apps.Wattsup.Device.Safe.{IsSized, IsFair, Readable, wu_read-Returns}
use soml_apps.Wattsup.Print.{print_packet_filter}
use soml_apps.Wattsup.Print.Safe.{CanPrint, CanPrint-Keeps, print_packet_filter-Runs}
use soml_apps.Wattsup.Report.{report_packet_filter}
use soml_apps.Wattsup.ReadData.{
  End, stopped, gave_up, counted, out_of_fuel, wu_max_retry, next_stop, sleep_interval,
  reset_device, show_record, after_bad, after_good, read_loop,
}
use soml_apps.Wattsup.ReadData.Reset.{reset_device-Runs}

-- A measurement with no labels, no final record and no OML, whose device is fair.
pub record CanMeasure (s : State) : Type 0 where
  pub fair : IsFair s.world
  pub print : CanPrint s
  pub no_final : s.settings.final ≡ false
  pub no_oml : s.settings.oml_enabled ≡ false

pub CanMeasure-Keeps : {s t : State} → Keeps s t → CanMeasure s → CanMeasure t
CanMeasure-Keeps k c = record {
  fair = rw k.world c.fair;
  print = CanPrint-Keeps k c.print;
  no_final = ap (λ (x : Settings). x.final) k.settings ∙ c.no_final;
  no_oml = ap (λ (x : Settings). x.oml_enabled) k.settings ∙ c.no_oml;
}

-- The test of `stop_loop` that comes after `k` more finds it set.
abbrev pub StopsAt : State → ℕ → Type 0
StopsAt s k = s.world.stop_loop (s.tests_done + k) ≡ true

StopsAt-Keeps : {s t : State} (k : ℕ) → Keeps s t → StopsAt s k → StopsAt t k
StopsAt-Keeps n k c = rw (k.world, k.tests) c

-- The loop ends from this state on, other than for want of fuel.
abbrev Ends : Prog End → State → Type 0
Ends m s = Returns m s (λ e t. e ≢ out_of_fuel)

-- What the loop does from its next round on, in every state that a round can leave.
abbrev Rest : ℕ → Prog End → Type 0
Rest k m = (t : State) → CanMeasure t → StopsAt t k → Ends m t

pub sleep_interval-Runs : (s : State) → Runs sleep_interval s
sleep_interval-Runs s = act-Runs (slept s.settings.interval) s

pub show_record-Runs : (p : Packet) (s : State) → Readable p → CanMeasure s → Runs (show_record p) s
unfolding show_record
show_record-Runs p s readable can =
    then-Runs (print_packet_filter p)
      (do s ← get; when s.settings.oml_enabled (report_packet_filter p)) s
      (print_packet_filter-Runs p s readable can.print)
      (λ t k.
        when-Runs t.settings.oml_enabled (report_packet_filter p) t
          (λ on. let off = (CanMeasure-Keeps k can).no_oml in cc))

after_sleep-Ends :
    (k : ℕ) (m : Prog End) (s : State)
    → Rest k m
    → CanMeasure s
    → StopsAt s k
    → Ends (do sleep_interval; m) s
after_sleep-Ends k m s rest can stop =
    bind sleep_interval (λ a. m) s (sleep_interval-Runs s)
      (λ a t l. rest t (CanMeasure-Keeps l can) (StopsAt-Keeps k l stop))

after_bad-Ends :
    (k : ℕ) (m : ℕ → Prog End) (retry : ℕ) (s : State)
    → ((r : ℕ) → Rest k (m r))
    → CanMeasure s
    → StopsAt s k
    → Ends (after_bad m retry) s
unfolding after_bad
after_bad-Ends k m retry s rest can stop = elim (Bool-cases (ltb (suc retry) wu_max_retry)) [
  | inl few ↦ rw few (after_sleep-Ends k (m (suc retry)) s (rest (suc retry)) can stop)
  | inr many ↦ rw many (elim (Bool-cases (suc retry == wu_max_retry)) [
    | inl second ↦ rw second (
        bind reset_device (λ a. do sleep_interval; m (suc retry)) s
          (reset_device-Runs s can.fair can.no_final)
          (λ a t l.
            after_sleep-Ends k (m (suc retry)) t (rest (suc retry)) (CanMeasure-Keeps l can)
              (StopsAt-Keeps k l stop)))
    | inr third ↦ rw third (gave_up, s, refl, λ e. cc)
  ])
]

after_good-Ends :
    (k : ℕ) (m : ℕ → Prog End) (i : ℕ) (q : Packet) (s : State)
    → ((j : ℕ) → Rest k (m j))
    → Readable q
    → CanMeasure s
    → StopsAt s k
    → Ends (after_good m i q) s
unfolding after_good
after_good-Ends k m i q s rest readable can stop =
    bind (show_record q) _ s (show_record-Runs q s readable can) (λ a t l.
      let counting = not (is_nat t.settings.count 0) in
      let i' : ℕ = if counting then suc i else i in
      elim (Bool-cases (counting && is_nat t.settings.count i')) [
        | inl last ↦ (counted, t, rw last refl, λ e. cc)
        | inr more ↦ rw more (
            after_sleep-Ends k (m i') t (rest i') (CanMeasure-Keeps l can) (StopsAt-Keeps k l stop))
      ])

round-Ends :
    (k retry i : ℕ) (m : ℕ → ℕ → Packet → Prog End) (p : Packet) (s : State)
    → ((r j : ℕ) (q : Packet) → IsSized q → Rest k (m r j q))
    → IsSized p
    → CanMeasure s
    → StopsAt s k
    → Ends
        (do
          (q, status) ← wu_read p
          let bad = after_bad (λ r. m r i q) retry
          let good = after_good (λ j. m 0 j q) i q
          if is_failed status then bad else good)
        s
round-Ends k retry i m p s rest z can stop =
    bind (wu_read p) _ s (wu_read-Returns p s z can.fair) (λ r t res.
      let can_t = CanMeasure-Keeps res.keeps can in
      let stop_t = StopsAt-Keeps k res.keeps stop in
      elim (Bool-cases (is_failed r.1)) [
        | inl bad ↦
            rw bad
              (after_bad-Ends k (λ n. m n i r.0) retry t (λ n. rest n i r.0 res.sized) can_t stop_t)
        | inr good ↦ rw good (
            after_good-Ends k (λ j. m 0 j r.0) i r.0 t (λ j. rest 0 j r.0 res.sized)
              (res.readable good) can_t stop_t)
      ])

-- With a fair device, a table of 18 columns, numbers that are printed with no `%`, no labels, no
-- final record and OML off: the loop returns, with no fault and for another reason than that its
-- fuel is used up, if `stop_loop` is set by some test that is less than the fuel ahead.
pub read_loop-Ends :
    (fuel k retry i : ℕ) (p : Packet) (s : State)
    → k < fuel
    → IsSized p
    → CanMeasure s
    → StopsAt s k
    → Ends (read_loop fuel retry i p) s
unfolding read_loop next_stop
read_loop-Ends zero k retry i p s lt z can stop = absurd (omega arith)
read_loop-Ends (suc fuel) zero retry i p s lt z can stop =
    let here : s.tests_done + 0 ≡ s.tests_done = omega arith in
    let now : s.world.stop_loop s.tests_done ≡ true = rw here at stop in
    (stopped, record s { tests_done = suc s.tests_done }, rw now refl, λ e. cc)
read_loop-Ends (suc fuel) (suc k) retry i p s lt z can stop =
    elim (Bool-cases (s.world.stop_loop s.tests_done)) [
      | inl now ↦ (stopped, record s { tests_done = suc s.tests_done }, rw now refl, λ e. cc)
      | inr later ↦
          let t = record s { tests_done = suc s.tests_done } in
          let place : s.tests_done + suc k ≡ suc s.tests_done + k = omega arith in
          let (e, u, run, ends) =
            round-Ends k retry i (λ r j q. read_loop fuel r j q) p t
              (λ r j q z' u can_u stop_u.
                read_loop-Ends fuel k r j q u (omega arith) z' can_u stop_u)
              z
              (record {
                fair = can.fair;
                print = record {
                  no_labels = can.print.no_labels;
                  size = can.print.size;
                  numbers = can.print.numbers;
                };
                no_final = can.no_final;
                no_oml = can.no_oml;
              })
              (rw place at stop) in
          (e, u, rw later run, ends)
    ]
