-- ===== src/Wattsup/ReadData/Counts.antt =====
-- The loop `wu_read_data` of wattsup/wattsup.c with a number of records to read.
use soml_apps.Common.{
  ℕ, zero, suc, ◌+◌, ◌<◌, ◌≡◌, ◌==◌, refl, ap, ◌∙◌, sym, subst, Bool, true, false, not, some, arith,
  if◌then◌else◌,
}
use soml_apps.Common.Int.{pos, is_nat}
use soml_apps.Clib.Run.{Run, ok, fault, Status, success, is_failed}
use soml_apps.Clib.Text.{Bytes, until_nul}
use soml_apps.Wattsup.Packet.{Packet}
use soml_apps.Wattsup.Parse.{parse_packet}
use soml_apps.Wattsup.Parse.Refines.{Agrees}
use soml_apps.Wattsup.Parse.Spec.{Message, message_of}
use soml_apps.Wattsup.State.{State, Settings, Prog, received, ReadEvent, ◌>>=◌}
use soml_apps.Wattsup.State.Returns.{Returns, bind, Keeps, Keeps-trans}
use soml_apps.Wattsup.Device.{wu_read, receive, filled, next_read}
use soml_apps.Wattsup.Device.Safe.{
  IsSized, Readable, FairBytes, ReadResult, wu_read-Returns, filled-Agrees,
}
use soml_apps.Wattsup.ReadData.{
  End, counted, next_stop, sleep_interval, show_record, after_bad, after_good, read_loop,
}
use soml_apps.Wattsup.ReadData.Ends.{
  CanMeasure, CanMeasure-Keeps, sleep_interval-Runs, show_record-Runs,
}

-- One read of the device brings a message.
pub record IsMessage (event : ReadEvent) : Type 0 where
  pub bytes : Bytes
  pub arrives : event ≡ received bytes
  pub fair : FairBytes bytes
  pub message : Message
  pub says : message_of (until_nul bytes) ≡ some message

receive-success :
    (p : Packet) (s : State) (event : ReadEvent)
    → IsSized p
    → IsMessage event
    → (q : Packet) × (receive p event s ≡ ok ((q, success), s))
unfolding receive
receive-success p s event z m =
    let (q, run, holds) : Agrees (some m.message) (parse_packet (filled m.bytes p)) =
      subst (λ o. Agrees o (parse_packet (filled m.bytes p))) m.says
        (filled-Agrees m.bytes p z m.fair).1 in
    (q, rw (m.arrives, run) refl)

wu_read-success :
    (p : Packet) (s : State)
    → IsSized p
    → IsMessage (s.world.reads s.reads_done)
    → (q : Packet) × (wu_read p s ≡ ok ((q, success), record s { reads_done = suc s.reads_done }))
unfolding wu_read next_read
wu_read-success p s z m = receive-success p (record s { reads_done = suc s.reads_done }) _ z m

failed_of : Run ((Packet × Status) × State) → Bool
failed_of (ok r) = is_failed r.0.1
failed_of fault = false

wu_read-Message :
    (p : Packet) (s : State)
    → IsSized p
    → CanMeasure s
    → IsMessage (s.world.reads s.reads_done)
    → Returns (wu_read p) s (λ r t. ReadResult r s t × (is_failed r.1 ≡ false))
unfolding failed_of
wu_read-Message p s z can m =
    let (r, t, run, result) = wu_read-Returns p s z can.fair in
    let (q, read) = wu_read-success p s z m in (r, t, run, (result, ap failed_of (sym run ∙ read)))

-- The number of records to read.
abbrev pub CountIs : State → ℕ → Type 0
CountIs s n = s.settings.count ≡ pos n

count-Keeps : {s t : State} (n : ℕ) → Keeps s t → CountIs s n → CountIs t n
count-Keeps n k c = ap (λ (x : Settings). x.count) k.settings ∙ c

after_good-last :
    (m : ℕ → Prog End) (i : ℕ) (q : Packet) (s : State)
    → Readable q
    → CanMeasure s
    → CountIs s (suc i)
    → Returns (after_good m i q) s (λ e t. (e ≡ counted) × Keeps s t)
unfolding after_good
after_good-last m i q s readable can count =
    bind (show_record q) _ s (show_record-Runs q s readable can) (λ a t l.
      let here = count-Keeps (suc i) l count in
      let apart : (suc i == 0) ≡ false = ground arith in
      let same : (suc i == suc i) ≡ true = ground arith in
      (counted, t, rw (here, apart, same) refl, (refl, l)))

nonzero : (n i : ℕ) → suc i < n → not (n == 0) ≡ true
nonzero n i h = ground arith

different : (n i : ℕ) → suc i < n → (n == suc i) ≡ false
different n i h = ground arith

after_good-more :
    (m : ℕ → Prog End) (i n : ℕ) (q : Packet) (s : State) {P : End → State → Type 0}
    → Readable q
    → CanMeasure s
    → CountIs s n
    → suc i < n
    → ((t : State) → Keeps s t → Returns (m (suc i)) t P)
    → Returns (after_good m i q) s P
unfolding after_good
after_good-more m i n q s readable can count more next =
    bind (show_record q) _ s (show_record-Runs q s readable can) (λ a t l.
      let here = count-Keeps n l count in
      let counting : not (is_nat t.settings.count 0) ≡ true =
        ap (λ c. not (is_nat c 0)) here ∙ nonzero n i more in
      let other : is_nat t.settings.count (suc i) ≡ false =
        ap (λ c. is_nat c (suc i)) here ∙ different n i more in
      let (e, u, run, p) =
        bind sleep_interval (λ b. m (suc i)) t (sleep_interval-Runs t)
          (λ b u k. next u (Keeps-trans l k)) in
      (e, u, rw (counting, other) run, p))

CanMeasure-tested :
    {s : State} → CanMeasure s → CanMeasure (record s { tests_done = suc s.tests_done })
CanMeasure-tested c = record {
  fair = c.fair;
  print = record { no_labels = c.print.no_labels; size = c.print.size; numbers = c.print.numbers };
  no_final = c.no_final;
  no_oml = c.no_oml;
}

-- A state from which a measurement of so many records runs through.
pub record CanCount (n : ℕ) (s : State) : Type 0 where
  pub measure : CanMeasure s
  pub count : CountIs s n
  pub no_signal : (k : ℕ) → s.world.stop_loop k ≡ false
  pub messages : (k : ℕ) → IsMessage (s.world.reads k)

CanCount-Keeps : {n : ℕ} {s t : State} → Keeps s t → CanCount n s → CanCount n t
CanCount-Keeps {n} {s} {t} k c = record {
  measure = CanMeasure-Keeps k c.measure;
  count = count-Keeps n k c.count;
  no_signal = rw k.world c.no_signal;
  messages = rw k.world c.messages;
}

round-counted :
    (m : ℕ → ℕ → Packet → Prog End) (left retry i n : ℕ) (p : Packet) (s : State)
    → i + suc left ≡ n
    → IsSized p
    → CanCount n s
    → ((left' : ℕ) (q : Packet) (t : State)
        → left ≡ suc left'
        → IsSized q
        → CanCount n t
        → t.tests_done ≡ s.tests_done
        → Returns (m 0 (suc i) q) t (λ e u. (e ≡ counted) × (u.tests_done ≡ t.tests_done + left)))
    → Returns
        (do
          (q, status) ← wu_read p
          let bad = after_bad (λ r. m r i q) retry
          let good = after_good (λ j. m 0 j q) i q
          if is_failed status then bad else good)
        s
        (λ e u. (e ≡ counted) × (u.tests_done ≡ s.tests_done + left))
round-counted m zero retry i n p s here z can next =
    bind (wu_read p) _ s (wu_read-Message p s z can.measure (can.messages s.reads_done))
      (λ r t (res, good).
        let can_t = CanCount-Keeps res.keeps can in
        let last : n ≡ suc i = omega arith in
        let (e, u, run, (is, k)) =
          after_good-last (λ j. m 0 j r.0) i r.0 t (res.readable good) can_t.measure
            (subst (λ c. CountIs t c) last can_t.count) in
        (e, u, rw good run, (is, omega (arith, k.tests, res.keeps.tests))))
round-counted m (suc left) retry i n p s here z can next =
    bind (wu_read p) _ s (wu_read-Message p s z can.measure (can.messages s.reads_done))
      (λ r t (res, good).
        let can_t = CanCount-Keeps res.keeps can in
        let (e, u, run, p) =
          after_good-more (λ j. m 0 j r.0) i n r.0 t
            {P = λ e u. (e ≡ counted) × (u.tests_done ≡ s.tests_done + suc left)}
            (res.readable good) can_t.measure can_t.count (omega arith)
            (λ u l.
              let (e, v, run, (is, tests)) =
                next left r.0 u refl res.sized (CanCount-Keeps l can_t)
                  (l.tests ∙ res.keeps.tests) in
              (e, v, run, (is, omega (arith, tests, l.tests, res.keeps.tests)))) in
        (e, u, rw good run, p))

-- With a fair device, a table of 18 columns, numbers that are printed with no `%`, no labels, no
-- final record and OML off: where no signal comes and every read brings a message, the loop returns
-- with no fault, by its count, after exactly the records that are left: it has tested `stop_loop`
-- once for each of them.
pub read_loop-counted :
    (fuel left retry i n : ℕ) (p : Packet) (s : State)
    → left < fuel
    → i + suc left ≡ n
    → IsSized p
    → CanCount n s
    → Returns
        (read_loop fuel retry i p)
        s
        (λ e t. (e ≡ counted) × (t.tests_done ≡ s.tests_done + suc left))
unfolding read_loop next_stop
read_loop-counted zero left retry i n p s lt here z can = absurd (omega arith)
read_loop-counted (suc fuel) left retry i n p s lt here z can =
    let t = record s { tests_done = suc s.tests_done } in
    let can_t : CanCount n t = record {
      measure = CanMeasure-tested can.measure;
      count = can.count;
      no_signal = can.no_signal;
      messages = can.messages;
    } in
    let (e, u, run, (is, tests)) =
      round-counted (λ r j q. read_loop fuel r j q) left retry i n p t here z can_t
        (λ left' q u more z' can_u same.
          let (e, v, run, (is, tests)) =
            read_loop-counted fuel left' 0 (suc i) n q u (omega arith) (omega arith) z' can_u in
          (e, v, run, (is, omega arith))) in
    (e, u, rw (can.no_signal s.tests_done) run, (is, omega arith))
