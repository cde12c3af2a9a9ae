-- ===== src/Otg/Stream/Numbers.antt =====
-- The packets that `Stream::_run` of otg2/lib/core/stream.cpp hands to its sender.
use soml_apps.Common.{
  ℕ, zero, suc, ◌+◌, ◌%◌, ◌<◌, ◌≤◌, ◌≡◌, refl, ap, ◌∙◌, true, false, Option, none, some, List, [],
  ◌∷◌, ◌++◌, ◌==◌, arith, Bool-cases, inl, inr,
}
use soml_apps.Common.Int.{ℤ}
use soml_apps.Otg.Generator.{Generator}
use soml_apps.Otg.Packet.{Packet, reset, is_positive}
use soml_apps.Otg.Packet.Sound.{IsSound, reset-IsSound, new_packet-IsSound}
use soml_apps.Otg.Stream.{
  Source, Sender, Stream, World, Event, wait, hand, close, Thread, closed, set_flow, set_number,
  stamp_time, waits, packet_of, round, run,
}

-- A generator as the source of a stream.
abbrev pub generated : {G : Type 0} → Generator G → Source G
generated g = record { next_packet = λ s p. let made = g.next s p in (made.0, some made.1) }

-- The flows and numbers of the packets that are handed over.
abbrev pub handed : List Event → List (ℕ × ℕ)
handed [] = []
handed (hand p ∷ es) = (p.flow_id, p.seq_num) ∷ handed es
handed (wait t ∷ es) = handed es
handed (close ∷ es) = handed es

pub handed-append : (es fs : List Event) → handed (es ++ fs) ≡ handed es ++ handed fs
handed-append [] fs = refl
handed-append (hand p ∷ es) fs = ap (◌∷◌ (p.flow_id, p.seq_num)) (handed-append es fs)
handed-append (wait t ∷ es) fs = handed-append es fs
handed-append (close ∷ es) fs = handed-append es fs

-- The numbers that follow one another from `n` on.
abbrev pub consecutive : ℕ → ℕ → ℕ → List (ℕ × ℕ)
consecutive flow n zero = []
consecutive flow n (suc k) = (flow, n) ∷ consecutive flow (suc n) k

-- A sender that takes every packet in its buffer, and leaves it in one.
abbrev pub Accepts : {R : Type 0} → Sender R → Type 0
Accepts {R} sender =
    (r : R) (p : Packet)
    → IsSound p
    → (o : R × Packet) × (sender.send_packet r p ≡ some o) × IsSound o.1

abbrev pub Held : Option Packet → Type 0
Held none = Unit
Held (some p) = IsSound p

-- The packets handed over lie in their buffers, and have this size or more.
abbrev pub Sendable : ℕ → List Event → Type 0
Sendable m [] = Unit
Sendable m (hand p ∷ es) = IsSound p × (m ≤ p.size) × Sendable m es
Sendable m (wait t ∷ es) = Sendable m es
Sendable m (close ∷ es) = Sendable m es

Sendable-append :
    (m : ℕ) (es fs : List Event) → Sendable m es → Sendable m fs → Sendable m (es ++ fs)
Sendable-append m [] fs s t = t
Sendable-append m (hand p ∷ es) fs s t = (s.0, s.1, Sendable-append m es fs s.2 t)
Sendable-append m (wait u ∷ es) fs s t = Sendable-append m es fs s t
Sendable-append m (close ∷ es) fs s t = Sendable-append m es fs s t

stamp_time-IsSound : (clock_ms : ℤ) {p : Packet} → IsSound p → IsSound (stamp_time clock_ms p)
unfolding stamp_time
stamp_time-IsSound clock_ms s = ground arith

stamp_time_keeps :
    (clock_ms : ℤ) (p : Packet)
    → ((stamp_time clock_ms p).flow_id ≡ p.flow_id)
      × ((stamp_time clock_ms p).seq_num ≡ p.seq_num)
      × ((stamp_time clock_ms p).size ≡ p.size)
unfolding stamp_time
stamp_time_keeps clock_ms p = ground arith

set_flow_lem :
    (s : Stream) (p : Packet) → p.flow_id ≡ 0 → set_flow s p ≡ record p { flow_id = s.stream_id }
unfolding set_flow
set_flow_lem s p e = ground arith

set_number_lem :
    (s : Stream) (p : Packet)
    → p.seq_num ≡ 0
    → s.seq_no + 1 < 18446744073709551616
    → set_number s p ≡ (record s { seq_no = suc s.seq_no }, record p { seq_num = suc s.seq_no })
unfolding set_number
set_number_lem s p e bound =
    let none_set : (p.seq_num == 0) ≡ true = ground arith in
    let next : (s.seq_no + 1) % 18446744073709551616 ≡ suc s.seq_no = omega arith in
    rw (none_set, next)

handed-waits : (p : Packet) (es : List Event) → handed (waits p ++ es) ≡ handed es
handed-waits p es = elim (Bool-cases (is_positive p.tx_time)) [ inl e ↦ rw e | inr e ↦ rw e ]

Sendable-waits : (m : ℕ) (p : Packet) (es : List Event) → Sendable m es → Sendable m (waits p ++ es)
Sendable-waits m p es s = elim (Bool-cases (is_positive p.tx_time)) [
  | inl e ↦ rw e s
  | inr e ↦ rw e s
]

-- What a generator keeps of its state, and the least size of its packets.
abbrev pub Makes : {G : Type 0} → Generator G → (G → Type 0) → ℕ → Type 0
Makes {G} g Good m = (s : G) (p : Packet) → Good s → Good (g.next s p).0 × (m ≤ (g.next s p).1.size)

module _ {G R : Type 0} (memory : ℕ → ℕ → ℕ) (g : Generator G) (sender : Sender R)
    (accepts : Accepts sender) where
  reset-Held :
      (o : Option Packet) → Held o → IsSound (reset (packet_of memory (generated g) sender o))
  reset-Held none h = reset-IsSound (new_packet-IsSound memory 512 true)
  reset-Held (some p) h = reset-IsSound h

  module _ (Good : G → Type 0) (m : ℕ) (makes : Makes g Good m) where
    round_lem :
        (clock_ms : ℤ) (t : Thread G R)
        → Held t.packet
        → Good t.source
        → t.stream.seq_no + 1 < 18446744073709551616
        → (es : List Event) × (t' : Thread G R) × (round memory (generated g) sender clock_ms t
            ≡ (es, some t'))
          × (handed es ≡ (t.stream.stream_id, suc t.stream.seq_no) ∷ [])
          × Sendable m es
          × (t'.stream ≡ record t.stream { seq_no = suc t.stream.seq_no })
          × Held t'.packet
          × Good t'.source
    unfolding round
    round_lem clock_ms t held good bound =
        let blank = reset (packet_of memory (generated g) sender t.packet) in
        let made = g.next t.source blank in
        let p = made.1 in
        let p1 = record p { flow_id = t.stream.stream_id } in
        let p2 = record p1 { seq_num = suc t.stream.seq_no } in
        let q = stamp_time clock_ms p2 in
        let s2 = record t.stream { seq_no = suc t.stream.seq_no } in
        let made_sound = g.sound t.source blank (reset-Held t.packet held) in
        let p2_sound : IsSound p2 = record {
          fits = made_sound.fits;
          allocated = made_sound.allocated;
        } in
        let q_sound = stamp_time-IsSound clock_ms p2_sound in
        let ((r, p3), sends, sent_sound) = accepts t.sender q q_sound in
        let (flow, number, size) = stamp_time_keeps clock_ms p2 in
        let (kept, long) = makes t.source blank good in
        (
          waits p2 ++ hand q ∷ [],
          record { stream = s2; source = made.0; sender = r; packet = some p3 },
          rw (
            set_flow_lem t.stream p (g.same_flow t.source blank),
            set_number_lem t.stream p1 (g.same_seq t.source blank) bound,
            sends,
          ),
          handed-waits p2 (hand q ∷ []) ∙ rw (flow, number),
          Sendable-waits m p2 (hand q ∷ []) (q_sound, omega (arith, long, size), tt),
          refl,
          sent_sound,
          kept,
        )

    -- `run-consecutive` for a generator whose packets have a least size.
    pub run_lem :
        (w : World) (k n fuel : ℕ) (t : Thread G R)
        → Held t.packet
        → Good t.source
        → ((i : ℕ) → i < n + k → w.active i ≡ true)
        → w.active (n + k) ≡ false
        → k < fuel
        → t.stream.seq_no + k < 18446744073709551616
        → ((run memory (generated g) sender fuel w n t).1 ≡ closed)
          × (handed (run memory (generated g) sender fuel w n t).0
              ≡ consecutive t.stream.stream_id (suc t.stream.seq_no) k)
          × Sendable m (run memory (generated g) sender fuel w n t).0
    unfolding run
    run_lem w k n zero t held good on off enough bound = absurd (omega arith)
    run_lem w zero n (suc fuel) t held good on off enough bound =
        let place : n + 0 ≡ n = omega arith in
        let over : w.active n ≡ false = rw place at off in rw over (refl, refl, tt)
    run_lem w (suc k) n (suc fuel) t held good on off enough bound =
        let (es, t', step, first, sendable, stream, held', good') =
          round_lem (w.clock_ms n) t held good (omega arith) in
        let place : suc n + k ≡ n + suc k = omega arith in
        let number : t'.stream.seq_no ≡ suc t.stream.seq_no = ap (λ s. s.seq_no) stream in
        let id : t'.stream.stream_id ≡ t.stream.stream_id = ap (λ s. s.stream_id) stream in
        let (ends, rest, later) =
          run_lem w k (suc n) fuel t' held' good' (λ i h. on i (omega arith)) (rw place off)
            (omega arith) (omega (arith, number)) in
        rw (on n (omega arith), step)
          (
            ends,
            handed-append es _ ∙ rw (first, rest, number, id) refl,
            Sendable-append m es _ sendable later,
          )

  -- With a generator and a sender that takes every packet in its buffer, a stream that is active
  -- for `k` rounds, and whose numbers stay below 2 ^ 64, closes its sender and has handed it `k`
  -- packets of its flow with consecutive sequence numbers.
  pub run-consecutive :
      (w : World) (k n fuel : ℕ) (t : Thread G R)
      → Held t.packet
      → ((i : ℕ) → i < n + k → w.active i ≡ true)
      → w.active (n + k) ≡ false
      → k < fuel
      → t.stream.seq_no + k < 18446744073709551616
      → ((run memory (generated g) sender fuel w n t).1 ≡ closed)
        × (handed (run memory (generated g) sender fuel w n t).0
            ≡ consecutive t.stream.stream_id (suc t.stream.seq_no) k)
  run-consecutive w k n fuel t held on off enough bound =
      let (ends, numbers, sendable) =
        run_lem (λ s. Unit) 0 (λ s p good. (tt, omega arith)) w k n fuel t held tt on off enough
          bound in
      (ends, numbers)
