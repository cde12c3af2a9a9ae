-- ===== src/Otg/Stream.antt =====
-- The loop of a stream: `Stream::_run` of otg2/lib/core/stream.cpp, over any source and sender. A
-- clock gives the milliseconds of each round, in millionths.
pub mod Numbers
pub mod OverUdp
pub mod Delivery
use soml_apps.Common.{
  ℕ, zero, suc, ◌+◌, ◌%◌, Bool, true, false, Option, none, some, List, [], ◌∷◌, ◌++◌, ◌==◌,
  if◌then◌else◌,
}
use soml_apps.Common.Int.{ℤ}
use soml_apps.Otg.Packet.{Packet, new_packet, reset, set_time_stamp, is_positive}

-- `nextPacket`, which may return NULL.
pub record Source (S : Type 0) : Type 0 where
  pub next_packet : S → Packet → S × Option Packet

-- `sendPacket`: `none` where it throws.
pub record Sender (R : Type 0) : Type 0 where
  pub send_packet : R → Packet → Option (R × Packet)

pub record Stream : Type 0 where
  pub stream_id : ℕ
  pub seq_no : ℕ
  pub paused : Bool

-- `active_` at the start of a round, and what the clock says in it.
pub record World : Type 0 where
  pub active : ℕ → Bool
  pub clock_ms : ℕ → ℤ

pub data Event : Type 0 where
  wait : ℤ → Event
  hand : Packet → Event
  close : Event

pub record Thread (S R : Type 0) : Type 0 where
  pub stream : Stream
  pub source : S
  pub sender : R
  pub packet : Option Packet

pub data Outcome : Type 0 where
  closed thrown unfinished : Outcome

-- The flow and the sequence number, where the source has set none.
unfoldable pub set_flow : Stream → Packet → Packet
set_flow s p = if p.flow_id == 0 then record p { flow_id = s.stream_id } else p

unfoldable pub set_number : Stream → Packet → Stream × Packet
set_number s p =
    let next = (s.seq_no + 1) % 18446744073709551616 in
    if p.seq_num == 0 then (record s { seq_no = next }, record p { seq_num = next }) else (s, p)

abbrev pub waits : Packet → List Event
waits p = if is_positive p.tx_time then wait p.tx_time ∷ [] else []

unfoldable pub stamp_time : ℤ → Packet → Packet
unfolding set_time_stamp
stamp_time clock_ms p = if is_positive p.ts then p else set_time_stamp clock_ms clock_ms p

module _ {S R : Type 0} (memory : ℕ → ℕ → ℕ) (source : Source S) (sender : Sender R) where
  abbrev pub packet_of : Option Packet → Packet
  packet_of none = new_packet memory 512 true
  packet_of (some p) = p

  -- The packet has been handed to the sender.
  after_send : Thread S R → Option (R × Packet) → Option (Thread S R)
  after_send t none = none
  after_send t (some (r, p)) = some (record t { sender = r; packet = some p })

  send_next : ℤ → Thread S R → S × Option Packet → List Event × Option (Thread S R)
  unfolding set_flow set_number stamp_time after_send
  send_next clock_ms t (g, none) = ([], some (record t { source = g; packet = none }))
  send_next clock_ms t (g, some p) =
      let (s, numbered) = set_number t.stream (set_flow t.stream p) in
      let q = stamp_time clock_ms numbered in
      (
        waits numbered ++ hand q ∷ [],
        after_send (record t { stream = s; source = g }) (sender.send_packet t.sender q),
      )

  -- One round of the loop.
  unfoldable pub round : ℤ → Thread S R → List Event × Option (Thread S R)
  unfolding send_next reset
  round clock_ms t = send_next clock_ms t (source.next_packet t.source (reset (packet_of t.packet)))

  go_on :
      (Thread S R → List Event × Outcome) → List Event × Option (Thread S R) → List Event × Outcome
  go_on rest (es, none) = (es, thrown)
  go_on rest (es, some t) = let more = rest t in (es ++ more.0, more.1)

  -- `_run`, on a bound of its rounds.
  unfoldable pub run : ℕ → World → ℕ → Thread S R → List Event × Outcome
  unfolding round go_on
  run zero w n t = ([], unfinished)
  run (suc fuel) w n t =
      if w.active n
      then go_on (run fuel w (suc n)) (round (w.clock_ms n) t)
      else (close ∷ [], closed)
