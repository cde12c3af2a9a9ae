-- ===== src/Otg/Stream/Delivery.antt =====
-- A stream of otg2 from `Stream::_run` over `UDPOutPort::sendPacket` to `UDPInPort::nextPacket`, on
-- two hosts of one byte order and a network that delivers every datagram once and in order.
use soml_apps.Common.{
  ℕ, zero, suc, ◌+◌, ◌<◌, ◌≤◌, ◌≡◌, refl, ap, ◌∙◌, true, false, Option, none, some, List, [], ◌∷◌,
  ◌++◌, arith,
}
use soml_apps.Common.Int.{ℤ}
use soml_apps.Clib.Run.{Run, ok, fault}
use soml_apps.Clib.Text.{Bytes}
use soml_apps.Clib.Words.{Host, little, big, htonl, swap32}
use soml_apps.Otg.Generator.{Generator, cbr_next_packet}
use soml_apps.Otg.Packet.{Packet}
use soml_apps.Otg.Packet.Sound.{IsSound, set_payload_size_keeps}
use soml_apps.Otg.Generator.Rate.{cbr_generator}
use soml_apps.Otg.Stream.{World, Event, wait, hand, close, Thread, closed, run}
use soml_apps.Otg.Stream.Numbers.{generated, handed, consecutive, Held, Sendable, Makes, run_lem}
use soml_apps.Otg.Stream.OverUdp.{udp_sender, udp_sender-Accepts}
use soml_apps.Otg.Udp.{
  send_packet, next_packet, packet_or_new, Endpoint, UdpRow, Sent, sent, sending_error,
}
use soml_apps.Otg.Udp.Arrival.{udp_arrival}
use soml_apps.Otg.Udp.Sequence.{Survives}
use soml_apps.Otg.Udp.Sound.{next_packet-IsSound}

-- Every number survives, and every flow is a word.
abbrev pub Arriving : Host → List (ℕ × ℕ) → Type 0
Arriving h [] = Unit
Arriving h ((flow, n) ∷ ns) = (flow < 18446744073709551616) × Survives h n × Arriving h ns

consecutive-Arriving :
    (h : Host) (flow n k : ℕ)
    → flow < 18446744073709551616
    → ((i : ℕ) → i < k → Survives h (n + i))
    → Arriving h (consecutive flow n k)
consecutive-Arriving h flow n zero small survive = tt
consecutive-Arriving h flow n (suc k) small survive =
    let here : n + 0 ≡ n = omega arith in
    let next : (i : ℕ) → suc n + i ≡ n + suc i = λ i. omega arith in
    (
      small,
      rw here at (survive 0 (omega arith)),
      consecutive-Arriving h flow (suc n) k small
          (λ i b. rw (next i) (survive (suc i) (omega (arith, b)))),
    )

-- Numbers below 128 survive on hosts of either byte order.
pub Survives-small : (h : Host) (n : ℕ) → n < 128 → Survives h n
unfolding htonl swap32
Survives-small little n small = (omega arith, (omega arith, omega arith, omega arith))
Survives-small big n small = (omega arith, (omega arith, omega arith, omega arith))

abbrev bytes_sent : Run Sent → List Bytes
bytes_sent (ok (sent p bytes row)) = bytes ∷ []
bytes_sent (ok sending_error) = []
bytes_sent fault = []

-- The packet received, if there is one.
abbrev packet_in : Run (Option (Packet × UdpRow)) → Option Packet
packet_in (ok (some (p, row))) = some p
packet_in (ok none) = none
packet_in fault = none

abbrev numbers_of : Option Packet → List (ℕ × ℕ)
numbers_of none = []
numbers_of (some p) = (p.flow_id, p.seq_num) ∷ []

module _ (memory memory' : ℕ → ℕ → ℕ) (h : Host) (dst src : Endpoint)
    (now clock_ms in_now : ℤ) where
  -- The datagrams of the packets that are handed over.
  abbrev pub datagrams : List Event → List Bytes
  datagrams [] = []
  datagrams (hand p ∷ es) = bytes_sent (send_packet memory h true dst now p) ++ datagrams es
  datagrams (wait t ∷ es) = datagrams es
  datagrams (close ∷ es) = datagrams es

  -- The flows and numbers that are received, every packet in the memory of the one before it.
  abbrev pub received : Option Packet → List Bytes → List (ℕ × ℕ)
  received pkt [] = []
  received pkt (bytes ∷ wire) =
      let got = packet_in (next_packet memory' h clock_ms in_now src (some bytes) pkt) in
      numbers_of got ++ received got wire

  received_lem :
      (es : List Event) (pkt : Option Packet)
      → IsSound (packet_or_new memory' pkt)
      → Sendable 17 es
      → Arriving h (handed es)
      → received pkt (datagrams es) ≡ handed es
  unfolding packet_or_new
  received_lem [] pkt ready s a = refl
  received_lem (wait t ∷ es) pkt ready s a = received_lem es pkt ready s a
  received_lem (close ∷ es) pkt ready s a = received_lem es pkt ready s a
  received_lem (hand p ∷ es) pkt ready s a =
      let (q, bytes, out, r, row, send, get, flow, number, rows) =
        udp_arrival memory h memory' dst src now clock_ms in_now p pkt s.0 ready s.1 a.0
          (omega (arith, a.1.0)) in
      let (r', row', get', sound) =
        next_packet-IsSound memory' h clock_ms in_now src bytes pkt ready in
      let same : some r ≡ some r' = ap packet_in (rw get at get') in
      let kept : IsSound (packet_or_new memory' (some r)) = rw same sound in
      rw (send, get, flow, number.1 a.1, received_lem es (some r) kept s.2 a.2)

  -- With a generator whose packets have 17 bytes or more while a property of its state holds, on
  -- hosts of one byte order, and on a network that delivers each datagram once and in order, into a
  -- packet in its buffer, a stream of a flow below 2 ^ 64 that is active for `k` rounds, with
  -- numbers below 2 ^ 64, closes its sender, and its packets are received complete and in order, if
  -- each of its sequence numbers is below 2 ^ 31 and the lower three bytes of the word sent for it
  -- are below 128.
  pub received-run :
      {G : Type 0} (g : Generator G) (Good : G → Type 0) (makes : Makes g Good 17) (w : World)
      (k n fuel : ℕ) (t : Thread G (List Bytes)) (pkt : Option Packet)
      → Held t.packet
      → Good t.source
      → IsSound (packet_or_new memory' pkt)
      → ((i : ℕ) → i < n + k → w.active i ≡ true)
      → w.active (n + k) ≡ false
      → k < fuel
      → t.stream.stream_id < 18446744073709551616
      → t.stream.seq_no + k < 18446744073709551616
      → ((i : ℕ) → i < k → Survives h (suc t.stream.seq_no + i))
      → (let after = run memory (generated g) (udp_sender memory h dst now) fuel w n t in
          (after.1 ≡ closed)
          × (received pkt (datagrams after.0)
              ≡ consecutive t.stream.stream_id (suc t.stream.seq_no) k))
  received-run g Good makes w k n fuel t pkt held good ready on off enough id bound survive =
      let after = run memory (generated g) (udp_sender memory h dst now) fuel w n t in
      let (ends, numbers, sendable) =
        run_lem memory g (udp_sender memory h dst now) (udp_sender-Accepts memory h dst now) Good 17
          makes w k n fuel t held good on off enough bound in
      let arriving : Arriving h (handed after.0) =
        rw numbers (consecutive-Arriving h t.stream.stream_id (suc t.stream.seq_no) k id survive) in
      (ends, received_lem after.0 pkt ready sendable arriving ∙ numbers)

-- A generator at a constant rate keeps its size, and makes packets of it.
pub cbr_generator-Makes :
    (memory : ℕ → ℕ → ℕ) (m : ℕ) → Makes (cbr_generator memory) (λ g. m ≤ g.pkt_size) m
unfolding cbr_next_packet
cbr_generator-Makes memory m g p long =
    (long, omega (arith, long, (set_payload_size_keeps memory g.pkt_size p).3))
