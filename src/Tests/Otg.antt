-- ===== src/Tests/Otg.antt =====
-- otg2 at concrete inputs.
use soml_apps.Common.{
  ℕ, suc, ◌+◌, ◌-◌, ◌*◌, ◌≤◌, ◌≡◌, ◌↔◌, refl, true, false, none, some, List, [], ◌∷◌, ltb,
  replicate, arith,
}
use soml_apps.Common.Int.{pos}
use soml_apps.Clib.Run.{ok}
use soml_apps.Clib.Text.{Bytes, codes}
use soml_apps.Clib.Words.{little, big}
use soml_apps.Otg.Address.{set_hw_addr_from_colon_format, colon_text}
use soml_apps.Otg.Address.Digits.{address_of, set_hw_addr_lem, set_hw_addr-colon_text}
use soml_apps.Otg.Clock.{UnixTime, get_current_time, pause_clock, resume_clock}
use soml_apps.Otg.Clock.Pause.{resume_clock-pause_clock}
use soml_apps.Otg.Generator.{Cbr}
use soml_apps.Otg.Generator.Rate.{cbr_generator}
use soml_apps.Otg.Application.{null_out, udp_in}
use soml_apps.Otg.Component.{otr, out_port, in_port, create_source, create_sender}
use soml_apps.Otg.Component.Names.{Named, phase2-Named}
use soml_apps.Otg.Packet.{Packet}
use soml_apps.Otg.Packet.Sound.{IsSound, new_packet-IsSound}
use soml_apps.Otg.Socket.{System, Socket}
use soml_apps.Otg.Stream.{World, Thread, closed, run}
use soml_apps.Otg.Stream.Numbers.{generated, handed, consecutive, run-consecutive}
use soml_apps.Otg.Stream.Delivery.{
  datagrams, received, received-run, cbr_generator-Makes, Survives-small,
}
use soml_apps.Otg.Stream.OverUdp.{udp_sender, udp_sender-Accepts}
use soml_apps.Otg.Udp.{send_packet, next_packet, packet_or_new, Endpoint, UdpRow, sent}
use soml_apps.Otg.Udp.Arrival.{udp_arrival}
use soml_apps.Otg.Udp.Sequence.{Survives}
use soml_apps.Otg.Udp.Sound.{next_packet-IsSound}

abbrev memory : ℕ → ℕ → ℕ
memory n i = 7

abbrev there : Endpoint
there = record { host = codes "10.0.0.1"; port = 3000 }

abbrev here : Endpoint
here = record { host = codes "10.0.0.2"; port = 40000 }

abbrev packet : Packet
packet = record {
  ts = pos 0;
  tx_time = pos 0;
  size = 20;
  capacity = 20;
  payload = replicate 20 1;
  flow_id = 7;
  seq_num = 300;
  offset = 0;
  has_clock = true;
}

packet-IsSound : IsSound packet
packet-IsSound = record { fits = omega arith; allocated = refl }

new-IsSound : IsSound (packet_or_new memory none)
unfolding packet_or_new
new-IsSound = new_packet-IsSound memory 512 false

udp_arrival_example :
    (q : Packet) × (bytes : Bytes) × (out : UdpRow) × (r : Packet) × (row : UdpRow) × (send_packet
        memory little true there
        (pos 1)
        packet
      ≡ ok (sent q bytes out))
    × (next_packet memory little (pos 5) (pos 2) here (some bytes) none ≡ ok (some (r, row)))
    × (r.flow_id ≡ 7)
    × ((r.seq_num ≡ 300) ↔ Survives little 300)
    × (row.flow ≡ out.flow)
udp_arrival_example =
    udp_arrival memory little memory there here (pos 1) (pos 5) (pos 2) packet none packet-IsSound
      new-IsSound (omega arith) (omega arith) (omega arith)

next_packet-IsSound_example :
    (r : Packet) × (row : UdpRow) × (next_packet memory big
        (pos 5)
        (pos 2)
        here
        (some (170 ∷ 170 ∷ 1 ∷ 4 ∷ []))
        none
      ≡ ok (some (r, row)))
    × IsSound r
next_packet-IsSound_example =
    next_packet-IsSound memory big (pos 5) (pos 2) here (170 ∷ 170 ∷ 1 ∷ 4 ∷ []) none new-IsSound

abbrev world : World
world = record { active = λ n. ltb n 3; clock_ms = λ n. pos (1000 * suc n) }

abbrev thread : Thread Cbr (List Bytes)
thread = record {
  stream = record { stream_id = 9; seq_no = 0; paused = false };
  source = record { pkt_size = 64; pkt_interval = 100; pkt_rate = 4096; last_pkt_stamp = 0 };
  sender = [];
  packet = none;
}

run-consecutive_example :
    ((run memory
        (generated (cbr_generator memory))
        (udp_sender memory little there (pos 1))
        4
        world
        0
        thread).1
      ≡ closed)
    × (handed
          (run memory
            (generated (cbr_generator memory))
            (udp_sender memory little there (pos 1))
            4
            world
            0
            thread).0
        ≡ consecutive 9 1 3)
run-consecutive_example =
    run-consecutive memory (cbr_generator memory) (udp_sender memory little there (pos 1))
      (udp_sender-Accepts memory little there (pos 1)) world 3 0 4 thread tt (λ i h. ground arith)
      refl (omega arith) (omega arith)

received-run_example :
    (let after =
        run memory
          (generated (cbr_generator memory))
          (udp_sender memory little there (pos 1))
          4
          world
          0
          thread in
      (after.1 ≡ closed)
      × (received memory memory little there here
            (pos 1)
            (pos 5)
            (pos 2)
            none
            (datagrams memory memory little there here (pos 1) (pos 5) (pos 2) after.0)
          ≡ consecutive 9 1 3))
received-run_example =
    received-run memory memory little there here (pos 1) (pos 5) (pos 2) (cbr_generator memory)
      (λ g. 17 ≤ g.pkt_size) (cbr_generator-Makes memory 17) world 3 0 4 thread none tt
      (omega arith) new-IsSound (λ i h. ground arith) refl (omega arith) (omega arith) (omega arith)
      (λ i h. Survives-small little (1 + i) (omega (arith, h)))

set_hw_addr_lem_example :
    set_hw_addr_from_colon_format (codes "00:1B:77:49:54:fd tail")
    ≡ ok (address_of (codes "00:1B:77:49:54:fd tail"))
set_hw_addr_lem_example = set_hw_addr_lem (codes "00:1B:77:49:54:fd tail")

abbrev mac : Bytes
mac = 0 ∷ 27 ∷ 119 ∷ 73 ∷ 84 ∷ 253 ∷ []

set_hw_addr-colon_text_example : set_hw_addr_from_colon_format (colon_text mac) ≡ ok (some mac)
set_hw_addr-colon_text_example = set_hw_addr-colon_text mac refl (omega arith)

abbrev clock : UnixTime
clock = record { origin = 1000; abs_origin = 0; pause_instant = 0; paused = false }

resume_clock-pause_clock_example :
    (get_current_time 5000 (pause_clock 4000 clock).1 ≡ get_current_time 4000 clock)
    × (get_current_time 9000 (resume_clock 6000 (pause_clock 4000 clock).1).1 + (6000 - 4000)
        ≡ get_current_time 9000 clock)
    × ((resume_clock 6000 (pause_clock 4000 clock).1).0 ≡ true)
    × ((pause_clock 5000 (pause_clock 4000 clock).1).0 ≡ false)
resume_clock-pause_clock_example =
    resume_clock-pause_clock clock 4000 5000 6000 9000 refl (omega arith) (omega arith)
      (omega arith)

abbrev system : System
system = record {
  socket = some 4;
  fcntl = true;
  bind = λ a. true;
  broadcast = true;
  resolve = λ name. some 167772161;
}

abbrev unopened : Socket
unopened = record {
  sockfd = pos 0;
  nblockflag = 0;
  bcastflag = 1;
  localhost = some (codes "0.0.0.0");
  localport = pos 0;
  dsthost = some (codes "10.0.0.1");
  dstport = pos 3000;
  dst_address = none;
}

abbrev opened : Socket
opened = record unopened { sockfd = pos 4; dst_address = some (167772161, 3000) }

phase2-Named_example : Named otr (out_port null_out) (in_port udp_in)
unfolding create_source create_sender
phase2-Named_example =
    phase2-Named otr (codes "udp") (codes "null") (in_port udp_in) (out_port null_out) refl refl
