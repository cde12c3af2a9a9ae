-- ===== src/Otg/Udp.antt =====
-- The UDP ports: `UDPOutPort::sendPacket` and `UDPInPort::nextPacket` of otg2/lib/port. The socket
-- calls are arguments: whether `sendto` succeeds, and what `recvfrom` receives.
pub mod Stamped
pub mod Sequence
pub mod Arrival
pub mod Sound
pub mod RoundTrip
use soml_apps.Common.{
  ℕ, ◌+◌, ◌%◌, ◌≤◌, Bool, true, false, Option, none, some, List, [], ◌∷◌, ltb, leb, ◌==◌,
  if◌then◌else◌, length, take,
}
use soml_apps.Common.Int.{ℤ, negsuc}
use soml_apps.Clib.Memory.{overwrite_at}
use soml_apps.Clib.Run.{Run, ok, fault, ◌>>=◌}
use soml_apps.Clib.Text.{Bytes}
use soml_apps.Otg.Packet.{
  Packet, new_packet, ensure, set_payload_size, stamp_packet, append_int16, append_int32,
  append_int64, check_stamp, extract_int16, extract_int32, extract_int64, set_time_stamp,
}
use soml_apps.Clib.Words.{Host, extend16, extend32}

-- What `oml_inject_udp_out` and `oml_inject_udp_in` are given.
pub record UdpRow : Type 0 where
  pub now : ℤ
  pub flow : ℕ
  pub seq_no : ℕ
  pub len : ℕ
  pub host : Bytes
  pub port : ℕ

-- What `sendPacket` does: it returns the packet, with the datagram sent and the row injected, or
-- throws "Sending Error.".
pub data Sent : Type 0 where
  sent : Packet → Bytes → UdpRow → Sent
  sending_error : Sent

pub record Endpoint : Type 0 where
  pub host : Bytes
  pub port : ℕ

-- What follows the version stamp: versions that are not known are read as the latest.
unfoldable pub read_stamps : Host → ℕ → Packet → Run Packet
read_stamps h version p =
    let version1 = (do
      f ← extract_int16 h p
      s ← extract_int32 h (record f.1 { flow_id = extend16 f.0 })
      ok (record s.1 { seq_num = extend32 s.0 })) in
    let version2 = (do
      v1 ← extract_int16 h p
      s ← extract_int32 h v1.1
      f ← extract_int64 h (record s.1 { seq_num = extend32 s.0 })
      ok (record f.1 { flow_id = f.0 })) in
    if version == 1 then version1 else version2

module _ (memory : ℕ → ℕ → ℕ) where
  -- The four stamps of a packet.
  unfoldable pub stamped : Host → Packet → Packet
  stamped h p =
      let q = append_int16 memory h (p.flow_id % 32767) (stamp_packet memory 2 p) in
      append_int64 memory h p.flow_id (append_int32 memory h p.seq_num q)

  unfoldable pub send_packet : Host → Bool → Endpoint → ℤ → Packet → Run Sent
  unfolding stamped
  send_packet h accepted dst now p =
      let q = stamped h p in
      if ltb (length q.payload) q.size
      then fault
      else if accepted
      then (let row : UdpRow = record {
        now = now;
        flow = q.flow_id;
        seq_no = q.seq_num;
        len = q.size;
        host = dst.host;
        port = dst.port;
      } in
          ok (sent q (take q.size q.payload) row))
      else ok sending_error

  -- `if (pkt == NULL) { pkt = new Packet(); }`
  unfoldable pub packet_or_new : Option Packet → Packet
  unfolding new_packet
  packet_or_new none = new_packet memory 512 false
  packet_or_new (some pkt) = pkt

  -- `nextPacket` with what `recvfrom` says, `none` for -1: the packet and the row injected, or NULL.
  unfoldable pub next_packet :
      Host → ℤ → ℤ → Endpoint → Option Bytes → Option Packet → Run (Option (Packet × UdpRow))
  unfolding packet_or_new
  next_packet h clock_ms now src none pkt = ok none
  next_packet h clock_ms now src (some datagram) pkt = do
    let p = ensure memory 1024 (packet_or_new pkt)
    let bytes = take p.capacity datagram
    let filled = record p { payload = overwrite_at 0 bytes p.payload }
    stamp ← check_stamp (set_payload_size memory (length bytes) filled)
    q ← read_stamps h stamp.0 stamp.1
    let r = set_time_stamp clock_ms (negsuc 999999) q
    let row : UdpRow = record {
      now = now;
      flow = r.flow_id;
      seq_no = r.seq_num;
      len = length bytes;
      host = src.host;
      port = src.port;
    }
    ok (some (r, row))
