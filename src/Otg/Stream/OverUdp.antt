-- ===== src/Otg/Stream/OverUdp.antt =====
-- `UDPOutPort` as the sender of a stream of otg2; its state is the list of datagrams sent.
use soml_apps.Common.{ℕ, true, Option, none, some, List, [], ◌∷◌, ◌++◌, take}
use soml_apps.Common.Int.{ℤ}
use soml_apps.Clib.Run.{Run, ok, fault}
use soml_apps.Clib.Text.{Bytes}
use soml_apps.Otg.Packet.{Packet}
use soml_apps.Otg.Stream.{Sender}
use soml_apps.Otg.Stream.Numbers.{Accepts}
use soml_apps.Otg.Udp.{stamped, send_packet, Endpoint, Sent, sent, sending_error}
use soml_apps.Otg.Udp.Arrival.{send_packet_lem, stamped-IsSound}
use soml_apps.Clib.Words.{Host}

abbrev on_wire : List Bytes → Run Sent → Option (List Bytes × Packet)
on_wire wire (ok (sent p bytes row)) = some (wire ++ bytes ∷ [], p)
on_wire wire (ok sending_error) = none
on_wire wire fault = none

module _ (memory : ℕ → ℕ → ℕ) (h : Host) (dst : Endpoint) (now : ℤ) where
  -- A port whose `sendto` succeeds.
  abbrev pub udp_sender : Sender (List Bytes)
  udp_sender = record { send_packet = λ wire p. on_wire wire (send_packet memory h true dst now p) }

  pub udp_sender-Accepts : Accepts udp_sender
  udp_sender-Accepts wire p s =
      let (row, sends, flow, number, len) = send_packet_lem memory h dst now p s in
      (
        (wire ++ take p.size (stamped memory h p).payload ∷ [], stamped memory h p),
        rw sends,
        stamped-IsSound memory h s,
      )
