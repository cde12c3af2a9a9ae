-- ===== src/Trace/Rows.antt =====
-- The injections of trace/trace.c. A field of a header is the word that the host loads, in its own
-- byte order.
pub mod Numbers
use soml_apps.Common.{
  ℕ, ◌+◌, ◌-◌, ◌/◌, ◌%◌, Option, none, some, List, [], ◌∷◌, ◌++◌, ltb, ◌==◌, if◌then◌else◌, take,
}
use soml_apps.Clib.Run.{Run, ok, fault, ◌>>=◌}
use soml_apps.Clib.Text.{Bytes, codes}
use soml_apps.Clib.Words.{Host, htons}
use soml_apps.Trace.Headers as H

pub record IpHeader : Type 0 where
  pub ip_tos : ℕ
  pub ip_len : ℕ
  pub ip_id : ℕ
  pub ip_off : ℕ
  pub ip_ttl : ℕ
  pub ip_p : ℕ
  pub ip_sum : ℕ
  pub ip_src : Bytes
  pub ip_dst : Bytes

pub record TcpHeader : Type 0 where
  pub seq : ℕ
  pub ack_seq : ℕ
  pub window : ℕ
  pub check : ℕ
  pub urg_ptr : ℕ

pub record UdpHeader : Type 0 where
  pub len : ℕ
  pub check : ℕ

-- A row of a measurement point: the packet's identifier, and what is injected with it.
pub data Row : Type 0 where
  ip : ℕ → IpHeader → Bytes → Bytes → ℕ → Row
  tcp : ℕ → ℕ → ℕ → TcpHeader → ℕ → Row
  udp : ℕ → ℕ → ℕ → UdpHeader → Row
  ip6 : ℕ → Bytes → Bytes → Row
  ip6_mh : ℕ → H.Mobility → ℕ → Option Bytes → Row
  icmp icmp6 : ℕ → ℕ → ℕ → Row
  ethernet : ℕ → Bytes → Bytes → ℕ → Row
  radiotap : ℕ → Bytes → Bytes → Row

-- `inet_ntop` of the system, for an address of either family.
pub record Ntop : Type 0 where
  pub text : Bytes → Bytes

module _ (host : Host) (ntop : Ntop) where
  -- `ip->ip_off & ~(7<<13)` comes before `ntohs`.
  unfoldable pub trace_oml_inject_ip : ℕ → IpHeader → ℕ → Row
  trace_oml_inject_ip pktid h capture_length =
      let swapped = record h {
        ip_len = htons host h.ip_len;
        ip_id = htons host h.ip_id;
        ip_off = htons host (h.ip_off % 8192);
        ip_sum = htons host h.ip_sum;
      } in
      ip pktid swapped (ntop.text h.ip_src) (ntop.text h.ip_dst) capture_length

  unfoldable pub trace_oml_inject_ip6 : ℕ → Bytes → Bytes → Row
  trace_oml_inject_ip6 pktid src dst = ip6 pktid (ntop.text src) (ntop.text dst)

  -- The rows of `trace_oml_parse_ip6_hdrs`.
  unfoldable pub header_row : ℕ → H.Row → Row
  unfolding trace_oml_inject_ip6
  header_row pktid (H.ip6 src dst) = trace_oml_inject_ip6 pktid src dst
  header_row pktid (H.ip6_mh t sequ_nb none) = ip6_mh pktid t sequ_nb none
  header_row pktid (H.ip6_mh t sequ_nb (some coa)) = ip6_mh pktid t sequ_nb (some (ntop.text coa))

-- The words of 32 bits go to `ntohs` too, which takes the lower 16 bits.
unfoldable pub trace_oml_inject_tcp : Host → ℕ → ℕ → ℕ → TcpHeader → ℕ → Row
trace_oml_inject_tcp host pktid source_port destination_port h capture_length =
    let swapped : TcpHeader = record {
      seq = htons host (h.seq % 65536);
      ack_seq = htons host (h.ack_seq % 65536);
      window = htons host h.window;
      check = htons host h.check;
      urg_ptr = htons host h.urg_ptr;
    } in
    tcp pktid source_port destination_port swapped capture_length

unfoldable pub trace_oml_inject_udp : Host → ℕ → ℕ → ℕ → UdpHeader → Row
trace_oml_inject_udp host pktid source_port destination_port h =
    let swapped : UdpHeader = record { len = htons host h.len; check = htons host h.check } in
    udp pktid source_port destination_port swapped

unfoldable pub trace_oml_inject_icmp : Host → ℕ → ℕ → ℕ → ℕ → List Row
trace_oml_inject_icmp host pktid type sequ_nb ipver =
    if ipver == 4
    then icmp pktid type (htons host sequ_nb) ∷ []
    else if ipver == 6
    then icmp6 pktid type (htons host sequ_nb) ∷ []
    else []

abbrev lower_digit : ℕ → ℕ
lower_digit d = if ltb d 10 then d + 48 else d + 87

-- `%02x` of each byte, with colons between them
unfoldable pub mac_text : Bytes → Bytes
mac_text [] = []
mac_text (b ∷ []) = lower_digit (b / 16) ∷ lower_digit (b % 16) ∷ []
mac_text (b ∷ bs) = lower_digit (b / 16) ∷ lower_digit (b % 16) ∷ 58 ∷ mac_text bs

-- The string that `mac_to_s` leaves in `n` bytes: `strncpy` may leave out the NUL.
unfoldable pub mac_to_s : Option Bytes → ℕ → Run Bytes
unfolding mac_text
mac_to_s none n = if ltb 12 n then ok (codes "address NULL") else fault
mac_to_s (some mac) n = if ltb 0 n then ok (take (n - 1) (mac_text mac)) else ok []

unfoldable pub trace_oml_inject_ethernet : ℕ → ℕ → Option Bytes → Option Bytes → Run Row
unfolding mac_to_s
trace_oml_inject_ethernet pktid ethertype source dst = do
  mac_s ← mac_to_s source 18
  mac_d ← mac_to_s dst 18
  ok (ethernet pktid mac_s mac_d ethertype)

-- Its other fields are what libtrace says of the radio, untouched.
unfoldable pub trace_oml_inject_radiotap : ℕ → Option Bytes → Option Bytes → Run Row
unfolding mac_to_s
trace_oml_inject_radiotap pktid source dst = do
  mac_s ← mac_to_s source 18
  mac_d ← mac_to_s dst 18
  ok (radiotap pktid mac_s mac_d)
