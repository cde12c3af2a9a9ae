-- ===== src/Trace/Packet/Kinds.antt =====
-- What rows `per_packet` of trace/trace.c is to give for a packet: their kinds, and their identifier.
use soml_apps.Common.{
  ℕ, Bool, true, false, Option, none, some, List, [], ◌∷◌, ◌++◌, map, ◌==◌, ◌||◌, if◌then◌else◌,
}
use soml_apps.Trace.Headers as H
use soml_apps.Trace.Rows.{
  Row, ip, tcp, udp, ip6, ip6_mh, icmp, icmp6, ethernet, radiotap, TcpHeader, UdpHeader,
}
use soml_apps.Trace.Packet.{View, LinkType, radio_80211, eth, other_link, Echo}

-- The measurement points.
pub data Kind : Type 0 where
  of_ethernet of_radiotap of_ip of_ip6 of_ip6_mh of_icmp of_icmp6 of_tcp of_udp : Kind

-- The measurement point and the packet of a row.
abbrev pub label : Row → Kind × ℕ
label (ethernet n s d t) = (of_ethernet, n)
label (radiotap n s d) = (of_radiotap, n)
label (ip n h s d l) = (of_ip, n)
label (ip6 n s d) = (of_ip6, n)
label (ip6_mh n t q c) = (of_ip6_mh, n)
label (icmp n t q) = (of_icmp, n)
label (icmp6 n t q) = (of_icmp6, n)
label (tcp n s d h l) = (of_tcp, n)
label (udp n s d h) = (of_udp, n)

abbrev pub labels : List Row → List (Kind × ℕ)
labels rows = map label rows

abbrev pub link_kinds : Bool → LinkType → List Kind
link_kinds true radio_80211 = of_radiotap ∷ []
link_kinds false radio_80211 = []
link_kinds wanted eth = of_ethernet ∷ []
link_kinds wanted other_link = []

-- Only the two types of a ping count.
abbrev pub ping_kinds : Kind → ℕ → ℕ → Option Echo → List Kind
ping_kinds k a b none = []
ping_kinds k a b (some e) = if e.type == a || e.type == b then k ∷ [] else []

abbrev pub tcp_kinds : Option TcpHeader → List Kind
tcp_kinds none = []
tcp_kinds (some h) = of_tcp ∷ []

abbrev pub udp_kinds : Option UdpHeader → List Kind
udp_kinds none = []
udp_kinds (some h) = of_udp ∷ []

-- ICMP, TCP, UDP and ICMPv6 have the numbers 1, 6, 17 and 58.
abbrev pub protocol_kinds : View → List Kind
protocol_kinds v =
    if v.proto == 1
    then ping_kinds of_icmp 0 8 v.icmp
    else if v.proto == 6
    then tcp_kinds v.tcp
    else if v.proto == 17
    then udp_kinds v.udp
    else if v.proto == 58
    then ping_kinds of_icmp6 128 129 v.icmp6
    else []

abbrev pub transport_kinds : View → List Kind
transport_kinds v = if v.has_transport then protocol_kinds v else []

abbrev pub header_kind : H.Row → Kind
header_kind (H.ip6 s d) = of_ip6
header_kind (H.ip6_mh t q c) = of_ip6_mh

-- What follows the walk over the headers, if it returns.
abbrev pub after_walk : View → H.End → List Kind
after_walk v H.returned = of_ip6 ∷ transport_kinds v
after_walk v H.undefined = []
after_walk v H.unfinished = []

abbrev pub walked_kinds : View → List H.Row × H.End → List Kind
walked_kinds v (rows, end) = map header_kind rows ++ after_walk v end

-- IPv4 is 0x0800, and IPv6 0x86DD.
abbrev pub network_kinds : ℕ → View → List Kind
network_kinds fuel v =
    if v.ethertype == 2048
    then of_ip ∷ transport_kinds v
    else if v.ethertype == 34525
    then walked_kinds v (H.trace_oml_parse_ip6_hdrs fuel v.ip6_bytes)
    else []

-- All rows of a packet, on a bound for the walk over its headers.
abbrev pub packet_kinds : ℕ → Bool → View → List Kind
packet_kinds fuel radio v =
    link_kinds radio v.link ++ (if v.has_l3 then network_kinds fuel v else [])
