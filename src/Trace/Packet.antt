-- ===== src/Trace/Packet.antt =====
-- `per_packet` of trace/trace.c: which rows a packet gives, in their order.
pub mod Kinds
pub mod Layers
use soml_apps.Common.{
  ℕ, Bool, true, false, Option, none, some, List, [], ◌∷◌, ◌++◌, map, ◌==◌, ◌||◌, if◌then◌else◌,
}
use soml_apps.Clib.Run.{Run, ok, fault, ◌>>=◌}
use soml_apps.Clib.Text.{Bytes}
use soml_apps.Clib.Words.{Host}
use soml_apps.Trace.Headers as H
use soml_apps.Trace.Rows.{
  IpHeader, TcpHeader, UdpHeader, Row, Ntop, trace_oml_inject_ip, trace_oml_inject_ip6, header_row,
  trace_oml_inject_tcp, trace_oml_inject_udp, trace_oml_inject_icmp, trace_oml_inject_ethernet,
  trace_oml_inject_radiotap,
}

-- `linktype`: all that is told apart.
pub data LinkType : Type 0 where
  radio_80211 eth other_link : LinkType

pub record Echo : Type 0 where
  pub type : ℕ
  pub sequence : ℕ

-- What libtrace says of a packet. A pointer that may be NULL is an `Option`.
pub record View : Type 0 where
  pub link : LinkType
  pub mac_source : Option Bytes
  pub mac_dst : Option Bytes
  pub has_l3 : Bool
  pub ethertype : ℕ
  pub ip : IpHeader
  pub ip6_src : Bytes
  pub ip6_dst : Bytes
  pub ip6_bytes : Bytes
  pub has_transport : Bool
  pub proto : ℕ
  pub icmp : Option Echo
  pub tcp : Option TcpHeader
  pub udp : Option UdpHeader
  pub icmp6 : Option Echo
  pub source_port : ℕ
  pub destination_port : ℕ
  pub capture_length : ℕ

-- The rows so far, and whether the function returns.
abbrev pub Traced : Type 0
Traced = List Row × H.End

abbrev given : Run (List Row) → Traced
given (ok rows) = (rows, H.returned)
given fault = ([], H.undefined)

-- What follows, if the part before it comes to its end.
unfoldable pub andthen : Traced → Traced → Traced
andthen (rows, H.returned) next = (rows ++ next.0, next.1)
andthen (rows, H.undefined) next = (rows, H.undefined)
andthen (rows, H.unfinished) next = (rows, H.unfinished)

unfoldable pub link_rows : Bool → View → LinkType → ℕ → Traced
link_rows radiotap v radio_80211 pktid =
    let row = (do r ← trace_oml_inject_radiotap pktid v.mac_source v.mac_dst; ok (r ∷ [])) in
    if radiotap then given row else ([], H.returned)
link_rows radiotap v eth pktid =
    given (do r ← trace_oml_inject_ethernet pktid v.ethertype v.mac_source v.mac_dst; ok (r ∷ []))
link_rows radiotap v other_link pktid = ([], H.returned)

module _ (host : Host) (ntop : Ntop) where
  -- Only the types of a ping are reported.
  echo_rows : ℕ → ℕ → ℕ → ℕ → Option Echo → Traced
  echo_rows pktid ipver a b none = ([], H.undefined)
  echo_rows pktid ipver a b (some e) =
      let rows = trace_oml_inject_icmp host pktid e.type e.sequence ipver in
      if e.type == a || e.type == b then (rows, H.returned) else ([], H.returned)

  tcp_rows : View → ℕ → Option TcpHeader → Traced
  tcp_rows v pktid none = ([], H.undefined)
  tcp_rows v pktid (some h) = (
    trace_oml_inject_tcp host pktid v.source_port v.destination_port h v.capture_length ∷ [],
    H.returned,
  )

  udp_rows : View → ℕ → Option UdpHeader → Traced
  udp_rows v pktid none = ([], H.undefined)
  udp_rows v pktid (some h) =
      (trace_oml_inject_udp host pktid v.source_port v.destination_port h ∷ [], H.returned)

  unfoldable pub transport_rows : View → ℕ → Traced
  unfolding echo_rows tcp_rows udp_rows
  transport_rows v pktid =
      if v.proto == 1
      then echo_rows pktid 4 0 8 v.icmp
      else if v.proto == 6
      then tcp_rows v pktid v.tcp
      else if v.proto == 17
      then udp_rows v pktid v.udp
      else if v.proto == 58
      then echo_rows pktid 6 128 129 v.icmp6
      else ([], H.returned)

  -- The rows of an IPv6 packet: its further headers come before its own row.
  ip6_rows : ℕ → View → ℕ → Traced
  ip6_rows fuel v pktid =
      let walked = H.trace_oml_parse_ip6_hdrs fuel v.ip6_bytes in
      andthen (map (header_row host ntop pktid) walked.0, walked.1)
        (trace_oml_inject_ip6 host ntop pktid v.ip6_src v.ip6_dst ∷ [], H.returned)

  -- `per_packet`; the bound is that of the walk over the headers.
  unfoldable pub per_packet : ℕ → Bool → View → ℕ → Traced
  unfolding ip6_rows
  per_packet fuel radiotap v pktid =
      let transport = if v.has_transport then transport_rows v pktid else ([], H.returned) in
      let ip4 =
        andthen (trace_oml_inject_ip host ntop pktid v.ip v.capture_length ∷ [], H.returned)
          transport in
      let ip6 = andthen (ip6_rows fuel v pktid) transport in
      let network =
        if v.ethertype == 2048
        then ip4
        else if v.ethertype == 34525
        then ip6
        else ([], H.returned) in
      andthen (link_rows radiotap v v.link pktid) (if v.has_l3 then network else ([], H.returned))
