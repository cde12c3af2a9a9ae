-- ===== src/Trace/Packet/Layers.antt =====
-- The rows that `per_packet` of trace/trace.c gives a packet, from the link to the transport.
use soml_apps.Common.{
  ℕ, ◌≡◌, refl, ap, ◌∙◌, sym, Bool, true, false, Option, none, some, List, [], ◌∷◌, ◌++◌, map, ◌==◌,
  ◌||◌, if◌then◌else◌, Bool-cases, inl, inr, append_assoc, append-nil,
}
use soml_apps.Clib.Run.{ok, ◌>>=◌}
use soml_apps.Clib.Text.{Bytes}
use soml_apps.Clib.Words.{Host}
use soml_apps.Trace.Headers as H
use soml_apps.Trace.Rows.{
  TcpHeader, UdpHeader, Row, Ntop, trace_oml_inject_ip, trace_oml_inject_ip6, header_row,
  trace_oml_inject_tcp, trace_oml_inject_udp, trace_oml_inject_icmp, trace_oml_inject_ethernet,
  trace_oml_inject_radiotap,
}
use soml_apps.Trace.Packet.{
  View, LinkType, radio_80211, eth, other_link, Echo, Traced, given, andthen, link_rows,
  transport_rows, echo_rows, tcp_rows, udp_rows, ip6_rows, per_packet,
}
use soml_apps.Trace.Packet.Kinds.{
  Kind, of_ip, of_ip6, of_ip6_mh, of_icmp, of_icmp6, label, labels, link_kinds, ping_kinds,
  tcp_kinds, udp_kinds, protocol_kinds, transport_kinds, header_kind, walked_kinds, network_kinds,
  packet_kinds,
}

-- Kinds of rows of one packet.
abbrev pub labelled : ℕ → List Kind → List (Kind × ℕ)
labelled pktid kinds = map (λ k. (k, pktid)) kinds

map-append {ℓ κ} :
    {A : Type ℓ} {B : Type κ} (f : A → B) (xs ys : List A) → map f (xs ++ ys) ≡ map f xs ++ map f ys
map-append f [] ys = refl
map-append f (x ∷ xs) ys = ap (◌∷◌ (f x)) (map-append f xs ys)

-- A part with the rows of these kinds, in front of another one.
andthen_lem :
    (pktid : ℕ) (a b : Traced) (ks ls : List Kind)
    → a.1 ≡ H.returned
    → labels a.0 ≡ labelled pktid ks
    → labels b.0 ≡ labelled pktid ls
    → labels (andthen a b).0 ≡ labelled pktid (ks ++ ls)
unfolding andthen
andthen_lem pktid (rows, H.undefined) b ks ls e p q = absurd (cc)
andthen_lem pktid (rows, H.unfinished) b ks ls e p q = absurd (cc)
andthen_lem pktid (rows, H.returned) b ks ls e p q =
    map-append label rows b.0
    ∙ ap (λ ms. ms ++ labels b.0) p
    ∙ ap (λ ms. labelled pktid ks ++ ms) q
    ∙ sym (map-append (λ k. (k, pktid)) ks ls)

link_rows_lem :
    (wanted : Bool) (v : View) (link : LinkType) (pktid : ℕ)
    → ((link_rows wanted v link pktid).1 ≡ H.returned)
      × (labels (link_rows wanted v link pktid).0 ≡ labelled pktid (link_kinds wanted link))
unfolding link_rows trace_oml_inject_radiotap trace_oml_inject_ethernet
link_rows_lem true v radio_80211 pktid = radio v.mac_source v.mac_dst
  where
    radio :
        (s d : Option Bytes)
        → ((given (trace_oml_inject_radiotap pktid s d >>= λ r. ok (r ∷ []))).1 ≡ H.returned)
          × (labels (given (trace_oml_inject_radiotap pktid s d >>= λ r. ok (r ∷ []))).0
              ≡ labelled pktid (link_kinds true radio_80211))
    radio none none = (refl, refl)
    radio none (some m) = (refl, refl)
    radio (some m) none = (refl, refl)
    radio (some m) (some n) = (refl, refl)
link_rows_lem false v radio_80211 pktid = (refl, refl)
link_rows_lem wanted v eth pktid = wired v.mac_source v.mac_dst
  where
    wired :
        (s d : Option Bytes)
        → ((given (trace_oml_inject_ethernet pktid v.ethertype s d >>= λ r. ok (r ∷ []))).1
            ≡ H.returned)
          × (labels (given (trace_oml_inject_ethernet pktid v.ethertype s d >>= λ r. ok (r ∷ []))).0
              ≡ labelled pktid (link_kinds wanted eth))
    wired none none = (refl, refl)
    wired none (some m) = (refl, refl)
    wired (some m) none = (refl, refl)
    wired (some m) (some n) = (refl, refl)
link_rows_lem wanted v other_link pktid = (refl, refl)

module _ (host : Host) (ntop : Ntop) where
  ping4_lem :
      (pktid : ℕ) (o : Option Echo)
      → labels (echo_rows host ntop pktid 4 0 8 o).0 ≡ labelled pktid (ping_kinds of_icmp 0 8 o)
  unfolding echo_rows trace_oml_inject_icmp
  ping4_lem pktid none = refl
  ping4_lem pktid (some e) = elim (Bool-cases (e.type == 0 || e.type == 8)) [
    | inl ping ↦ rw ping refl
    | inr other ↦ rw other refl
  ]

  ping6_lem :
      (pktid : ℕ) (o : Option Echo)
      → labels (echo_rows host ntop pktid 6 128 129 o).0
        ≡ labelled pktid (ping_kinds of_icmp6 128 129 o)
  unfolding echo_rows trace_oml_inject_icmp
  ping6_lem pktid none = refl
  ping6_lem pktid (some e) = elim (Bool-cases (e.type == 128 || e.type == 129)) [
    | inl ping ↦ rw ping refl
    | inr other ↦ rw other refl
  ]

  tcp_lem :
      (v : View) (pktid : ℕ) (o : Option TcpHeader)
      → labels (tcp_rows host ntop v pktid o).0 ≡ labelled pktid (tcp_kinds o)
  unfolding tcp_rows trace_oml_inject_tcp
  tcp_lem v pktid none = refl
  tcp_lem v pktid (some h) = refl

  udp_lem :
      (v : View) (pktid : ℕ) (o : Option UdpHeader)
      → labels (udp_rows host ntop v pktid o).0 ≡ labelled pktid (udp_kinds o)
  unfolding udp_rows trace_oml_inject_udp
  udp_lem v pktid none = refl
  udp_lem v pktid (some h) = refl

  transport_rows_lem :
      (v : View) (pktid : ℕ)
      → labels (transport_rows host ntop v pktid).0 ≡ labelled pktid (protocol_kinds v)
  unfolding transport_rows
  transport_rows_lem v pktid = elim (Bool-cases (v.proto == 1)) [
    | inl e ↦ rw e (ping4_lem pktid v.icmp)
    | inr n1 ↦ elim (Bool-cases (v.proto == 6)) [
      | inl e ↦ rw (n1, e) (tcp_lem v pktid v.tcp)
      | inr n6 ↦ elim (Bool-cases (v.proto == 17)) [
        | inl e ↦ rw (n1, n6, e) (udp_lem v pktid v.udp)
        | inr n17 ↦ elim (Bool-cases (v.proto == 58)) [
          | inl e ↦ rw (n1, n6, n17, e) (ping6_lem pktid v.icmp6)
          | inr n58 ↦ rw (n1, n6, n17, n58) refl
        ]
      ]
    ]
  ]

  abbrev transport_of : View → ℕ → Traced
  transport_of v pktid =
      if v.has_transport then transport_rows host ntop v pktid else ([], H.returned)

  transport_of_lem :
      (v : View) (pktid : ℕ) → labels (transport_of v pktid).0 ≡ labelled pktid (transport_kinds v)
  transport_of_lem v pktid = guarded v.has_transport
    where
      guarded :
          (b : Bool)
          → labels (if b then transport_rows host ntop v pktid else ([], H.returned)).0
            ≡ labelled pktid (if b then protocol_kinds v else [])
      guarded true = transport_rows_lem v pktid
      guarded false = refl

  header_rows_lem :
      (pktid : ℕ) (rs : List H.Row)
      → labels (map (header_row host ntop pktid) rs) ≡ labelled pktid (map header_kind rs)
  unfolding header_row trace_oml_inject_ip6
  header_rows_lem pktid [] = refl
  header_rows_lem pktid (H.ip6 s d ∷ rs) = ap (◌∷◌ (of_ip6, pktid)) (header_rows_lem pktid rs)
  header_rows_lem pktid (H.ip6_mh t q none ∷ rs) =
      ap (◌∷◌ (of_ip6_mh, pktid)) (header_rows_lem pktid rs)
  header_rows_lem pktid (H.ip6_mh t q (some c) ∷ rs) =
      ap (◌∷◌ (of_ip6_mh, pktid)) (header_rows_lem pktid rs)

  -- The walk, the packet's own row if it returns, and the transport.
  ip6_lem :
      (v : View) (pktid : ℕ) (rs : List H.Row) (end : H.End) (own : Row)
      → labels (own ∷ []) ≡ labelled pktid (of_ip6 ∷ [])
      → labels
          (andthen
            (andthen (map (header_row host ntop pktid) rs, end) (own ∷ [], H.returned))
            (transport_of v pktid)).0
        ≡ labelled pktid (walked_kinds v (rs, end))
  unfolding andthen
  ip6_lem v pktid rs H.returned own is_own =
      let walked : Traced = (map (header_row host ntop pktid) rs, H.returned) in
      let owned : Traced = andthen walked (own ∷ [], H.returned) in
      andthen_lem pktid owned (transport_of v pktid) (map header_kind rs ++ of_ip6 ∷ [])
        (transport_kinds v) refl
        (andthen_lem pktid walked (own ∷ [], H.returned) (map header_kind rs) (of_ip6 ∷ []) refl
          (header_rows_lem pktid rs) is_own)
        (transport_of_lem v pktid)
      ∙ ap (labelled pktid) (append_assoc (map header_kind rs) (of_ip6 ∷ []) (transport_kinds v))
  ip6_lem v pktid rs H.undefined own is_own =
      header_rows_lem pktid rs ∙ ap (labelled pktid) (sym (append-nil (map header_kind rs)))
  ip6_lem v pktid rs H.unfinished own is_own =
      header_rows_lem pktid rs ∙ ap (labelled pktid) (sym (append-nil (map header_kind rs)))

  abbrev network_of : ℕ → View → ℕ → Traced
  network_of fuel v pktid =
      if v.ethertype == 2048
      then andthen (trace_oml_inject_ip host ntop pktid v.ip v.capture_length ∷ [], H.returned)
          (transport_of v pktid)
      else if v.ethertype == 34525
      then andthen (ip6_rows host ntop fuel v pktid) (transport_of v pktid)
      else ([], H.returned)

  network_of_lem :
      (fuel : ℕ) (v : View) (pktid : ℕ)
      → labels (network_of fuel v pktid).0 ≡ labelled pktid (network_kinds fuel v)
  unfolding trace_oml_inject_ip trace_oml_inject_ip6 ip6_rows
  network_of_lem fuel v pktid = elim (Bool-cases (v.ethertype == 2048)) [
    | inl e ↦ rw e (
        andthen_lem pktid
          (trace_oml_inject_ip host ntop pktid v.ip v.capture_length ∷ [], H.returned)
          (transport_of v pktid) (of_ip ∷ []) (transport_kinds v) refl refl
          (transport_of_lem v pktid))
    | inr n ↦ elim (Bool-cases (v.ethertype == 34525)) [
      | inl e ↦
          let walked = H.trace_oml_parse_ip6_hdrs fuel v.ip6_bytes in
          rw (n, e)
            (ip6_lem v pktid walked.0 walked.1
              (trace_oml_inject_ip6 host ntop pktid v.ip6_src v.ip6_dst) refl)
      | inr m ↦ rw (n, m) refl
    ]
  ]

  -- The rows of `per_packet` are, by their measurement points and in order: one for a link of
  -- Ethernet, or of radiotap if it is asked for; for 0x0800 one of IPv4, for 0x86DD those of the
  -- headers, and, if the walk over these returns, one of IPv6; then that of TCP, UDP or a ping, by
  -- the number of the protocol. All hold the identifier of the packet.
  pub per_packet-kinds :
      (fuel : ℕ) (radio : Bool) (v : View) (pktid : ℕ)
      → labels (per_packet host ntop fuel radio v pktid).0
        ≡ labelled pktid (packet_kinds fuel radio v)
  unfolding per_packet
  per_packet-kinds fuel radio v pktid =
      let (comes, is_link) = link_rows_lem radio v v.link pktid in
      andthen_lem pktid (link_rows radio v v.link pktid)
        (if v.has_l3 then network_of fuel v pktid else ([], H.returned)) (link_kinds radio v.link)
        (if v.has_l3 then network_kinds fuel v else []) comes is_link (above v.has_l3)
    where
      above :
          (b : Bool)
          → labels (if b then network_of fuel v pktid else ([], H.returned)).0
            ≡ labelled pktid (if b then network_kinds fuel v else [])
      above true = network_of_lem fuel v pktid
      above false = refl
