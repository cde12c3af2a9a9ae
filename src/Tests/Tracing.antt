-- ===== src/Tests/Tracing.antt =====
-- trace at concrete inputs.
use soml_apps.Common.{
  ◌≤◌, ◌≡◌, ◌↔◌, ◌⊎◌, inr, refl, true, false, none, some, List, [], ◌∷◌, length, replicate, arith,
}
use soml_apps.Clib.Run.{fault}
use soml_apps.Clib.Text.{Bytes, codes}
use soml_apps.Clib.Words.{little}
use soml_apps.Trace.Headers.{returned, trace_oml_parse_ip6_hdrs, unfinished}
use soml_apps.Trace.Headers.Endless.{NamesItself, parse-unfinished}
use soml_apps.Trace.Headers.Ends.{
  Extension, destination, routing, AreExtensions, capture, parse-capture,
}
use soml_apps.Trace.Main.{Setup, Options, main}
use soml_apps.Trace.Main.Names.{main_overruns}
use soml_apps.Trace.Packet.{View, eth, per_packet}
use soml_apps.Trace.Packet.Kinds.{labels, packet_kinds}
use soml_apps.Trace.Packet.Layers.{labelled, per_packet-kinds}
use soml_apps.Trace.Rows.{Ntop}

abbrev same_text_of : Ntop
same_text_of = record { text = λ b. b }

-- An IPv6 header whose source address is read as a destination option that names itself.
abbrev looping : Bytes
looping = 96 ∷ 0 ∷ 0 ∷ 0 ∷ 0 ∷ 0 ∷ 60 ∷ 64 ∷ 60 ∷ 31 ∷ replicate 30 0

looping-NamesItself : NamesItself looping 8 60
looping-NamesItself = record {
  kind = inr refl;
  nxt = refl;
  len = 31;
  has_len = refl;
  wraps = omega arith;
}

parse-unfinished_example : trace_oml_parse_ip6_hdrs 1000 looping ≡ ([], unfinished)
parse-unfinished_example = parse-unfinished 1000 looping 60 refl looping-NamesItself

-- A destination option of 8 bytes and a routing header of 16.
abbrev chain : List Extension
chain =
    record { kind = destination; units = 0; body = replicate 6 1 }
    ∷ record { kind = routing; units = 1; body = replicate 14 2 }
    ∷ []

chain-AreExtensions : AreExtensions chain
chain-AreExtensions =
    (record { fits = omega arith; size = refl }, (record { fits = omega arith; size = refl }, tt))

parse-capture_example :
    trace_oml_parse_ip6_hdrs 3 (capture (replicate 6 0) 64 chain (7 ∷ [])) ≡ ([], returned)
parse-capture_example =
    parse-capture 3 (replicate 6 0) 64 chain (7 ∷ []) refl chain-AreExtensions (omega arith)

abbrev view : View
view = record {
  link = eth;
  mac_source = some (0 ∷ 1 ∷ 2 ∷ 3 ∷ 4 ∷ 5 ∷ []);
  mac_dst = none;
  has_l3 = true;
  ethertype = 2048;
  ip = record {
    ip_tos = 0;
    ip_len = 10240;
    ip_id = 1;
    ip_off = 64;
    ip_ttl = 64;
    ip_p = 6;
    ip_sum = 0;
    ip_src = [];
    ip_dst = [];
  };
  ip6_src = [];
  ip6_dst = [];
  ip6_bytes = [];
  has_transport = true;
  proto = 6;
  icmp = none;
  tcp = some (record { seq = 1; ack_seq = 2; window = 3; check = 4; urg_ptr = 0 });
  udp = none;
  icmp6 = none;
  source_port = 80;
  destination_port = 40000;
  capture_length = 54;
}

per_packet-kinds_example :
    labels (per_packet little same_text_of 10 true view 77).0
    ≡ labelled 77 (packet_kinds 10 true view)
per_packet-kinds_example = per_packet-kinds little same_text_of 10 true view 77

abbrev options : Options
options = record { interface = some (codes "wlan0"); radiotap = true; filter = false }

abbrev setup : Setup
setup = record { is_err = false; filter_err = 0; start_fails = false; start_err = 0 }

main_overruns_example :
    (main little same_text_of (λ n. n) 10 true (λ path. false) options setup [] ≡ fault)
    ↔ ((46 ≤ length (codes "wlan0")) ⊎ ((true ≡ true) × (45 ≤ length (codes "wlan0"))))
main_overruns_example =
    main_overruns little same_text_of (λ n. n) 10 (λ path. false) options setup [] (codes "wlan0")
      refl
