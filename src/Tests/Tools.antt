-- ===== src/Tests/Tools.antt =====
-- nmetrics, gpslogger and the metadata of every tool at concrete inputs.
use soml_apps.Common.{ℕ, ◌≡◌, refl, true, false, List, [], ◌∷◌, leb, arith}
use soml_apps.Common.Int.{pos}
use soml_apps.Clib.Run.{ok}
use soml_apps.Clib.Text.{Bytes, codes}
use soml_apps.Metadata.{oml_inject_metadata}
use soml_apps.Metadata.CommandLine.{spaced, oml_inject_metadata-spaced}
use soml_apps.Nmetrics as N
use soml_apps.Nmetrics.Differences.{rows_of, main-rows_of}
use soml_apps.Gpslogger as G
use soml_apps.Gpslogger.{received, timed_out, verbose_flag}
use soml_apps.Gpslogger.Throttle.{Logged, main-Logged}

abbrev argv : List Bytes
argv = codes "wattsup" ∷ codes "ttyUSB0" ∷ codes "watts" ∷ []

oml_inject_metadata-spaced_example :
    oml_inject_metadata (codes "wattsup") (codes "2.11.0") argv
    ≡ ok (
        record { key = codes "appname"; value = codes "wattsup" }
        ∷ record { key = codes "version"; value = codes "2.11.0" }
        ∷ record { key = codes "cmdline"; value = spaced argv }
        ∷ [])
oml_inject_metadata-spaced_example =
    oml_inject_metadata-spaced (codes "wattsup") (codes "2.11.0") argv

abbrev stat : ℕ → N.Stat
stat n = record {
  rx_packets = n;
  rx_bytes = n;
  rx_errors = 0;
  rx_dropped = 0;
  rx_overruns = 0;
  rx_frame = 0;
  tx_packets = n;
  tx_bytes = n;
  tx_errors = 0;
  tx_dropped = 0;
  tx_overruns = 0;
  tx_collisions = 0;
  tx_carrier = 7;
  speed = 100000000;
}

abbrev world : N.World
world = record {
  cpu_get = λ n. [];
  mem_get = λ n. n ∷ [];
  stat_get = λ n name. stat n;
  stop_loop = λ n. leb 2 n;
}

abbrev opts : N.Opts
opts = record { report_cpu = false; report_memory = true }

main-rows_of_example :
    N.main 3 true (codes "lo" ∷ codes "eth0" ∷ []) world opts
    ≡ ok (0, rows_of world opts (world.stat_get 0) (codes "eth0" ∷ codes "lo" ∷ []) 2 0)
main-rows_of_example =
    main-rows_of 3 2 (codes "lo" ∷ codes "eth0" ∷ []) world opts (omega arith, (omega arith, tt))
      (omega arith) (λ n h. ground arith) refl

abbrev gps_world : G.World
gps_world = record {
  mode_no_fix = 1;
  mode_2d = 2;
  floor = λ v. pos v;
  gmtime = λ t. record {
    tm_year = 113;
    tm_mon = 6;
    tm_mday = 11;
    tm_hour = 13;
    tm_min = 31;
    tm_sec = 23;
  };
  print_double = λ v. codes "0.0";
}

abbrev fix_at : ℕ → G.Fix
fix_at n = record {
  time = n;
  mode = 3;
  latitude = 0;
  longitude = 0;
  altitude = 0;
  track = 0;
  speed = 0;
  climb = 0;
}

abbrev rounds : List G.Round
rounds =
    received (codes "/dev/gps0") (fix_at 5)
    ∷ received (codes "/dev/gps0") (fix_at 5)
    ∷ timed_out
    ∷ received (codes "/dev/gps0") (fix_at 6)
    ∷ []

main-Logged_example :
    Logged gps_world rounds true (G.main gps_world true (verbose_flag ∷ []) true rounds)
main-Logged_example = main-Logged gps_world true (verbose_flag ∷ []) true rounds
