-- ===== src/Wattsup/Show.antt =====
-- The `show` methods of wattsup/wattsup.c: a request, its answer, and the answer printed.
use soml_apps.Common.{Bool, true, false, [], ◌∷◌, if◌then◌else◌, not}
use soml_apps.Clib.Run.{Status, success, is_failed}
use soml_apps.Clib.Text.{Bytes, codes}
use soml_apps.Wattsup.Packet.{Packet, packet}
use soml_apps.Wattsup.State.{Prog, printed, showed_help, ◌>>=◌, ◌>>◌, pure, get, act, when}
use soml_apps.Wattsup.Device.{exchange, labels}
use soml_apps.Wattsup.Print.{print_packet}
use soml_apps.Wattsup.Options.{
  Opt, help, version, cal, header, interval, mode, user, index, wu_check_option,
}

-- What the methods share: the answer is printed under a title unless the exchange failed.
unfoldable pub show_answer : Packet → Bytes → Prog Status
unfolding exchange print_packet
show_answer p title = do
  (q, status) ← exchange true p
  when (not (is_failed status)) (print_packet q title)
  pure status

unfoldable pub header_packet : Packet
header_packet = packet b'H' b'R' 0 [] (
    labels (
      codes "watts header"
      ∷ codes "volts header"
      ∷ codes "amps header"
      ∷ codes "kWh header"
      ∷ codes "cost header"
      ∷ codes "mo. kWh header"
      ∷ codes "mo. cost header"
      ∷ codes "max watts header"
      ∷ codes "max volts header"
      ∷ codes "max amps header"
      ∷ codes "min watts header"
      ∷ codes "min volts header"
      ∷ codes "min amps header"
      ∷ codes "power factor header"
      ∷ codes "duty cycle header"
      ∷ codes "power cycle header"
      ∷ codes "line frequency header"
      ∷ codes "apparent power header"
      ∷ []))

unfoldable pub wu_show_header : Prog Status
unfolding show_answer header_packet
wu_show_header = show_answer header_packet (codes "Header Record")

unfoldable pub cal_packet : Packet
cal_packet = packet b'F' b'R' 0 [] (
    labels (
      codes "flags"
      ∷ codes "sample count"
      ∷ codes "volts gain"
      ∷ codes "volts bias"
      ∷ codes "amps gain"
      ∷ codes "amps bias"
      ∷ codes "amps offset"
      ∷ codes "low amps gain"
      ∷ codes "low amps bias"
      ∷ codes "low amps offset"
      ∷ codes "watts gain"
      ∷ codes "watts offset"
      ∷ codes "low watts gain"
      ∷ codes "low watts offset"
      ∷ []))

unfoldable pub wu_show_cal : Prog Status
unfolding show_answer cal_packet
wu_show_cal = show_answer cal_packet (codes "Calibration Settings")

unfoldable pub interval_packet : Packet
interval_packet = packet b'S' b'R' 0 [] (labels (codes "reserved" ∷ codes "interval" ∷ []))

unfoldable pub wu_show_interval : Prog Status
unfolding show_answer interval_packet
wu_show_interval = show_answer interval_packet (codes "Interval Settings")

unfoldable pub mode_packet : Packet
mode_packet = packet b'M' b'R' 0 [] (labels (codes "display mode" ∷ []))

-- With no pause, and the answer only dumped for debugging.
unfoldable pub wu_show_mode : Prog Status
unfolding exchange mode_packet
wu_show_mode = do (q, status) ← exchange false mode_packet; pure status

unfoldable pub user_packet : Packet
user_packet = packet b'U' b'R' 0 [] (
    labels (
      codes "cost per kWh"
      ∷ codes "2nd tier cost"
      ∷ codes "2nd tier threshold"
      ∷ codes "duty cycle threshold"
      ∷ []))

unfoldable pub wu_show_user : Prog Status
unfolding show_answer user_packet
wu_show_user = show_answer user_packet (codes "User Settings")

unfoldable pub wu_show_version : Prog Status
wu_show_version = do act (printed (codes "wattsup Version 0.02\n")); pure success

-- `wu_show(index, fd)`: 0 where the option has no method. The text of the help is not modelled.
unfoldable pub wu_show : Opt → Prog Status
unfolding wu_show_header wu_show_cal wu_show_interval wu_show_mode wu_show_user wu_show_version
wu_show help = do v ← wu_show_version; act showed_help; pure success
wu_show version = wu_show_version
wu_show cal = wu_show_cal
wu_show header = wu_show_header
wu_show interval = wu_show_interval
wu_show mode = wu_show_mode
wu_show user = wu_show_user
wu_show _ = pure success

-- `wu_check_show`: the method is called if the option is set, and its result dropped.
unfoldable pub wu_check_show : Opt → Prog Bool
unfolding wu_show wu_check_option
wu_check_show o = do
  s ← get
  if wu_check_option s (index o) then (do dropped ← wu_show o; pure true) else pure false
