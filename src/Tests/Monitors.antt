-- ===== src/Tests/Monitors.antt =====
-- wpamon and ripwavemon at concrete inputs.
use soml_apps.Common.{◌≡◌, ◌⊎◌, refl, true, false, none, some, List, [], ◌∷◌, replicate}
use soml_apps.Clib.Run.{ok}
use soml_apps.Clib.Text.{Bytes, codes, same_text}
use soml_apps.Clib.Tokens.{nothing}
use soml_apps.Clib.Words.{little}
use soml_apps.Ripwavemon as R
use soml_apps.Ripwavemon.{receive_reports}
use soml_apps.Ripwavemon.Layout.{Sent, AllAnswer, receive_reports_total}
use soml_apps.Wpamon as W
use soml_apps.Wpamon.{
  EventRow, handle, datagram, failed, event_loop, Heard, path_in, local_name, attach, Ending,
}
use soml_apps.Wpamon.Ends.{LeavesWith, has_server, event_loop_again, main_ends}
use soml_apps.Wpamon.Events.{connected_message, disconnected_message, added_message, handle-printed}

abbrev bssid : Bytes
bssid = codes "00:14:bf:0c:e7:a4"

handle-printed_example :
    (let said = connected_message (codes "<3") bssid nothing in
      let gone = disconnected_message (codes "<3") bssid nothing in
      let found = added_message (codes "<3") (codes "219") bssid nothing in
      (same_text [] said ≡ false
        → handle [] said ≡ (
          record { event = codes "CTRL-EVENT-CONNECTED"; bssid = bssid; full_string = said } ∷ [],
          said,
        ))
      × (same_text [] gone ≡ false
          → handle [] gone ≡ (
            record { event = codes "CTRL-EVENT-DISCONNECTED"; bssid = bssid; full_string = gone }
                ∷ [],
            gone,
          ))
      × (same_text [] found ≡ false
          → handle [] found ≡ (
            record { event = codes "CTRL-EVENT-BSS-ADDED"; bssid = bssid; full_string = found }
                ∷ [],
            found,
          )))
handle-printed_example =
    handle-printed [] (codes "<3") (codes "219") bssid nothing ((λ e. cc), refl) ((λ e. cc), refl)
      ((λ e. cc), refl)

event_loop_again_example :
    event_loop
      (datagram (codes "<3>CTRL-EVENT-BSS-ADDED 1 2") false
        ∷ datagram (codes "<3>CTRL-EVENT-BSS-ADDED 1 2") false
        ∷ failed
        ∷ [])
      []
    ≡ event_loop (datagram (codes "<3>CTRL-EVENT-BSS-ADDED 1 2") false ∷ failed ∷ []) []
event_loop_again_example =
    event_loop_again b'<' (codes "3>CTRL-EVENT-BSS-ADDED 1 2") [] (failed ∷ [])

abbrev system : W.System
system = record { socket = true; bind = true; connect = true; send = false }

abbrev options : W.Options
options = record {
  interface = codes "wlan0";
  ctrl_interface = none;
  local_path = some (codes "/tmp/s");
}

abbrev ending : Ending
ending = record { rows = []; removed = codes "/tmp/s"; status = 2 }

refused : W.main system options [] ≡ ok (some ending)
unfolding W.main
refused = refl

main_ends_example :
    (path_in (some (codes "/tmp/s")) (local_name (codes "wlan0")) ≡ ok (codes "/tmp/s"))
    × (((has_server system ≡ false) × (ending.status ≡ 1) × (ending.rows ≡ []))
        ⊎ (((has_server system ≡ true)
              × (system.send ≡ false)
              × (ending.status ≡ 2)
              × (ending.rows ≡ []))
            ⊎ ((has_server system ≡ true)
                × (system.send ≡ true)
                × ((h : Heard) × (event_loop [] [] ≡ ok h)
                    × (ending.rows ≡ h.rows)
                    × LeavesWith h.exit 2))))
main_ends_example = main_ends system options [] refused

abbrev modem : Sent
modem = record {
  modemid = 3735928559;
  time = (11, 26, 14, 12, 30, 59);
  syncstrength1 = 70;
  btsid = 3;
  networkid = 513;
  antenna = 2;
  syncstrength2 = 71;
  snr = 20;
  temperature = 40;
  pad1 = replicate 18 0;
  pad2 = replicate 17 0;
  pad3 = replicate 15 0;
  pad4 = replicate 4 0;
  pad5 = replicate 26 0;
  antpad = 5;
  pad6 = replicate 6 0;
  pad7 = replicate 12 0;
  pad8 = replicate 26 0;
  pad9 = replicate 167 0;
}

receive_reports_total_example :
    (outs : List R.Output) × (receive_reports little (some (1 ∷ 2 ∷ []) ∷ none ∷ []) ≡ ok outs)
    × AllAnswer little (some (1 ∷ 2 ∷ []) ∷ none ∷ []) outs
receive_reports_total_example = receive_reports_total little (some (1 ∷ 2 ∷ []) ∷ none ∷ [])
