-- ===== src/Tests/Packets.antt =====
-- Commands and records of wattsup/wattsup.c at concrete inputs.
use soml_apps.Clib.Memory.{overwrite}
use soml_apps.Common.{ℕ, ◌≡◌, ◌≢◌, refl, false, List, [], ◌∷◌, arith, length, replicate}
use soml_apps.Clib.Run.{Run, ok, fault, Status, success}
use soml_apps.Clib.Text.{Bytes, codes, is_delimiter, until_nul, skip_spaces}
use soml_apps.Clib.Text.Laws.{split}
use soml_apps.Clib.Number.{atoi, signed_decimal}
use soml_apps.Wattsup.Packet.{Packet, packet, literal, slots, wu_strlen, wu_num_fields}
use soml_apps.Wattsup.Command.{encode, argument_text}
use soml_apps.Wattsup.Command.Format.{command_text, Encoded, encode-Encoded}
use soml_apps.Wattsup.Parse.{parse_packet}
use soml_apps.Wattsup.Parse.Header.{received}
use soml_apps.Wattsup.Parse.Overrun.{parse_packet-fault}
use soml_apps.Wattsup.Parse.Refines.{Holds, Agrees, parse_packet-Agrees}
use soml_apps.Wattsup.Parse.Spec.{message_of, header_of}
use soml_apps.Wattsup.Wire.{IsPlain, encode-parse_packet}

abbrev interval_fields : List Bytes
interval_fields = codes "1" ∷ codes "5" ∷ []

abbrev interval : Packet
interval = packet b'S' b'W' 2 (literal (codes "1") ∷ literal (codes "5") ∷ []) []

-- What has been sent, or the packet itself.
abbrev sent : Run (Packet × Status) → Packet
sent (ok r) = r.0
sent fault = interval

abbrev long_field : Bytes
long_field = replicate 250 b'1'

abbrev long_command : Packet
long_command = packet b'S' b'W' 1 (literal long_field ∷ []) []

encode-Encoded_example :
    (q : Packet) × (status : Status) × (encode long_command ≡ ok (q, status))
    × Encoded (command_text long_command (long_field ∷ [])) q status
unfolding argument_text signed_decimal
encode-Encoded_example = encode-Encoded long_command (long_field ∷ []) (refl, tt) refl (omega arith)

-- A packet into which a text has been read.
abbrev filled_with : Bytes → Packet
filled_with text = record {
  cmd = 0;
  sub_cmd = 0;
  count = 0;
  buf = overwrite text (replicate wu_strlen 0);
  len = length text;
  field = slots [] wu_num_fields;
  label = slots [] wu_num_fields;
}

abbrev answer : Packet
answer = filled_with (codes "#d,-,2, 12,7;")

parse_packet-Agrees_example : Agrees (message_of (received answer)) (parse_packet answer)
unfolding overwrite header_of split until_nul atoi
parse_packet-Agrees_example = parse_packet-Agrees answer (omega arith) (omega arith)

abbrev nineteen : Packet
nineteen = filled_with (codes "#d,-,19,1,2,3,4,5,6,7,8,9,10,11,12,13,14,15,16,17,18,19;")

parse_packet-fault_example : parse_packet nineteen ≡ fault
unfolding overwrite message_of split until_nul atoi
parse_packet-fault_example = parse_packet-fault nineteen (omega arith) refl (omega arith)

one-IsPlain :
    (c : ℕ) → is_delimiter c ≡ false → c ≢ 0 → skip_spaces (c ∷ []) ≡ c ∷ [] → IsPlain (c ∷ [])
one-IsPlain c delimiter nul spaces = record {
  undelimited = (delimiter, tt);
  no_nul = (nul, tt);
  trimmed = spaces;
}

-- What the device reads of the command.
abbrev at_device : Packet
at_device = filled_with (codes "#S,W,2,1,5;")

encode-parse_packet_example :
    (t : Packet) × (parse_packet at_device ≡ ok (t, success))
    × Holds t (record { cmd = b'S'; sub_cmd = b'W'; count = 2; fields = interval_fields })
unfolding encode skip_spaces
encode-parse_packet_example =
    encode-parse_packet interval (sent (encode interval)) at_device (codes "1") (codes "5" ∷ [])
      (record {
        cmd_undelimited = refl;
        sub_cmd_undelimited = refl;
        cmd_ne_nul = omega arith;
        sub_cmd_ne_nul = omega arith;
        counted = refl;
        bounded = omega arith;
      })
      (one-IsPlain b'1' refl (omega arith) refl, (one-IsPlain b'5' refl (omega arith) refl, tt))
      (refl, (refl, tt)) (omega arith) refl refl (omega arith) refl
