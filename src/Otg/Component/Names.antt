-- ===== src/Otg/Component/Names.antt =====
-- The names of the options of otg2 and otr2, in the second phase of their command line.
use soml_apps.Common.{
  ◌≡◌, refl, Bool, true, false, not, ◌&&◌, ◌||◌, Option, none, some, List, [], ◌∷◌, map,
}
use soml_apps.Clib.Run.{ok}
use soml_apps.Clib.Text.{Bytes, same_text}
use soml_apps.Otg.Application.{
  OutPort, udp_out, null_out, InPort, udp_in, create_in_port, create_out_port,
}
use soml_apps.Otg.Generator.{Kind, cbr, expo, create}
use soml_apps.Otg.Component.{
  PoptOption, Component, generator, out_port, in_port, Role, otg, otr, phase2, kind_component,
  in_component, out_component, create_source, create_sender,
}

-- Whether a name stands in a list.
abbrev is_in : Bytes → List Bytes → Bool
is_in name [] = false
is_in name (n ∷ ns) = same_text name n || is_in name ns

abbrev pub all_different : List Bytes → Bool
all_different [] = true
all_different (n ∷ ns) = not (is_in n ns) && all_different ns

abbrev pub names_of : List PoptOption → List Bytes
names_of opts = map (λ o. o.long_name) opts

-- A receiver that sends on what it receives.
abbrev pub is_relay : Role → Component → Bool
is_relay otr (out_port udp_out) = true
is_relay otr _ = false
is_relay otg _ = false

kind_component-some :
    (o : Option Kind) (c : Component) → kind_component o ≡ some c → (k : Kind) × (c ≡ generator k)
unfolding kind_component
kind_component-some none c e = cc
kind_component-some (some k) c e = (k, cc)

in_component-some :
    (o : Option InPort) (c : Component) → in_component o ≡ some c → (p : InPort) × (c ≡ in_port p)
unfolding in_component
in_component-some none c e = cc
in_component-some (some p) c e = (p, cc)

out_component-some :
    (o : Option OutPort) (c : Component)
    → out_component o ≡ some c
    → (p : OutPort) × (c ≡ out_port p)
unfolding out_component
out_component-some none c e = cc
out_component-some (some p) c e = (p, cc)

-- The table of options has its names, or one of them twice.
abbrev pub Named : Role → Component → Component → Type 0
Named role sender source =
    (opts : List PoptOption) × (phase2 role sender source ≡ ok opts)
    × (all_different (names_of opts) ≡ not (is_relay role sender))

sending-Named : (kind : Kind) (port : OutPort) → Named otg (out_port port) (generator kind)
unfolding phase2 same_text
sending-Named cbr udp_out = (_, refl, refl)
sending-Named cbr null_out = (_, refl, refl)
sending-Named expo udp_out = (_, refl, refl)
sending-Named expo null_out = (_, refl, refl)

receiving-Named : (sink : InPort) (port : OutPort) → Named otr (out_port port) (in_port sink)
unfolding phase2 same_text
receiving-Named udp_in udp_out = (_, refl, refl)
receiving-Named udp_in null_out = (_, refl, refl)

-- For every source and sender that the names on the command line make, the options of the
-- components fit in their tables with the entry that ends them, and no two options of the second
-- phase have one name, except in otr2 with a UDP port as its sender.
pub phase2-Named :
    (role : Role) (source_name sender_name : Bytes) (source sender : Component)
    → create_source role source_name ≡ some source
    → create_sender role sender_name ≡ some sender
    → Named role sender source
unfolding create_source create_sender
phase2-Named otg source_name sender_name source sender made_source made_sender =
    let (kind, is_kind) = kind_component-some (create source_name) source made_source in
    let (port, is_port) = out_component-some (create_out_port sender_name) sender made_sender in
    rw (is_kind, is_port) (sending-Named kind port)
phase2-Named otr source_name sender_name source sender made_source made_sender =
    let (sink, is_sink) = in_component-some (create_in_port source_name) source made_source in
    let (port, is_port) = out_component-some (create_out_port sender_name) sender made_sender in
    rw (is_sink, is_port) (receiving-Named sink port)
