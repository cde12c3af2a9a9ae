-- ===== src/Wattsup/Print.antt =====
-- The output of wattsup/wattsup.c: `print_packet`, `print_time`, `filter_data` and
-- `print_packet_filter`. The field texts of the device are format strings here, as in the source.
pub mod Safe
use soml_apps.Common.{
  ℕ, zero, suc, Bool, true, false, not, ◌||◌, Option, none, some, [], ◌∷◌, ◌++◌, if◌then◌else◌, ltb,
  ◌==◌, get_elem?, take,
}
use soml_apps.Clib.Run.{Run, ok, fault, demand}
use soml_apps.Clib.Run as R
use soml_apps.Clib.Text.{Bytes, codes}
use soml_apps.Clib.Number.{decimal}
use soml_apps.Wattsup.Packet.{Packet, pointer_text, field_text, wu_num_fields}
use soml_apps.Wattsup.State.{
  Tm, State, Prog, printed, multiplier_value, ◌>>=◌, ◌>>◌, pure, lift, get, act, when, msg,
  unless_quiet,
}

-- A text that `printf` is given as its format, with no arguments.
unfoldable pub as_format : Bytes → Run Bytes
as_format [] = ok []
as_format (c ∷ []) = if c == b'%' then fault else ok (c ∷ [])
as_format (c ∷ d ∷ cs) =
    let escaped = (R.◌>>=◌ (as_format cs) (λ t. ok (b'%' ∷ t))) in
    let plain = (R.◌>>=◌ (as_format (d ∷ cs)) (λ t. ok (c ∷ t))) in
    if c == b'%' then (if d == b'%' then escaped else fault) else plain

-- `msg(text)` where the text is the format.
unfoldable pub msg_format : Bytes → Prog (Unit {0})
unfolding as_format
msg_format text = unless_quiet (do t ← lift (as_format text); act (printed t))

-- `msg("%s", wu_newline ? "\n" : wu_delim)`
abbrev pub print_delim : Prog (Unit {0})
print_delim = do s ← get; msg (if s.settings.newline then codes "\n" else s.settings.delim)

-- `if (wu_label) msg("[%s] ", p->label[i])`
unfoldable pub print_label : Packet → ℕ → Prog (Unit {0})
unfolding pointer_text
print_label p i = do
  s ← get
  when s.settings.label (do
    label ← lift (demand (get_elem? p.label i))
    unless_quiet
        (do text ← lift (pointer_text p.buf label); act (printed (b'[' ∷ (text ++ codes "] ")))))

-- `msg(p->field[i])`: the pointer is read in any case, the text only to print it.
unfoldable pub print_field : Packet → ℕ → Prog (Unit {0})
unfolding pointer_text as_format
print_field p i = do
  field ← lift (demand (get_elem? p.field i))
  unless_quiet
      (do text ← lift (pointer_text p.buf field); t ← lift (as_format text); act (printed t))

-- The loop of `print_packet`, on the rounds left.
unfoldable pub print_fields : ℕ → ℕ → Packet → Prog (Unit {0})
unfolding print_label print_field
print_fields zero i p = pure tt
print_fields (suc k) i p = do
  when (ltb 0 i) print_delim
  print_label p i
  print_field p i
  print_fields k (suc i) p

unfoldable pub print_packet : Packet → Bytes → Prog (Unit {0})
unfolding print_fields
print_packet p title = do
  s ← get
  when (not s.settings.suppress) (msg (codes "Watts Up? " ++ (title ++ codes "\n")))
  print_fields p.count 0 p
  msg (codes "\n")

-- `%02d`
abbrev pub two_digits : ℕ → Bytes
two_digits n = if ltb n 10 then b'0' ∷ decimal n else decimal n

abbrev pub time_text : Tm → Bytes
time_text t =
    b'['
    ∷ (two_digits t.hour
        ++ (b':' ∷ (two_digits t.minute ++ (b':' ∷ (two_digits t.second ++ codes "] ")))))

-- `time`, then `localtime` or `gmtime`
read_clock : Bool → Prog Tm
read_clock local s = ok (
  if local then s.world.local_time s.times_read else s.world.gm_time s.times_read,
  record s { times_read = suc s.times_read },
)

unfoldable pub print_time : Prog (Unit {0})
unfolding decimal read_clock
print_time = do
  s ← get
  when (s.settings.localtime || s.settings.gmtime)
      (do now ← read_clock s.settings.localtime; msg (time_text now))

-- `filter_data`: the text of a field that is shown, or nothing.
unfoldable pub filter_data : State → Packet → ℕ → Run (Option Bytes)
unfolding field_text
filter_data s p i =
    if ltb i wu_num_fields
    then R.◌>>=◌ (demand (get_elem? s.fields i)) (λ f.
      if f.enable
      then R.◌>>=◌ (field_text p i) (λ text.
        let value =
          s.world.multiply (s.world.strtod text) (multiplier_value s.world f.multiplier) in
        ok (some (take 255 (s.world.print_double f.precision value))))
      else ok none)
    else ok none

-- The loop of `print_packet_filter`, on the rounds left; `printed_before` is `printed != 0`.
unfoldable pub print_filtered : ℕ → ℕ → Bool → Packet → Prog (Unit {0})
unfolding filter_data print_label msg_format
print_filtered zero i printed_before p = pure tt
print_filtered (suc k) i printed_before p = do
  s ← get
  shown ← lift (filter_data s p i)
  let rest = print_filtered k (suc i) true p
  let skip = print_filtered k (suc i) printed_before p
  elim shown [
    | none ↦ skip
    | some text ↦ do when printed_before print_delim; print_label p i; msg_format text; rest
  ]

unfoldable pub print_packet_filter : Packet → Prog (Unit {0})
unfolding print_time print_filtered
print_packet_filter p = do print_time; print_filtered p.count 0 false p; msg (codes "\n")
