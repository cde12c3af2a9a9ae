-- ===== src/Wattsup/Print/Safe.antt =====
-- `print_packet_filter` of wattsup/wattsup.c returns, on a record whose fields can be read.
use soml_apps.Common.{
  ℕ, zero, suc, ◌+◌, ◌<◌, ◌≤◌, ◌≡◌, ◌≢◌, refl, ap, ◌∙◌, Bool, true, false, ◌||◌, Option, none, some,
  [], ◌∷◌, arith, ltb, ◌==◌, length, take, Bool-cases, inl, inr, get_elem?_of_lt,
}
use soml_apps.Common.Int.{is_nat}
use soml_apps.Clib.Run.{ok}
use soml_apps.Clib.Text.{Bytes, codes}
use soml_apps.Wattsup.Packet.{Packet, wu_num_fields}
use soml_apps.Wattsup.State.{
  World, State, Settings, Prog, Double, printed, msg, unless_quiet, act, when, multiplier_value,
  ◌>>◌,
}
use soml_apps.Wattsup.State.Returns.{
  Runs, Runs-bind, Keeps, Keeps-refl, act-Runs, when-Runs, then-Runs,
}
use soml_apps.Wattsup.Print.{
  as_format, msg_format, print_delim, print_label, print_time, filter_data, print_filtered,
  print_packet_filter, time_text, read_clock,
}
use soml_apps.Wattsup.Device.Safe.{Readable}

abbrev pub NoPercent : Bytes → Type 0
NoPercent [] = Unit
NoPercent (c ∷ cs) = (c ≢ b'%') × NoPercent cs

take-NoPercent : (n : ℕ) (text : Bytes) → NoPercent text → NoPercent (take n text)
take-NoPercent zero text h = tt
take-NoPercent (suc n) [] h = tt
take-NoPercent (suc n) (c ∷ cs) h = (h.0, take-NoPercent n cs h.1)

as_format-NoPercent : (text : Bytes) → NoPercent text → as_format text ≡ ok text
unfolding as_format
as_format-NoPercent [] h = refl
as_format-NoPercent (c ∷ []) h = ground arith
as_format-NoPercent (c ∷ d ∷ cs) h =
    let rest = as_format-NoPercent (d ∷ cs) h.1 in
    let other : (c == b'%') ≡ false = ground arith in rw (other, rest) refl

unless_quiet-Runs : (m : Prog (Unit {0})) (s : State) → Runs m s → Runs (unless_quiet m) s
unless_quiet-Runs m s h = elim (Bool-cases (is_nat s.settings.verbose 0)) [
  | inl quiet ↦ (tt, s, rw quiet refl, Keeps-refl s)
  | inr loud ↦ let (a, t, run, k) = h in (a, t, rw loud run, k)
]

pub msg-Runs : (text : Bytes) (s : State) → Runs (msg text) s
msg-Runs text s = unless_quiet-Runs (act (printed text)) s (act-Runs (printed text) s)

print_delim-Runs : (s : State) → Runs print_delim s
print_delim-Runs s = msg-Runs _ s

msg_format-Runs : (text : Bytes) (s : State) → NoPercent text → Runs (msg_format text) s
unfolding msg_format
msg_format-Runs text s h = unless_quiet-Runs _ s (
    let (a, t, run, k) = act-Runs (printed text) s in
    (a, t, rw (as_format-NoPercent text h) run, k))

print_label-Runs :
    (p : Packet) (i : ℕ) (s : State) → s.settings.label ≡ false → Runs (print_label p i) s
unfolding print_label
print_label-Runs p i s off = (tt, s, rw off refl, Keeps-refl s)

print_time-Runs : (s : State) → Runs print_time s
unfolding print_time read_clock
print_time-Runs s = when-Runs (s.settings.localtime || s.settings.gmtime) _ s (λ on.
    Runs-bind (read_clock s.settings.localtime) (λ now. msg (time_text now)) s
      (_, _, refl, record { world = refl; settings = refl; fields = refl; tests = refl })
      (λ now t k. msg-Runs (time_text now) t))

-- What `%f` prints holds no `%`.
abbrev pub PrintsNumbers : World → Type 0
PrintsNumbers w = (n : ℕ) (v : Double) → NoPercent (w.print_double n v)

abbrev Shown : Option Bytes → Type 0
Shown none = Unit
Shown (some text) = NoPercent text

filter_data-Shown :
    (s : State) (p : Packet) (i : ℕ)
    → i < p.count
    → Readable p
    → length s.fields ≡ wu_num_fields
    → PrintsNumbers s.world
    → (o : Option Bytes) × (filter_data s p i ≡ ok o) × Shown o
unfolding filter_data
filter_data-Shown s p i below readable size numbers = elim (Bool-cases (ltb i wu_num_fields)) [
  | inr out ↦ (none, rw out refl, tt)
  | inl is_in ↦
      let (f, found) = get_elem?_of_lt s.fields i (ground (arith, size)) in
      let (text, read) = readable i below in
      elim (Bool-cases f.enable) [
        | inr off ↦ (none, rw (is_in, found, off) refl, tt)
        | inl on ↦ (
          some (
              take 255 (
                s.world.print_double f.precision (
                  s.world.multiply (s.world.strtod text) (multiplier_value s.world f.multiplier)))),
          rw (is_in, found, on, read) refl,
          take-NoPercent 255 _ (numbers _ _),
        )
      ]
]

-- What the printing of a record needs.
pub record CanPrint (s : State) : Type 0 where
  pub no_labels : s.settings.label ≡ false
  pub size : length s.fields ≡ wu_num_fields
  pub numbers : PrintsNumbers s.world

pub CanPrint-Keeps : {s t : State} → Keeps s t → CanPrint s → CanPrint t
CanPrint-Keeps k c = record {
  no_labels = ap (λ (x : Settings). x.label) k.settings ∙ c.no_labels;
  size = ap length k.fields ∙ c.size;
  numbers = rw k.world c.numbers;
}

show_text-Runs :
    (printed_before : Bool) (p : Packet) (i : ℕ) (text : Bytes) (rest : Prog (Unit {0})) (s : State)
    → CanPrint s
    → NoPercent text
    → ((t : State) → CanPrint t → Runs rest t)
    → Runs (do when printed_before print_delim; print_label p i; msg_format text; rest) s
show_text-Runs printed_before p i text rest s can plain next =
    then-Runs (when printed_before print_delim) (do print_label p i; msg_format text; rest) s
      (when-Runs printed_before print_delim s (λ h. print_delim-Runs s))
      (λ t k.
        let can_t = CanPrint-Keeps k can in
        then-Runs (print_label p i) (do msg_format text; rest) t
          (print_label-Runs p i t can_t.no_labels)
          (λ u l.
            then-Runs (msg_format text) rest u (msg_format-Runs text u plain)
              (λ v m. next v (CanPrint-Keeps m (CanPrint-Keeps l can_t)))))

-- One round of the loop, for what the other rounds do.
print_one-Runs :
    (k i : ℕ) (printed_before : Bool) (p : Packet) (s : State) (o : Option Bytes)
    → CanPrint s
    → Shown o
    → ((b : Bool) (t : State) → CanPrint t → Runs (print_filtered k (suc i) b p) t)
    → Runs
        (elim o [
          | none ↦ print_filtered k (suc i) printed_before p
          | some text ↦ (do
            when printed_before print_delim
            print_label p i
            msg_format text
            print_filtered k (suc i) true p)
        ])
        s
print_one-Runs k i printed_before p s none can h rest = rest printed_before s can
print_one-Runs k i printed_before p s (some text) can h rest =
    show_text-Runs printed_before p i text (print_filtered k (suc i) true p) s can h (rest true)

print_filtered-Runs :
    (k i : ℕ) (printed_before : Bool) (p : Packet) (s : State)
    → i + k ≤ p.count
    → Readable p
    → CanPrint s
    → Runs (print_filtered k i printed_before p) s
unfolding print_filtered
print_filtered-Runs zero i printed_before p s bound readable can = (tt, s, refl, Keeps-refl s)
print_filtered-Runs (suc k) i printed_before p s bound readable can =
    let (o, e, shown) = filter_data-Shown s p i (omega arith) readable can.size can.numbers in
    let (a, t, run, keeps) =
      print_one-Runs k i printed_before p s o can shown
        (λ b t can_t. print_filtered-Runs k (suc i) b p t (omega arith) readable can_t) in
    (a, t, rw e run, keeps)

pub print_packet_filter-Runs :
    (p : Packet) (s : State) → Readable p → CanPrint s → Runs (print_packet_filter p) s
unfolding print_packet_filter
print_packet_filter-Runs p s readable can =
    then-Runs print_time (do print_filtered p.count 0 false p; msg (codes "\n")) s
      (print_time-Runs s)
      (λ t k.
        then-Runs (print_filtered p.count 0 false p) (msg (codes "\n")) t
          (print_filtered-Runs p.count 0 false p t (omega arith) readable (CanPrint-Keeps k can))
          (λ u l. msg-Runs (codes "\n") u))
