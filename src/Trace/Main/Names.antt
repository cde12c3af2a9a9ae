-- ===== src/Trace/Main/Names.antt =====
-- Which names of interfaces trace/trace.c can take.
use soml_apps.Common.{
  ℕ, ◌+◌, ◌≤◌, ◌<◌, ◌≡◌, ◌≢◌, ◌↔◌, ◌⊎◌, inl, inr, refl, ap, Bool, true, false, some, List, ◌++◌,
  arith, leb, length, Bool-cases,
}
use soml_apps.Clib.Run.{Run, ok, fault, ◌>>=◌}
use soml_apps.Clib.Text.{Bytes, codes}
use soml_apps.Clib.Words.{Host}
use soml_apps.Trace.Main.{Setup, Options, append_in, radiotap_path, radiotap_on, start, main}
use soml_apps.Trace.Packet.{View}
use soml_apps.Trace.Rows.{Ntop}

append_in_fits :
    (size : ℕ) (front text : Bytes)
    → length front + length text < size
    → append_in size front text ≡ ok (front ++ text)
unfolding append_in
append_in_fits size front text h = ground arith

append_in_over :
    (size : ℕ) (front text : Bytes)
    → size ≤ length front + length text
    → append_in size front text ≡ fault
unfolding append_in
append_in_over size front text h = ground arith

radiotap_path_fits :
    (interface : Bytes)
    → length interface ≤ 44
    → radiotap_path interface ≡ ok ((codes "/proc/sys/net/" ++ interface) ++ codes "/dev_type")
unfolding radiotap_path
radiotap_path_fits interface h =
    rw (append_in_fits 68 (codes "/proc/sys/net/") interface (omega arith))
      (append_in_fits 68 (codes "/proc/sys/net/" ++ interface) (codes "/dev_type") (omega arith))

radiotap_path_over : (interface : Bytes) → 45 ≤ length interface → radiotap_path interface ≡ fault
unfolding radiotap_path
radiotap_path_over interface h = elim (Bool-cases (leb 54 (length interface))) [
  | inl long ↦ rw (append_in_over 68 (codes "/proc/sys/net/") interface (ground arith))
  | inr short ↦
      rw (append_in_fits 68 (codes "/proc/sys/net/") interface (ground arith))
        (append_in_over 68 (codes "/proc/sys/net/" ++ interface) (codes "/dev_type") (omega arith))
]

-- Whether the name of the device can be made.
radiotap_on-cases :
    (exists : Bytes → Bool) (wanted : Bool) (interface : Bytes)
    → ((on : Bool) × (radiotap_on exists wanted interface ≡ ok on)
        × ((wanted ≡ true) → length interface ≤ 44))
      ⊎ ((radiotap_on exists wanted interface ≡ fault) × (wanted ≡ true) × (45 ≤ length interface))
unfolding radiotap_on
radiotap_on-cases exists false interface = inl (false, refl, λ e. absurd (cc))
radiotap_on-cases exists true interface = elim (Bool-cases (leb 45 (length interface))) [
  | inl long ↦
      let over = radiotap_path_over interface (ground arith) in
      inr (ap (λ r. r >>= λ path. ok (exists path)) over, refl, ground arith)
  | inr short ↦
      let fits = radiotap_path_fits interface (ground arith) in
      inl (
        exists ((codes "/proc/sys/net/" ++ interface) ++ codes "/dev_type"),
        ap (λ r. r >>= λ path. ok (exists path)) fits,
        λ e. ground arith,
      )
]

abbrev TooLong : Bool → Bytes → Type 0
TooLong wanted interface = (46 ≤ length interface) ⊎ ((wanted ≡ true) × (45 ≤ length interface))

-- What follows the name of the device: the name of the source, and the rest.
ok-ne-fault {ℓ} : {A : Type ℓ} (a : A) → ok a ≢ fault
ok-ne-fault a e = cc

named_rest {ℓ} :
    {A : Type ℓ} (on : Bool) (interface : Bytes) (rest : Bool → Bytes → A)
    → length interface ≤ 45
    → (append_in 50 (codes "int:") interface >>= λ uri. ok (rest on uri)) ≢ fault
named_rest on interface rest h f =
    ok-ne-fault _ (rw (append_in_fits 50 (codes "int:") interface (omega arith)) at f)

named_over {ℓ} :
    {A : Type ℓ} (r : Run Bool) (interface : Bytes) (rest : Bool → Bytes → A)
    → (46 ≤ length interface)
    → (r >>= λ radiotap. append_in 50 (codes "int:") interface >>= λ uri. ok (rest radiotap uri))
      ≡ fault
named_over fault interface rest h = refl
named_over (ok on) interface rest h = rw (append_in_over 50 (codes "int:") interface (omega arith))

named_iff {ℓ} :
    {A : Type ℓ} (exists : Bytes → Bool) (wanted : Bool) (interface : Bytes)
    (rest : Bool → Bytes → A)
    → ((radiotap_on exists wanted interface >>= λ radiotap.
          append_in 50 (codes "int:") interface >>= λ uri. ok (rest radiotap uri))
        ≡ fault)
      ↔ TooLong wanted interface
named_iff exists wanted interface rest = elim (radiotap_on-cases exists wanted interface) [
  | inl (on, e, short) ↦
      rw e ((λ f. long_name on f), (λ t. named_over (ok on) interface rest (over short t)))
  | inr (e, w, long) ↦ rw e ((λ f. inr (w, long)), (λ t. refl))
]
  where
    long_name :
        (on : Bool)
        → (append_in 50 (codes "int:") interface >>= λ uri. ok (rest on uri)) ≡ fault
        → TooLong wanted interface
    long_name on f = elim (Bool-cases (leb 46 (length interface))) [
      | inl over ↦ inl (ground arith)
      | inr fits ↦ absurd (named_rest on interface rest (ground arith) f)
    ]

    over :
        ((wanted ≡ true) → length interface ≤ 44) → TooLong wanted interface → 46 ≤ length interface
    over short (inl h) = h
    over short (inr (w, h)) = absurd (omega (arith, short w))

-- With OML initialised and a name given, `main` of trace.c writes past an array exactly if the name
-- has 46 bytes or more, or 45 or more with radiotap.
pub main_overruns :
    (host : Host) (ntop : Ntop) (guid : ℕ → ℕ) (fuel : ℕ) (exists : Bytes → Bool) (opts : Options)
    (setup : Setup) (packets : List (View × Bool)) (interface : Bytes)
    → opts.interface ≡ some interface
    → (main host ntop guid fuel true exists opts setup packets ≡ fault)
      ↔ ((46 ≤ length interface) ⊎ ((opts.radiotap ≡ true) × (45 ≤ length interface)))
unfolding main start
main_overruns host ntop guid fuel exists opts setup packets interface named =
    rw named (named_iff exists opts.radiotap interface _)
