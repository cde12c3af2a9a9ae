-- ===== src/Otg/Application/Console.antt =====
-- The commands that `Application::parseRuntimeOptions` of otg2/lib/app/application.cpp can take.
use soml_apps.Common.{
  ℕ, ◌+◌, ◌≤◌, ◌≡◌, ◌≢◌, ◌↔◌, refl, true, false, Option, List, ◌∷◌, arith, leb, ◌==◌, length,
  Bool-cases, inl, inr,
}
use soml_apps.Clib.Run.{ok, fault}
use soml_apps.Clib.Text.{Bytes}
use soml_apps.Otg.Clock.{UnixTime}
use soml_apps.Otg.Stream.{Stream}
use soml_apps.Otg.Application.{Reply, Command, parse_runtime_options}

pub parse_runtime_options_overruns :
    {G : Type 0} (popt : Bytes → List Command) (configure : Bytes → G → Option G) (now c : ℕ)
    (cs : Bytes) (s : Stream × UnixTime) (g : G)
    → (parse_runtime_options popt configure now (c ∷ cs) s g ≡ fault)
      ↔ ((c ≢ b'-') × (253 ≤ length cs))
unfolding parse_runtime_options
parse_runtime_options_overruns {G} popt configure now c cs s g = elim (Bool-cases (c == b'-')) [
  | inl dash ↦
      let is_dash : c ≡ b'-' = ground arith in
      rw dash ((λ e. absurd (ok-ne-fault _ e)), (λ h. absurd (h.0 is_dash)))
  | inr letter ↦
      let no_dash : c ≢ b'-' = not_dash c letter in
      elim (Bool-cases (leb (2 + length (c ∷ cs) + 1) 256)) [
        | inl fits ↦
            rw (letter, fits) ((λ e. absurd (ok-ne-fault _ e)), (λ h. absurd (too_short h.1 fits)))
        | inr over ↦ rw (letter, over) ((λ e. (no_dash, ground arith)), (λ h. refl))
      ]
]
  where
    ok-ne-fault : (a : Reply G) → ok a ≢ fault
    ok-ne-fault a e = cc

    not_dash : (d : ℕ) → (d == b'-') ≡ false → d ≢ b'-'
    not_dash d h e = ground arith

    too_short : 253 ≤ length cs → leb (2 + length (c ∷ cs) + 1) 256 ≡ true → ⊥
    too_short h e = ground arith
