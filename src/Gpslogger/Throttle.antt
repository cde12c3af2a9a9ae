-- ===== src/Gpslogger/Throttle.antt =====
-- Which fixes gpslogger/gpslogger.c injects.
use soml_apps.Common.{
  ℕ, ◌≤◌, ◌<◌, ◌≡◌, ◌≢◌, ◌⊎◌, leb, refl, ap, ◌∙◌, sym, subst, Bool, true, false, ◌&&◌, none, some,
  List, [], ◌∷◌, ◌++◌, map, append_assoc, append-nil, arith, Bool-cases, inl, inr,
}
use soml_apps.Common.Int.{ℤ, pos, negsuc}
use soml_apps.Clib.Text.{Bytes}
use soml_apps.Gpslogger.{
  World, Fix, State, Round, Flag, verbose_flag, other_flag, start, read_flags, log_all, main,
  stopped, select_failed, timed_out, received, row, is_new, is_filtered, log_fix,
  conditionally_log_fix, process, socket_mainloop, same_integer,
}

-- Which of the fixes that come are to be injected, where the last one injected was of the second
-- `old`: those with two dimensions or more that are of another second.
pub data Chosen (w : World) : ℤ → List Fix → List Fix → Type 0 where
  over : {old : ℤ} → Chosen w old [] []
  take_fix :
      {old : ℤ} {f : Fix} {fs gs : List Fix}
      → w.floor f.time ≢ old
      → w.mode_2d ≤ f.mode
      → Chosen w (w.floor f.time) fs gs
      → Chosen w old (f ∷ fs) (f ∷ gs)
  skip_fix :
      {old : ℤ} {f : Fix} {fs gs : List Fix}
      → (w.floor f.time ≡ old) ⊎ (f.mode < w.mode_2d)
      → Chosen w old fs gs
      → Chosen w old (f ∷ fs) gs

-- The fixes that come before a signal or an error of `select`.
abbrev pub fixes_of : List Round → List Fix
fixes_of [] = []
fixes_of (stopped ∷ rs) = []
fixes_of (select_failed ∷ rs) = []
fixes_of (timed_out ∷ rs) = fixes_of rs
fixes_of (received path f ∷ rs) = f ∷ fixes_of rs

-- What has been injected between two states: the fixes chosen among these, in their order.
pub record Injected (w : World) (s t : State) (fs : List Fix) : Type 0 where
  pub chosen : List Fix
  pub rows : t.injected ≡ s.injected ++ map (row w) chosen
  pub choice : Chosen w s.old_int_time fs chosen

log_fix-injected :
    (w : World) (f : Fix) (s : State) → (log_fix w f s).injected ≡ s.injected ++ row w f ∷ []
unfolding log_fix
log_fix-injected w f s = elim (Bool-cases s.verbose) [ inl on ↦ rw on refl | inr off ↦ rw off refl ]

log_fix-old_int_time :
    (w : World) (f : Fix) (s : State) → (log_fix w f s).old_int_time ≡ s.old_int_time
unfolding log_fix
log_fix-old_int_time w f s = elim (Bool-cases s.verbose) [
  | inl on ↦ rw on refl
  | inr off ↦ rw off refl
]

same_integer_self : (a : ℤ) → same_integer a a ≡ true
same_integer_self (pos n) = ground arith
same_integer_self (negsuc n) = ground arith

leb-true : (a b : ℕ) → leb a b ≡ true → a ≤ b
leb-true a b h = ground arith

differs : (a b : ℤ) → same_integer a b ≡ false → a ≢ b
differs a b h e =
    let same : same_integer a b ≡ true = ap (same_integer a) (sym e) ∙ same_integer_self a in cc

same_integer-eq : (a b : ℤ) → same_integer a b ≡ true → a ≡ b
same_integer-eq (pos m) (pos n) h = ap pos (ground arith)
same_integer-eq (negsuc m) (negsuc n) h = ap negsuc (ground arith)
same_integer-eq (pos m) (negsuc n) h = cc
same_integer-eq (negsuc m) (pos n) h = cc

leb-false : (a b : ℕ) → leb a b ≡ false → b < a
leb-false a b h = ground arith

is_new_cases :
    (w : World) (old : ℤ) (f : Fix)
    → ((is_new w old f ≡ true) × (w.floor f.time ≢ old) × (w.mode_2d ≤ f.mode))
      ⊎ ((is_new w old f ≡ false) × ((w.floor f.time ≡ old) ⊎ (f.mode < w.mode_2d)))
is_new_cases w old f = elim (Bool-cases (same_integer (w.floor f.time) old)) [
  | inl same ↦ inr (rw same refl, inl (same_integer-eq (w.floor f.time) old same))
  | inr other ↦ elim (Bool-cases (leb w.mode_2d f.mode)) [
    | inl enough ↦
        inl (rw (other, enough) refl, differs (w.floor f.time) old other, leb-true _ _ enough)
    | inr few ↦ inr (rw (other, few) refl, inr (leb-false _ _ few))
  ]
]

log_fix-device : (w : World) (f : Fix) (s : State) → (log_fix w f s).device ≡ s.device
unfolding log_fix
log_fix-device w f s = elim (Bool-cases s.verbose) [ inl on ↦ rw on refl | inr off ↦ rw off refl ]

-- One fix, of any device where none is named.
nothing_logged : (w : World) (s : State) → Injected w s s []
nothing_logged w s = record { chosen = []; rows = sym (append-nil s.injected); choice = over }

process-Injected :
    (w : World) (path : Bytes) (f : Fix) (fs : List Fix) (s u : State)
    → s.device ≡ none
    → ((t : State) → t.device ≡ none → t ≡ process w path f s → Injected w t u fs)
    → Injected w s u (f ∷ fs)
unfolding process conditionally_log_fix is_filtered
process-Injected w path f fs s u any rest = elim (is_new_cases w s.old_int_time f) [
  | inr (old, why) ↦
      let i = rest s any (rw (any, old) refl) in
      record { chosen = i.chosen; rows = i.rows; choice = skip_fix why i.choice }
  | inl (new, second, mode) ↦
      let t = log_fix w f (record s { old_int_time = w.floor f.time }) in
      let i = rest t (log_fix-device w f _ ∙ any) (rw (any, new) refl) in
      record {
        chosen = f ∷ i.chosen;
        rows =
            i.rows
            ∙ ap (λ rs. rs ++ map (row w) i.chosen) (log_fix-injected w f _)
            ∙ append_assoc s.injected (row w f ∷ []) (map (row w) i.chosen);
        choice =
            take_fix second mode
              (subst (λ old. Chosen w old fs i.chosen) (log_fix-old_int_time w f _) i.choice);
      }
]

-- The loop injects the fixes chosen, where no device is named.
pub socket_mainloop-Injected :
    (w : World) (rounds : List Round) (s : State)
    → s.device ≡ none
    → Injected w s (socket_mainloop w rounds s) (fixes_of rounds)
unfolding socket_mainloop
socket_mainloop-Injected w [] s any = nothing_logged w s
socket_mainloop-Injected w (stopped ∷ rs) s any = nothing_logged w s
socket_mainloop-Injected w (select_failed ∷ rs) s any = nothing_logged w s
socket_mainloop-Injected w (timed_out ∷ rs) s any = socket_mainloop-Injected w rs s any
socket_mainloop-Injected w (received path f ∷ rs) s any =
    process-Injected w path f (fixes_of rs) s _ any (λ t same is.
      subst (λ p. Injected w t (socket_mainloop w rs p) (fixes_of rs)) is
        (socket_mainloop-Injected w rs t same))

abbrev is_verbose : Flag → Bool
is_verbose verbose_flag = true
is_verbose other_flag = false

abbrev pub all_verbose : List Flag → Bool
all_verbose [] = true
all_verbose (flag ∷ flags) = is_verbose flag && all_verbose flags

read_flags_cases :
    (b : Bool) (flags : List Flag)
    → ((c : Bool) × (read_flags b flags ≡ some c) × (all_verbose flags ≡ true))
      ⊎ ((read_flags b flags ≡ none) × (all_verbose flags ≡ false))
unfolding read_flags
read_flags_cases b [] = inl (b, refl, refl)
read_flags_cases b (verbose_flag ∷ flags) = read_flags_cases true flags
read_flags_cases b (other_flag ∷ flags) = inr (refl, refl)

-- What `main` ends with if it comes to its loop, and if it does not: the exit status 0 and the rows
-- of the fixes chosen, or 1 and no row.
abbrev pub Logged : World → List Round → Bool → ℕ × State → Type 0
Logged w rounds true (status, s) =
    (fs : List Fix) × (status ≡ 0)
    × (s.injected ≡ map (row w) fs)
    × Chosen w (pos 0) (fixes_of rounds) fs
Logged w rounds false (status, s) = (status ≡ 1) × (s.injected ≡ [])

logged_all :
    (w : World) (rounds : List Round) (b : Bool)
    → Logged w rounds true (log_all w true rounds (some b))
unfolding log_all
logged_all w rounds b =
    let i = socket_mainloop-Injected w rounds (record start { verbose = b }) refl in
    (i.chosen, refl, i.rows, i.choice)

accepted :
    (w : World) (opened : Bool) (rounds : List Round) (flags : List Flag) (b : Bool)
    → read_flags false flags ≡ some b
    → all_verbose flags ≡ true
    → Logged w rounds
        (opened && all_verbose flags)
        (log_all w opened rounds (read_flags false flags))
unfolding log_all
accepted w true rounds flags b e verbose = rw (e, verbose) (logged_all w rounds b)
accepted w false rounds flags b e verbose = rw e (refl, refl)

refused :
    (w : World) (opened : Bool) (rounds : List Round) (flags : List Flag)
    → read_flags false flags ≡ none
    → all_verbose flags ≡ false
    → Logged w rounds
        (opened && all_verbose flags)
        (log_all w opened rounds (read_flags false flags))
unfolding log_all
refused w true rounds flags e other = rw (e, other) (refl, refl)
refused w false rounds flags e other = rw e (refl, refl)

-- `main` of gpslogger.c comes to its loop exactly if OML is initialised, gpsd is reached and all
-- options are `-v`; it then ends with status 0 and has injected, of the fixes received before a
-- signal or an error of `select`, exactly those with two dimensions or more that are of another
-- second than the one injected before, the first of another than 0; otherwise the status is 1 and
-- nothing is injected.
pub main-Logged :
    (w : World) (initialised : Bool) (flags : List Flag) (opened : Bool) (rounds : List Round)
    → Logged w rounds
        (initialised && (opened && all_verbose flags))
        (main w initialised flags opened rounds)
unfolding main log_all
main-Logged w false flags opened rounds = (refl, refl)
main-Logged w true flags opened rounds = elim (read_flags_cases false flags) [
  | inr (e, other) ↦ refused w opened rounds flags e other
  | inl (b, e, verbose) ↦ accepted w opened rounds flags b e verbose
]
