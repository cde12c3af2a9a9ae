-- ===== src/Wattsup/Report/Samples.antt =====
-- What a record makes wattsup/wattsup.c inject into OML, by groups of its columns.
use soml_apps.Common.{
  ℕ, ◌<◌, ◌≡◌, refl, ap, ◌∙◌, sym, Bool, true, false, ◌||◌, Option, none, some, List, [], ◌∷◌, ◌++◌,
  if◌then◌else◌, arith, append_assoc, append-nil, map, length, get_elem?, get_elem?_of_lt,
}
use soml_apps.Common.Int.{ℤ}
use soml_apps.Clib.Run.{ok}
use soml_apps.Clib.Text.{Bytes}
use soml_apps.Wattsup.Packet.{Packet, field_text, wu_num_fields}
use soml_apps.Wattsup.State.{
  World, State, Field, Prog, power, cost, monthly, maxima, minima, meta, Double, Sample, injected,
  multiplier_value, act, when, pure, ◌>>◌, Multiplier, by_one,
}
use soml_apps.Wattsup.Report.{
  is_blank, field_from_string, is_valid, or_nan, integer_or_minus_one, report_packet_filter,
}

-- The values of a record, by column.
abbrev pub Values : Type 0
Values = ℕ → Option Double

abbrev pub multiplier_at : List Field → ℕ → Multiplier
multiplier_at fs i = elim (get_elem? fs i) [ none ↦ by_one | some f ↦ f.multiplier ]

-- A column has a value unless its text starts with `_`.
abbrev pub value_at : State → (ℕ → Bytes) → Values
value_at s texts i =
    if is_blank (texts i)
    then none
    else some (
        s.world.multiply (s.world.strtod (texts i))
          (multiplier_value s.world (multiplier_at s.fields i)))

-- A sample, if one of its columns has a value.
abbrev sample_if : Bool → Sample → List Sample
sample_if b x = if b then x ∷ [] else []

-- The groups of a record: whether one of its columns has a value, and its sample, with NaN, or -1,
-- for the columns that have none.
unfoldable pub groups : World → Values → List (Bool × Sample)
groups w v =
    let has : ℕ → Bool = λ i. is_valid (v i) in
    let d : ℕ → Double = λ i. or_nan w (v i) in
    let n : ℕ → ℤ = λ i. integer_or_minus_one w (or_nan w (v i)) in
    (
      has 0 || has 1 || has 2 || has 3 || has 16 || has 17,
      power (d 0) (d 1) (d 2) (d 3) (d 16) (d 17),
    )
    ∷ (has 4, cost (d 4))
    ∷ (has 5 || has 6, monthly (d 5) (d 6))
    ∷ (has 7 || has 8 || has 9, maxima (d 7) (d 8) (d 9))
    ∷ (has 10 || has 11 || has 12, minima (d 10) (d 11) (d 12))
    ∷ (has 13 || has 14 || has 15, meta (n 13) (n 14) (n 15))
    ∷ []

-- The samples of the groups that have a value.
abbrev pub samples : List (Bool × Sample) → List Sample
samples [] = []
samples ((b, x) ∷ gs) = sample_if b x ++ samples gs

field_from_string-value_at :
    (s : State) (p : Packet) (texts : ℕ → Bytes) (i : ℕ)
    → length s.fields ≡ wu_num_fields
    → i < wu_num_fields
    → field_text p i ≡ ok (texts i)
    → field_from_string s p i ≡ ok (value_at s texts i)
unfolding field_from_string
field_from_string-value_at s p texts i size lt e =
    let (f, found) = get_elem?_of_lt s.fields i (omega (arith, size)) in
    let same : multiplier_at s.fields i ≡ f.multiplier =
      ap (λ (o : Option Field). elim o [ none ↦ by_one | some g ↦ g.multiplier ]) found in
    rw (e, found)
      (ap
        (λ (m : Multiplier). ok (
          if is_blank (texts i)
          then none
          else some (s.world.multiply (s.world.strtod (texts i)) (multiplier_value s.world m))))
        (sym same))

-- The state after some injections.
abbrev after : State → List Sample → State
after s xs = record s { actions = s.actions ++ map injected xs }

after-append : (s : State) (xs ys : List Sample) → after (after s xs) ys ≡ after s (xs ++ ys)
after-append s xs ys =
    ap (λ as_. record s { actions = as_ })
      (append_assoc s.actions (map injected xs) (map injected ys)
        ∙ ap (λ as_. s.actions ++ as_) (map_append xs ys))
  where
    map_append :
        (us vs : List Sample) → map injected us ++ map injected vs ≡ map injected (us ++ vs)
    map_append [] vs = refl
    map_append (u ∷ us) vs = ap (◌∷◌ (injected u)) (map_append us vs)

when-injected :
    (b : Bool) (x : Sample) (s : State)
    → when b (act (injected x)) s ≡ ok (tt, after s (if b then x ∷ [] else []))
when-injected true x s = refl
when-injected false x s =
    ap (λ as_. ok (tt, record s { actions = as_ })) (sym (append-nil s.actions))

inject-then :
    (m n : Prog (Unit {0})) (s : State) (xs ys : List Sample)
    → m s ≡ ok (tt, after s xs)
    → n (after s xs) ≡ ok (tt, after (after s xs) ys)
    → (m >> n) s ≡ ok (tt, after s (xs ++ ys))
inject-then m n s xs ys e e' = rw (e, e') (ap (λ t. ok (tt, t)) (after-append s xs ys))

inject_all : List (Bool × Sample) → Prog (Unit {0})
inject_all [] = pure tt
inject_all ((b, x) ∷ []) = when b (act (injected x))
inject_all ((b, x) ∷ g ∷ gs) = do when b (act (injected x)); inject_all (g ∷ gs)

inject_all-samples :
    (gs : List (Bool × Sample)) (s : State) → inject_all gs s ≡ ok (tt, after s (samples gs))
unfolding inject_all
inject_all-samples [] s =
    ap (λ as_. ok (tt, record s { actions = as_ })) (sym (append-nil s.actions))
inject_all-samples ((b, x) ∷ []) s =
    when-injected b x s ∙ ap (λ xs. ok (tt, after s xs)) (sym (append-nil (sample_if b x)))
inject_all-samples ((b, x) ∷ g ∷ gs) s =
    inject-then (when b (act (injected x))) (inject_all (g ∷ gs)) s (sample_if b x)
      (samples (g ∷ gs)) (when-injected b x s)
      (inject_all-samples (g ∷ gs) (after s (sample_if b x)))

-- With a table of 18 columns, a record with 18 readable fields makes `report_packet_filter` run
-- without a fault, and inject the samples of the groups that have a value, in order; nothing else
-- of the state changes.
pub report_packet_filter-samples :
    (s : State) (p : Packet) (texts : ℕ → Bytes)
    → length s.fields ≡ wu_num_fields
    → ((i : ℕ) → i < wu_num_fields → field_text p i ≡ ok (texts i))
    → report_packet_filter p s
      ≡ ok (
        tt,
        record s {
          actions = s.actions ++ map injected (samples (groups s.world (value_at s texts)));
        },
      )
unfolding report_packet_filter groups inject_all
report_packet_filter-samples s p texts size readable =
    let r : (i : ℕ) → i < wu_num_fields → field_from_string s p i ≡ ok (value_at s texts i) =
      λ i lt. field_from_string-value_at s p texts i size lt (readable i lt) in
    rw
      (
        r 0 (omega arith),
        r 1 (omega arith),
        r 2 (omega arith),
        r 3 (omega arith),
        r 4 (omega arith),
        r 5 (omega arith),
        r 6 (omega arith),
        r 7 (omega arith),
        r 8 (omega arith),
        r 9 (omega arith),
        r 10 (omega arith),
        r 11 (omega arith),
        r 12 (omega arith),
        r 13 (omega arith),
        r 14 (omega arith),
        r 15 (omega arith),
        r 16 (omega arith),
        r 17 (omega arith),
      )
      (inject_all-samples (groups s.world (value_at s texts)) s)
