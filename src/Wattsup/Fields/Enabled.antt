-- ===== src/Wattsup/Fields/Enabled.antt =====
-- Which columns of wattsup/wattsup.c the names of the command line enable.
use mathlib.Core.Option
use soml_apps.Common.{
  ℕ, zero, suc, ◌≡◌, refl, ap, ◌∙◌, sym, Bool, true, false, ◌||◌, Option, none, some, List, [], ◌∷◌,
  ◌==◌, if◌then◌else◌, get_elem?, Bool-cases, inl, inr, arith,
}
use soml_apps.Clib.Text.{Bytes, same_ignoring_case}
use soml_apps.Wattsup.State.{Field}
use soml_apps.Wattsup.Fields.{enabled, enable_field, enable_fields}

-- The place of the first column of this name.
unfoldable pub column_of : Bytes → List Field → Option ℕ
column_of name [] = none
column_of name (f ∷ fs) =
    if same_ignoring_case f.name name then some 0 else Option.map suc (column_of name fs)

abbrev pub is_place : Option ℕ → ℕ → Bool
is_place none j = false
is_place (some i) j = i == j

-- Whether one of the names means the column at this place.
abbrev pub is_named : List Bytes → List Field → ℕ → Bool
is_named [] fs j = false
is_named (name ∷ names) fs j = is_place (column_of name fs) j || is_named names fs j

-- A column that is enabled as well, if the test holds.
abbrev pub enabled_if : Bool → Field → Field
enabled_if b f = record f { enable = b || f.enable }

is_place-map-suc : (o : Option ℕ) (j : ℕ) → is_place (Option.map suc o) (suc j) ≡ is_place o j
is_place-map-suc none j = refl
is_place-map-suc (some i) j = ground arith

is_place-map-zero : (o : Option ℕ) → is_place (Option.map suc o) 0 ≡ false
is_place-map-zero none = refl
is_place-map-zero (some i) = ground arith

map-enabled_if-false : (o : Option Field) → Option.map (enabled_if false) o ≡ o
map-enabled_if-false none = refl
map-enabled_if-false (some f) = refl

get_elem?-enable_field :
    (name : Bytes) (fs : List Field) (j : ℕ)
    → get_elem? (enable_field name fs) j
      ≡ Option.map (enabled_if (is_place (column_of name fs) j)) (get_elem? fs j)
unfolding enable_field column_of
get_elem?-enable_field name [] j = refl
get_elem?-enable_field name (f ∷ fs) j = elim (Bool-cases (same_ignoring_case f.name name)) [
  | inl named ↦ rw named (found j)
  | inr other ↦ rw other (later j (get_elem?-enable_field name fs))
]
  where
    found :
        (k : ℕ)
        → get_elem? (enabled f ∷ fs) k ≡ Option.map (enabled_if (0 == k)) (get_elem? (f ∷ fs) k)
    found zero = refl
    found (suc k) =
        let apart : (0 == suc k) ≡ false = ground arith in
        rw apart (sym (map-enabled_if-false (get_elem? fs k)))

    later :
        (k : ℕ)
        → ((i : ℕ)
            → get_elem? (enable_field name fs) i
              ≡ Option.map (enabled_if (is_place (column_of name fs) i)) (get_elem? fs i))
        → get_elem? (f ∷ enable_field name fs) k
          ≡ Option.map
              (enabled_if (is_place (Option.map suc (column_of name fs)) k))
              (get_elem? (f ∷ fs) k)
    later zero h = rw (is_place-map-zero (column_of name fs)) refl
    later (suc k) h = rw (is_place-map-suc (column_of name fs) k) (h k)

-- Enabling a column keeps the names.
column_of-enable_field :
    (name other : Bytes) (fs : List Field)
    → column_of name (enable_field other fs) ≡ column_of name fs
unfolding column_of enable_field
column_of-enable_field name other [] = refl
column_of-enable_field name other (f ∷ fs) = elim (Bool-cases (same_ignoring_case f.name other)) [
  | inl named ↦ rw named refl
  | inr unnamed ↦ rw unnamed (
      ap (λ o. if same_ignoring_case f.name name then some 0 else Option.map suc o)
        (column_of-enable_field name other fs))
]

is_named-enable_field :
    (names : List Bytes) (other : Bytes) (fs : List Field) (j : ℕ)
    → is_named names (enable_field other fs) j ≡ is_named names fs j
is_named-enable_field [] other fs j = refl
is_named-enable_field (name ∷ names) other fs j =
    rw (column_of-enable_field name other fs, is_named-enable_field names other fs j) refl

enabled_if_twice :
    (a b : Bool) (o : Option Field)
    → Option.map (enabled_if b) (Option.map (enabled_if a) o) ≡ Option.map (enabled_if (a || b)) o
enabled_if_twice a b none = refl
enabled_if_twice true true (some f) = refl
enabled_if_twice true false (some f) = refl
enabled_if_twice false b (some f) = refl

-- After the names of the command line, a column is enabled exactly if it was before, or if it is
-- the first column of one of the names, whatever the case of the letters. Nothing else of the table
-- changes, its length included; a name that no column has is passed over.
pub enable_fields-is_named :
    (names : List Bytes) (fs : List Field) (j : ℕ)
    → get_elem? (enable_fields names fs) j
      ≡ Option.map (enabled_if (is_named names fs j)) (get_elem? fs j)
unfolding enable_fields
enable_fields-is_named [] fs j = sym (map-enabled_if-false (get_elem? fs j))
enable_fields-is_named (name ∷ names) fs j =
    enable_fields-is_named names (enable_field name fs) j
    ∙ rw (is_named-enable_field names name fs j, get_elem?-enable_field name fs j)
        (enabled_if_twice (is_place (column_of name fs) j) (is_named names fs j) (get_elem? fs j))
