-- ===== src/Collectd/Session/Unique.antt =====
-- The measurement points of collectd/write_oml/write_oml.c have different names.
use soml_apps.Common.{
  ℕ, zero, suc, ◌≡◌, refl, ap, ◌∙◌, true, none, some, List, [], ◌∷◌, take, length, Option-cases,
  inl, inr, arith,
}
use soml_apps.Clib.Run.{ok}
use soml_apps.Clib.Text.{Bytes, same_text}
use soml_apps.Collectd.Session.{
  Def, DataSet, MPoint, Session, same_name, configure_mpoint, find_mpoint_struct, create_mpoint,
  find_mpoint, or_create,
}

take-take : (n : ℕ) (text : Bytes) → take n (take n text) ≡ take n text
take-take zero text = refl
take-take (suc n) [] = refl
take-take (suc n) (c ∷ cs) = ap (◌∷◌ c) (take-take n cs)

same_text_self : (text : Bytes) → same_text text text ≡ true
unfolding same_text
same_text_self [] = refl
same_text_self (c ∷ cs) = ground (arith, same_text_self cs)

find_mpoint_struct-take :
    (n : ℕ) (name : Bytes) (mps : List MPoint)
    → find_mpoint_struct n (take n name) mps ≡ find_mpoint_struct n name mps
unfolding find_mpoint_struct
find_mpoint_struct-take n name [] = refl
find_mpoint_struct-take n name (mp ∷ mps) =
    rw (take-take n name, find_mpoint_struct-take n name mps) refl

-- No point has the name of a later one.
abbrev pub Unique : ℕ → List MPoint → Type 0
Unique n [] = Unit
Unique n (mp ∷ mps) = (find_mpoint_struct n mp.name mps ≡ none) × Unique n mps

-- What `find_mpoint` leaves: a point of the session, under the name of the data set.
pub record Found (n : ℕ) (ds : DataSet) (s : Session) (mp : MPoint) (t : Session) : Type 0 where
  pub returns : find_mpoint n ds s ≡ ok (mp, t)
  pub unique : Unique n t.mpoint
  pub found : find_mpoint_struct n ds.type t.mpoint ≡ some mp
  pub initialized : t.oml_initialized ≡ s.oml_initialized
  pub injected : t.injected ≡ s.injected

new_name :
    (n : ℕ) (ds : DataSet) (mp : MPoint) (mps : List MPoint)
    → mp.name ≡ take n ds.type
    → find_mpoint_struct n ds.type (mp ∷ mps) ≡ some mp
unfolding find_mpoint_struct
new_name n ds mp mps e =
    let same : same_name n mp.name ds.type ≡ true =
      ap (λ x. same_name n x ds.type) e
      ∙ ap (λ x. same_text x (take n ds.type)) (take-take n ds.type)
      ∙ same_text_self (take n ds.type) in
    rw same refl

-- `find_mpoint` returns the point of the session that has the name of the data set, which it makes
-- if there is none, if no data source has a type above 3; the names of the points stay different,
-- so that the next call with that name finds the same point, and no other part of the session
-- changes.
pub find_mpoint-Found :
    (n : ℕ) (ds : DataSet) (s : Session) {defs : List Def}
    → Unique n s.mpoint
    → configure_mpoint ds.ds ≡ ok defs
    → (mp : MPoint) × (t : Session) × Found n ds s mp t
unfolding find_mpoint create_mpoint
find_mpoint-Found n ds s {defs} unique e =
    elim (Option-cases (find_mpoint_struct n ds.type s.mpoint)) [
      | inr (mp, there) ↦ (
        mp,
        s,
        record {
          returns = ap (or_create n ds s) there;
          unique = unique;
          found = there;
          initialized = refl;
          injected = refl;
        },
      )
      | inl nothing ↦
          let mp : MPoint = record {
            name = take n ds.type;
            oml_mp = length s.mpoint;
            mp_defs = defs;
          } in
          (
            mp,
            record s { mpoint = mp ∷ s.mpoint },
            record {
              returns = ap (or_create n ds s) nothing ∙ rw (e, create_mpoint) refl;
              unique = (find_mpoint_struct-take n ds.type s.mpoint ∙ nothing, unique);
              found = new_name n ds mp s.mpoint refl;
              initialized = refl;
              injected = refl;
            },
          )
    ]
