-- ===== src/Wattsup/Main/Missing.antt =====
-- An option of wattsup/wattsup.c whose parameter is optional, given without it.
use soml_apps.Common.{
  ℕ, zero, suc, ◌≡◌, refl, ap, ◌∙◌, sym, subst, true, none, some, List, [], ◌∷◌, get_elem?, ◌⊎◌,
  inl, inr,
}
use soml_apps.Clib.Run.{Run, ok, fault, success, Status}
use soml_apps.Wattsup.State.{State, Given}
use soml_apps.Wattsup.Options.{
  Opt, interval, mode, index, enable_long_option, wu_check_option, wu_option_value,
}
use soml_apps.Wattsup.Store.{wu_check_store, wu_store, wu_store_interval, wu_store_mode}
use soml_apps.Wattsup.Main.{long, read_options, set_options}

enabled_at :
    (i : ℕ) (gs : List Given) {g : Given}
    → get_elem? gs i ≡ some g
    → get_elem? (enable_long_option i none gs) i ≡ some (record g { flag = true })
unfolding enable_long_option
enabled_at i [] e = cc
enabled_at zero (h ∷ gs) {g} e =
    let same : h ≡ g = cc in ap (λ (x : Given). some (record x { flag = true })) same
enabled_at (suc i) (h ∷ gs) e = enabled_at i gs e

-- The option `o` is set and has no value.
record IsBare (o : Opt) (t : State) : Type 0 where
  given : Given
  found : get_elem? t.options (index o) ≡ some given
  flag : given.flag ≡ true
  no_value : given.value ≡ none

wu_check_option-Bare : (o : Opt) (t : State) → IsBare o t → wu_check_option t (index o) ≡ true
unfolding wu_check_option
wu_check_option-Bare o t b = rw (b.found, wu_check_option) b.flag

wu_option_value-Bare : (o : Opt) (t : State) → IsBare o t → wu_option_value t (index o) ≡ none
unfolding wu_option_value
wu_option_value-Bare o t b = rw (b.found, wu_option_value) b.no_value

wu_check_store-set :
    (o : Opt) (t : State) → wu_check_option t (index o) ≡ true → wu_check_store o t ≡ wu_store o t
unfolding wu_check_store
wu_check_store-set o t e = rw e refl

interval-null : (t : State) → IsBare interval t → wu_check_store interval t ≡ fault
unfolding wu_store wu_store_interval
interval-null t b =
    wu_check_store-set interval t (wu_check_option-Bare interval t b)
    ∙ rw (wu_option_value-Bare interval t b) refl

mode-null : (t : State) → IsBare mode t → wu_check_store mode t ≡ fault
unfolding wu_store wu_store_mode
mode-null t b =
    wu_check_store-set mode t (wu_check_option-Bare mode t b)
    ∙ rw (wu_option_value-Bare mode t b) refl

options_of : Run (Status × State) → List Given
options_of (ok r) = r.1.options
options_of fault = []

long_option-Bare :
    (o : Opt) (s t : State) {g : Given}
    → get_elem? s.options (index o) ≡ some g
    → g.value ≡ none
    → read_options (long (index o) none ∷ []) s ≡ ok (success, t)
    → IsBare o t
unfolding read_options set_options options_of
long_option-Bare o s t {g} found no_value run =
    let options : enable_long_option (index o) none s.options ≡ t.options = ap options_of run in
    record {
      given = record g { flag = true };
      found =
          ap (λ gs. get_elem? gs (index o)) (sym options) ∙ enabled_at (index o) s.options found;
      flag = refl;
      no_value = no_value;
    }

-- Once the parser of the command line has read `--interval` or `--mode` with no parameter, which
-- the table declares optional, the `store` method of that option reads through a null pointer.
pub wu_check_store-missing :
    (o : Opt) (s t : State) {g : Given}
    → (o ≡ interval) ⊎ (o ≡ mode)
    → get_elem? s.options (index o) ≡ some g
    → g.value ≡ none
    → read_options (long (index o) none ∷ []) s ≡ ok (success, t)
    → wu_check_store o t ≡ fault
wu_check_store-missing o s t (inl i) found no_value run =
    rw i (interval-null t (subst (λ x. IsBare x t) i (long_option-Bare o s t found no_value run)))
wu_check_store-missing o s t (inr m) found no_value run =
    rw m (mode-null t (subst (λ x. IsBare x t) m (long_option-Bare o s t found no_value run)))
