-- ===== src/Wattsup/Command/Buffer.antt =====
-- `sprintf` into the buffer of `wu_write` in wattsup/wattsup.c: a text, and NULs behind it.
use soml_apps.Clib.Memory.{overwrite, overwrite_at, overwrite_at-append}
use soml_apps.Common.{
  ℕ, zero, suc, ◌+◌, ◌-◌, ◌<◌, ◌≤◌, ◌≡◌, refl, ap, ◌∙◌, sym, true, false, [], ◌∷◌, ◌++◌, arith, leb,
  set, length, replicate, length-append, length-replicate, append_assoc, lt→ltb,
}
use soml_apps.Clib.Run.{ok}
use soml_apps.Clib.Text.{Bytes}
use soml_apps.Wattsup.Packet.{wu_strlen}
use soml_apps.Wattsup.Command.{print_at}

pub ge_leb : (a b : ℕ) → b < a → leb a b ≡ false
ge_leb a b h = ground arith

pub le_leb : (a b : ℕ) → a ≤ b → leb a b ≡ true
le_leb a b h = ground arith

pub overwrite-replicate :
    (text : Bytes) (m : ℕ)
    → length text < m
    → overwrite (text ++ 0 ∷ []) (replicate m 0) ≡ text ++ replicate (m - length text) 0
unfolding overwrite
overwrite-replicate [] zero h = absurd (omega arith)
overwrite-replicate [] (suc m) h =
    let left : suc m ≡ suc m - 0 = omega arith in ap (λ n. replicate n 0) left
overwrite-replicate (c ∷ cs) zero h = absurd (omega arith)
overwrite-replicate (c ∷ cs) (suc m) h =
    let left : m - length cs ≡ suc m - length (c ∷ cs) = omega arith in
    ap (◌∷◌ c) (overwrite-replicate cs m (omega arith) ∙ ap (λ n. cs ++ replicate n 0) left)

-- The buffer holds a text, and NULs up to its end.
pub record Filled (buf : Bytes) (len : ℕ) (text : Bytes) : Type 0 where
  pub left : ℕ
  pub splits : buf ≡ text ++ replicate left 0
  pub len_is : len ≡ length text
  pub whole : length text + left ≡ wu_strlen

module _ {buf : Bytes} {len : ℕ} {text : Bytes} (b : Filled buf len text) (t : Bytes) where
  unfoldable pub printed : Bytes
  printed = (text ++ t) ++ replicate (b.left - length t) 0

  pub print_at-Filled : length text + length t < wu_strlen → print_at len t buf ≡ ok printed
  unfolding print_at printed
  print_at-Filled room =
      let size : length buf ≡ wu_strlen =
        ap length b.splits
        ∙ length-append text (replicate b.left 0)
        ∙ omega (arith, length-replicate {A = ℕ} b.left 0, b.whole) in
      let back = overwrite-replicate t b.left (omega (arith, b.whole)) in
      rw (lt→ltb (len + length t) (length buf) (omega (arith, b.len_is, size))) (
        ap ok (
          ap (overwrite_at len (t ++ 0 ∷ [])) b.splits
          ∙ overwrite_at-append text (t ++ 0 ∷ []) (replicate b.left 0) len b.len_is
          ∙ ap (λ s. text ++ s) back
          ∙ sym (append_assoc text t (replicate (b.left - length t) 0))))

  pub printed-Filled :
      length text + length t < wu_strlen → Filled printed (len + length t) (text ++ t)
  unfolding printed
  printed-Filled room = record {
    left = b.left - length t;
    splits = refl;
    len_is = omega (arith, b.len_is, length-append text t);
    whole = omega (arith, b.whole, length-append text t);
  }

pub set-replicate_head : (m c : ℕ) → 0 < m → set (replicate m 0) 0 c ≡ c ∷ replicate (m - 1) 0
set-replicate_head zero c h = absurd (omega arith)
set-replicate_head (suc m) c h =
    let left : m ≡ suc m - 1 = omega arith in ap (λ n. c ∷ replicate n 0) left
