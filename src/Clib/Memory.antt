-- ===== src/Clib/Memory.antt =====
-- Bytes written over a buffer, blocks of the heap, and the strings in them.
use soml_apps.Common.{
  ℕ, zero, suc, ◌+◌, ◌≤◌, ◌≡◌, refl, ap, ◌==◌, if◌then◌else◌, ◌∙◌, List, [], ◌∷◌, ◌++◌, arith,
  length, take, drop,
}
use soml_apps.Clib.Run.{Run, ok, fault, ◌>>=◌}

-- Some items in place of the first ones of a list, whose length is kept.
unfoldable pub overwrite : List ℕ → List ℕ → List ℕ
overwrite [] buf = buf
overwrite (c ∷ cs) [] = []
overwrite (c ∷ cs) (b ∷ bs) = c ∷ overwrite cs bs

unfoldable pub overwrite_at : ℕ → List ℕ → List ℕ → List ℕ
unfolding overwrite
overwrite_at zero text buf = overwrite text buf
overwrite_at (suc n) text [] = []
overwrite_at (suc n) text (b ∷ bs) = b ∷ overwrite_at n text bs

pub length-overwrite : (text buf : List ℕ) → length (overwrite text buf) ≡ length buf
unfolding overwrite
length-overwrite [] buf = refl
length-overwrite (c ∷ cs) [] = refl
length-overwrite (c ∷ cs) (b ∷ bs) = ap suc (length-overwrite cs bs)

pub length-overwrite_at :
    (n : ℕ) (text buf : List ℕ) → length (overwrite_at n text buf) ≡ length buf
unfolding overwrite_at
length-overwrite_at zero text buf = length-overwrite text buf
length-overwrite_at (suc n) text [] = refl
length-overwrite_at (suc n) text (b ∷ bs) = ap suc (length-overwrite_at n text bs)

pub take-overwrite :
    (text buf : List ℕ) → length text ≤ length buf → take (length text) (overwrite text buf) ≡ text
unfolding overwrite
take-overwrite [] buf h = refl
take-overwrite (c ∷ cs) [] h = absurd (omega arith)
take-overwrite (c ∷ cs) (b ∷ bs) h = ap (◌∷◌ c) (take-overwrite cs bs (omega arith))

-- What stands at a place once it has been written there.
pub overwrite-split :
    (text buf : List ℕ)
    → length text ≤ length buf
    → overwrite text buf ≡ text ++ drop (length text) buf
unfolding overwrite
overwrite-split [] buf h = refl
overwrite-split (c ∷ cs) [] h = absurd (omega arith)
overwrite-split (c ∷ cs) (b ∷ bs) h = ap (◌∷◌ c) (overwrite-split cs bs (omega arith))

pub overwrite_at-append :
    (front text back : List ℕ) (n : ℕ)
    → n ≡ length front
    → overwrite_at n text (front ++ back) ≡ front ++ overwrite text back
unfolding overwrite_at
overwrite_at-append [] text back zero e = refl
overwrite_at-append [] text back (suc n) e = absurd (omega arith)
overwrite_at-append (c ∷ cs) text back zero e = absurd (omega arith)
overwrite_at-append (c ∷ cs) text back (suc n) e =
    ap (◌∷◌ c) (overwrite_at-append cs text back n (omega arith))

-- `malloc`: some bytes, with what memory holds from a place on.
unfoldable pub malloc : (ℕ → ℕ) → ℕ → ℕ → List ℕ
malloc memory i zero = []
malloc memory i (suc n) = memory i ∷ malloc memory (suc i) n

-- A string in a block: what is read up to its NUL, which is out of bounds if there is none.
unfoldable pub read_string : List ℕ → Run (List ℕ)
read_string [] = fault
read_string (c ∷ cs) =
    let rest = (do text ← read_string cs; ok (c ∷ text)) in if c == 0 then ok [] else rest

pub length-malloc : (memory : ℕ → ℕ) (i n : ℕ) → length (malloc memory i n) ≡ n
unfolding malloc
length-malloc memory i zero = refl
length-malloc memory i (suc n) = ap suc (length-malloc memory (suc i) n)

pub drop-malloc :
    (memory : ℕ → ℕ) (i n : ℕ) → drop n (malloc memory i (suc n)) ≡ memory (i + n) ∷ []
unfolding malloc
drop-malloc memory i zero = ap (λ k. memory k ∷ []) (omega arith)
drop-malloc memory i (suc n) = drop-malloc memory (suc i) n ∙ ap (λ k. memory k ∷ []) (omega arith)
