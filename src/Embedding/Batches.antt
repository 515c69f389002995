-- ===== src/Embedding/Batches.antt =====
-- The batches of `batch_texts` cut the items into consecutive parts.
use webspider.Prelude.{
  ℕ, zero, suc, ◌+◌, ◌-◌, ◌≤◌, ◌<◌, ◌≡◌, refl, sym, ap, arith, List, [], ◌∷◌, ◌++◌, length, take,
  drop,
}
use webspider.Embedding.{batches_from, batch_texts}

-- The batches are the parts of `rest`, each with the offset at which it stands and with one to
-- `size` items.
abbrev pub IsCut {ℓ} : {A : Type ℓ} → ℕ → ℕ → List A → List (ℕ × List A) → Type ℓ
IsCut size at rest [] = rest ≡ []
IsCut {A} size at rest ((offset, batch) ∷ batches) =
    (offset ≡ at)
    × (1 ≤ length batch)
    × (length batch ≤ size)
    × (tail : List A) × (rest ≡ batch ++ tail)
    × IsCut size (at + length batch) tail batches

module _ {ℓ} {A : Type ℓ} where
  take-drop : (n : ℕ) (xs : List A) → take n xs ++ drop n xs ≡ xs
  take-drop zero xs = refl
  take-drop (suc n) [] = refl
  take-drop (suc n) (x ∷ xs) = ap (λ (l : List A). x ∷ l) (take-drop n xs)

  length-take-le : (n : ℕ) (xs : List A) → length (take n xs) ≤ n
  length-take-le zero xs = omega arith
  length-take-le (suc n) [] = omega arith
  length-take-le (suc n) (x ∷ xs) = omega (arith, length-take-le n xs)

  length-drop : (n : ℕ) (xs : List A) → length (drop n xs) ≡ length xs - n
  length-drop zero xs = omega arith
  length-drop (suc n) [] = omega arith
  length-drop (suc n) (x ∷ xs) = omega (arith, length-drop n xs)

  length-take : (n : ℕ) (xs : List A) → n ≤ length xs → length (take n xs) ≡ n
  length-take zero xs h = refl
  length-take (suc n) [] h = omega arith
  length-take (suc n) (x ∷ xs) h = omega (arith, length-take n xs)

  pub drop-append : (xs ys : List A) → drop (length xs) (xs ++ ys) ≡ ys
  drop-append [] ys = refl
  drop-append (x ∷ xs) ys = drop-append xs ys

  pub batches_from-IsCut :
      (fuel size at at' : ℕ) (items : List A)
      → 0 < size
      → length items ≤ fuel
      → (1 ≤ length items → at ≡ at')
      → IsCut size at' items (batches_from fuel size at items)
  unfolding batches_from
  batches_from-IsCut zero size at at' [] p h e = refl
  batches_from-IsCut zero size at at' (x ∷ items) p h e = absurd (omega arith)
  batches_from-IsCut (suc fuel) size at at' [] p h e = refl
  batches_from-IsCut (suc fuel) zero at at' (x ∷ items) p h e = absurd (omega arith)
  batches_from-IsCut (suc fuel) (suc n) at at' (x ∷ items) p h e = (
    e (omega arith),
    omega arith,
    omega (arith, length-take-le n items),
    drop n items,
    ap (λ (l : List A). x ∷ l) (sym (take-drop n items)),
    batches_from-IsCut fuel (suc n) (at + suc n) (at' + suc (length (take n items))) (drop n items)
        p (omega (arith, length-drop n items))
        (λ (some_left : 1 ≤ length (drop n items)).
          omega (arith, e (omega arith), length-drop n items, length-take n items)),
  )

-- For a batch size that is not 0, the fuel is enough: the batches of `batch_texts` are consecutive
-- parts that make up the items, with their offsets, none empty and none longer than the size.
pub batch_texts-IsCut {ℓ} :
    {A : Type ℓ} (items : List A) (size : ℕ)
    → 0 < size
    → IsCut size 0 items (batch_texts items size)
unfolding batch_texts
batch_texts-IsCut items size p =
    batches_from-IsCut (length items) size 0 0 items p (omega arith) (λ _. refl)
