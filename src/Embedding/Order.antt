-- ===== src/Embedding/Order.antt =====
-- What `data.sort` of py-processor/embed_chunks.py makes of entries in any order.
use webspider.Prelude.{
  ℕ, suc, ◌<◌, ◌≡◌, refl, ap, ◌∙◌, arith, true, false, List, [], ◌∷◌, ◌++◌, map, All, leb,
}
use webspider.Embedding.{insert_sorted, sort_by_index}

module _ {ℓ} (V : Type ℓ) where
  -- The same entries in any order: the first is one of the second list, and the others are the rest.
  pub data InAnyOrder : List (ℕ × V) → List (ℕ × V) → Type ℓ where
    empty : InAnyOrder [] []
    one_of :
        {l : List (ℕ × V)} (before after : List (ℕ × V)) (d : ℕ × V)
        → InAnyOrder l (before ++ after)
        → InAnyOrder (d ∷ l) (before ++ d ∷ after)

  abbrev pub numbered : ℕ → List V → List (ℕ × V)
  numbered k [] = []
  numbered k (v ∷ vs) = (k, v) ∷ numbered (suc k) vs

  pub Ascending : List (ℕ × V) → Type 0
  Ascending [] = Unit
  Ascending ((i, v) ∷ l) = All (λ (x : ℕ × V). i < x.0) l × Ascending l

  All-split :
      (P : ℕ × V → Type 0) (before after : List (ℕ × V)) (d : ℕ × V)
      → All P (before ++ d ∷ after)
      → P d × All P (before ++ after)
  All-split P [] after d h = h
  All-split P (x ∷ before) after d h =
      let (p, rest) = All-split P before after d h.1 in (p, (h.0, rest))

  Ascending-split :
      (before after : List (ℕ × V)) (d : ℕ × V)
      → Ascending (before ++ d ∷ after)
      → Ascending (before ++ after)
  unfolding Ascending
  Ascending-split [] after (i, v) h = h.1
  Ascending-split ((i, v) ∷ before) after d h = (
    (All-split (λ (x : ℕ × V). i < x.0) before after d h.0).1,
    Ascending-split before after d h.1,
  )

  insert_sorted-split :
      (before after : List (ℕ × V)) (d : ℕ × V)
      → Ascending (before ++ d ∷ after)
      → insert_sorted V d (before ++ after) ≡ before ++ d ∷ after
  unfolding insert_sorted Ascending
  insert_sorted-split [] [] (i, v) h = refl
  insert_sorted-split [] ((j, w) ∷ after) (i, v) h =
      let lower : i < j = h.0.0 in let first : leb i j ≡ true = ground arith in rw first refl
  insert_sorted-split ((j, w) ∷ before) after (i, v) h =
      let higher : j < i = (All-split (λ (x : ℕ × V). j < x.0) before after (i, v) h.0).0 in
      let later : leb i j ≡ false = ground arith in
      rw (later, insert_sorted-split before after (i, v) h.1) refl

  pub sort_by_index-InAnyOrder :
      (l m : List (ℕ × V)) → Ascending m → InAnyOrder l m → sort_by_index V l ≡ m
  unfolding sort_by_index
  sort_by_index-InAnyOrder _ _ h empty = refl
  sort_by_index-InAnyOrder (_ ∷ l) _ h (one_of before after d order) =
      ap (insert_sorted V d)
        (sort_by_index-InAnyOrder l (before ++ after) (Ascending-split before after d h) order)
      ∙ insert_sorted-split before after d h

  numbered-All : (i k : ℕ) (vs : List V) → i < k → All (λ (x : ℕ × V). i < x.0) (numbered k vs)
  numbered-All i k [] h = tt
  numbered-All i k (v ∷ vs) h = (h, numbered-All i (suc k) vs (omega arith))

  pub numbered-Ascending : (k : ℕ) (vs : List V) → Ascending (numbered k vs)
  unfolding Ascending
  numbered-Ascending k [] = tt
  numbered-Ascending k (v ∷ vs) =
      (numbered-All k (suc k) vs (omega arith), numbered-Ascending (suc k) vs)

  pub values-numbered : (k : ℕ) (vs : List V) → map (λ (d : ℕ × V). d.1) (numbered k vs) ≡ vs
  values-numbered k [] = refl
  values-numbered k (v ∷ vs) = ap (λ (l : List V). v ∷ l) (values-numbered (suc k) vs)
