-- ===== src/Quality/Scored.antt =====
-- About the score that the quality gate gives.
use native.Mathlib.Omega.{div_any}
use native.Mathlib.Nat.{mul-pos, le_of_mul-le-mul_left}
use webspider.Prelude.{
  ℕ, ◌+◌, ◌*◌, ◌/◌, ◌%◌, ◌≤◌, ◌<◌, ◌⊎◌, dec_lt, inl, inr, min, ◌≡◌, refl, arith, Bool, true, false,
  [], ◌∷◌, some, Text, length, if◌then◌else◌,
}
use webspider.Quality.{
  Ratio, round_ratio, thousandths, quality_ratio, link_ratio, unique_word_ratio, code_chars,
}
use webspider.Quality.Gate.{meta_of, gates, assess, Assessed, Limits, score_of}

-- A quotient of a number that is at most a thousand divisors.
quotient-cases : (q r d : ℕ) → 0 < d → d * q + r ≤ 1000 * d → (q < 1000) ⊎ ((q ≡ 1000) × (r ≡ 0))
quotient-cases q r d p h = elim (dec_lt q 1000) [
  | Dec.yes small ↦ inl small
  | Dec.no big ↦
      let le : q ≤ 1000 = le_of_mul-le-mul_left (omega arith) p in
      let e : q ≡ 1000 = omega arith in
      let bound : d * 1000 + r ≤ 1000 * d = (rw e at h) in inr (e, omega arith)
]

-- A ratio of at most one rounds to at most a thousand.
round_ratio-le : (n d : ℕ) → 0 < d → n ≤ 1000 * d → round_ratio n d ≤ 1000
unfolding round_ratio
round_ratio-le n d p h =
    let parts = div_any n d in
    elim (quotient-cases (n / d) (n % d) d p (omega arith)) [
      | inl small ↦ ground arith
      | inr (top, none_left) ↦ rw (top, none_left) (ground arith)
    ]

link_ratio-under : (is_word : ℕ → Bool) (text : Text) → 0 < (link_ratio is_word text).under
unfolding link_ratio
link_ratio-under is_word text = ground arith

unique_word_ratio-under :
    (is_word : ℕ → Bool) (lower : Text → Text) (text : Text)
    → 0 < (unique_word_ratio is_word lower text).under
unfolding unique_word_ratio
unique_word_ratio-under is_word lower text = ground arith

min-thousand : (a b : ℕ) → 1000 * min a b ≤ 1000 * a
min-thousand a b = omega arith

thousandths-quality_ratio :
    (n cc : ℕ) (lr ur : Ratio)
    → 0 < lr.under
    → 0 < ur.under
    → thousandths (quality_ratio n cc lr ur) ≤ 1000
unfolding thousandths quality_ratio
thousandths-quality_ratio n cc lr ur l u =
    let under = 240000 * lr.under * ur.under in
    round_ratio-le _ under (mul-pos (mul-pos (omega arith) l) u) (min-thousand under _)

quality_score-le :
    (is_word : ℕ → Bool) (lower : Text → Text) (text : Text)
    → (meta_of is_word lower text).quality_score ≤ 1000
unfolding meta_of thousandths
quality_score-le is_word lower text =
    thousandths-quality_ratio (length text) (code_chars is_word text) (link_ratio is_word text)
      (unique_word_ratio is_word lower text) (link_ratio-under is_word text)
      (unique_word_ratio-under is_word lower text)

if_same {ℓ} : {A : Type ℓ} (b : Bool) (x : A) → (if b then x else x) ≡ x
if_same true x = refl
if_same false x = refl

meta_if : (b : Bool) (x y : Assessed) → (if b then x else y).meta ≡ (if b then x.meta else y.meta)
meta_if true x y = refl
meta_if false x y = refl

gates-meta :
    (is_word : ℕ → Bool) (lower : Text → Text) (limits : Limits) (text : Text)
    → (gates is_word lower limits text).meta ≡ some (meta_of is_word lower text)
unfolding gates
gates-meta is_word lower limits text = simp (meta_if, if_same)

-- Whatever the limits, the score of a text is at most 1.0, and 0 for the empty text.
pub assess-score :
    (is_word : ℕ → Bool) (lower : Text → Text) (limits : Limits) (text : Text)
    → score_of (assess is_word lower limits text).meta ≤ 1000
unfolding assess
assess-score is_word lower limits [] = omega arith
assess-score is_word lower limits (c ∷ text) =
    rw (gates-meta is_word lower limits (c ∷ text)) (quality_score-le is_word lower (c ∷ text))
