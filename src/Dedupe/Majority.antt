-- ===== src/Dedupe/Majority.antt =====
-- What a SimHash fingerprint is: bit by bit the majority of the token hashes, within `bits` bits.
use Prim.Native.Nat.{bit_or}
use native.Mathlib.Nat.{
  pow-succ', div-div-eq-div-mul, one-le-pow, add-suc, suc-add, add-zero, zero-add, mul_assoc,
  div-one,
}
use webspider.Prelude.{
  ℕ, zero, suc, ◌+◌, ◌*◌, ◌/◌, ◌^◌, ◌<◌, ◌≡◌, refl, ap, ◌∙◌, arith, List, [], ◌∷◌, some, get_elem?,
  length, replicate, length-replicate, Text, if◌then◌else◌, ltb, Bool-cases, inl, inr,
}
use webspider.Bits.Step.{bit_or_step}
use webspider.Dedupe.{
  ℤ, pos, negsuc, inc, dec, is_positive, Hashing, bit_at, vote, collect, tokens, token_hash, tally,
  simhash,
}

-- The number whose binary digits say which counters are positive, lowest first.
abbrev value : List ℤ → ℕ
value [] = 0
value (x ∷ v) = (if is_positive x then 1 else 0) + 2 * value v

bit_or-top : (i out : ℕ) → out < 2 ^ i → bit_or out (2 ^ i) ≡ out + 2 ^ i
bit_or-top zero zero h = refl
bit_or-top zero (suc out) h = absurd (omega arith)
bit_or-top (suc i) out h =
    let e : 2 ^ suc i / 2 ≡ 2 ^ i = omega (arith, pow-succ' 2 i) in
    let ih : bit_or (out / 2) (2 ^ suc i / 2) ≡ out / 2 + 2 ^ i =
      rw e (bit_or-top i (out / 2) (omega (arith, pow-succ' 2 i))) in
    omega (arith, bit_or_step out (2 ^ suc i), ih, pow-succ' 2 i)

twice : (i : ℕ) (v : List ℤ) → 2 ^ suc i * value v ≡ 2 * (2 ^ i * value v)
twice i v = rw (pow-succ' 2 i, mul_assoc)

collect-value : (i out : ℕ) (v : List ℤ) → out < 2 ^ i → collect i out v ≡ out + 2 ^ i * value v
unfolding collect
collect-value i out [] h = omega arith
collect-value i out (x ∷ v) h = elim (Bool-cases (is_positive x)) [
  | inl e ↦
      rw (e, bit_or-top i out h)
        (collect-value (suc i) (out + 2 ^ i) v (omega (arith, pow-succ' 2 i))
          ∙ omega (arith, twice i v))
  | inr e ↦
      rw e (collect-value (suc i) out v (omega (arith, pow-succ' 2 i)) ∙ omega (arith, twice i v))
]

value-lt : (v : List ℤ) → value v < 2 ^ length v
value-lt [] = omega arith
value-lt (x ∷ v) = ground (arith, value-lt v, pow-succ' 2 (length v))

high : (j : ℕ) (y : ℤ) (v : List ℤ) → value (y ∷ v) / 2 ^ suc j ≡ value v / 2 ^ j
high j y v =
    let half : value (y ∷ v) / 2 ≡ value v = ground arith in
    rw (pow-succ' 2 j, ← div-div-eq-div-mul (value (y ∷ v)) 2 (2 ^ j), half)

bit_at-value :
    (v : List ℤ) (j : ℕ) (x : ℤ) → get_elem? v j ≡ some x → bit_at (value v) j ≡ is_positive x
unfolding bit_at
bit_at-value [] j x h = ground arith
bit_at-value (y ∷ v) zero x h = rw div-one (ground arith)
bit_at-value (y ∷ v) (suc j) x h = rw (high j y v) (bit_at-value v j x h)

length-vote : (h i : ℕ) (v : List ℤ) → length (vote h i v) ≡ length v
unfolding vote
length-vote h i [] = refl
length-vote h i (x ∷ v) = ap suc (length-vote h (suc i) v)

-- `x` stands for p - n.
abbrev IsDifference : ℤ → ℕ → ℕ → Type 0
IsDifference (pos k) p n = p ≡ n + k
IsDifference (negsuc k) p n = n ≡ p + suc k

IsDifference-eq :
    (x : ℤ) {p p' n n' : ℕ} → p ≡ p' → n ≡ n' → IsDifference x p n → IsDifference x p' n'
IsDifference-eq x e e' h = rw (← e, ← e') h

inc-IsDifference : (x : ℤ) (p n : ℕ) → IsDifference x p n → IsDifference (inc x) (p + 1) n
unfolding inc
inc-IsDifference (pos k) p n h = omega arith
inc-IsDifference (negsuc zero) p n h = omega arith
inc-IsDifference (negsuc (suc k)) p n h = omega arith

dec-IsDifference : (x : ℤ) (p n : ℕ) → IsDifference x p n → IsDifference (dec x) p (n + 1)
unfolding dec
dec-IsDifference (pos zero) p n h = omega arith
dec-IsDifference (pos (suc k)) p n h = omega arith
dec-IsDifference (negsuc k) p n h = omega arith

is_positive-IsDifference : (x : ℤ) (p n : ℕ) → IsDifference x p n → is_positive x ≡ ltb n p
unfolding is_positive
is_positive-IsDifference (pos zero) p n h = ground arith
is_positive-IsDifference (pos (suc k)) p n h = ground arith
is_positive-IsDifference (negsuc k) p n h = ground arith

get_elem?-vote :
    (h i : ℕ) (v : List ℤ) (j : ℕ) (x : ℤ)
    → get_elem? v j ≡ some x
    → get_elem? (vote h i v) j ≡ some (if bit_at h (i + j) then inc x else dec x)
unfolding vote
get_elem?-vote h i [] j x e = cc
get_elem?-vote h i (y ∷ v) zero x e = rw add-zero (ground arith)
get_elem?-vote h i (y ∷ v) (suc j) x e =
    rw add-suc (rw suc-add at (get_elem?-vote h (suc i) v j x e))

get_elem?-replicate : (n j : ℕ) (x : ℤ) → j < n → get_elem? (replicate n x) j ≡ some x
get_elem?-replicate zero j x h = elim h [ ]
get_elem?-replicate (suc n) zero x h = refl
get_elem?-replicate (suc n) (suc j) x h = get_elem?-replicate n j x (omega arith)

module _ (hs : Hashing) where
  -- The tokens whose hash has the bit at `j`, each as often as it occurs.
  unfoldable pub supporters : ℕ → ℕ → List Text → ℕ
  supporters bits j [] = 0
  supporters bits j (t ∷ ts) =
      (if bit_at (token_hash hs t bits) j then 1 else 0) + supporters bits j ts

  -- The tokens whose hash lacks it.
  unfoldable pub opponents : ℕ → ℕ → List Text → ℕ
  opponents bits j [] = 0
  opponents bits j (t ∷ ts) =
      (if bit_at (token_hash hs t bits) j then 0 else 1) + opponents bits j ts

  length-tally : (bits : ℕ) (ts : List Text) (v : List ℤ) → length (tally hs bits ts v) ≡ length v
  unfolding tally
  length-tally bits [] v = refl
  length-tally bits (t ∷ ts) v = length-tally bits ts _ ∙ length-vote (token_hash hs t bits) 0 v

  -- Every counter is the difference of the votes for and against its bit.
  tally-IsDifference :
      (bits j : ℕ) (ts : List Text) (v : List ℤ) (x : ℤ) (p n : ℕ)
      → get_elem? v j ≡ some x
      → IsDifference x p n
      → (y : ℤ) × (get_elem? (tally hs bits ts v) j ≡ some y)
        × IsDifference y (p + supporters bits j ts) (n + opponents bits j ts)
  unfolding tally supporters opponents
  tally-IsDifference bits j [] v x p n e d = (x, e, IsDifference-eq x (omega arith) (omega arith) d)
  tally-IsDifference bits j (t ∷ ts) v x p n e d =
      let h = token_hash hs t bits in
      let moved : get_elem? (vote h 0 v) j ≡ some (if bit_at h j then inc x else dec x) =
        rw zero-add at (get_elem?-vote h 0 v j x e) in
      elim (Bool-cases (bit_at h j)) [
        | inl set ↦
            let (y, at, d') =
              tally-IsDifference bits j ts (vote h 0 v) (inc x) (p + 1) n (rw set at moved)
                (inc-IsDifference x p n d) in
            (y, at, IsDifference-eq y (rw set (omega arith)) (rw set (omega arith)) d')
        | inr clear ↦
            let (y, at, d') =
              tally-IsDifference bits j ts (vote h 0 v) (dec x) p (n + 1) (rw clear at moved)
                (dec-IsDifference x p n d) in
            (y, at, IsDifference-eq y (rw clear (omega arith)) (rw clear (omega arith)) d')
      ]

  -- A fingerprint fits in `bits` bits.
  pub simhash-lt : (text : Text) (bits : ℕ) → simhash hs text bits < 2 ^ bits
  unfolding simhash
  simhash-lt [] bits = one-le-pow bits 2 (omega arith)
  simhash-lt (c ∷ text) bits =
      let v = tally hs bits (tokens hs (c ∷ text)) (replicate bits (pos 0)) in
      rw (collect-value 0 0 v (omega arith)) (
        omega (
          arith,
          value-lt v,
          ap (λ k. 2 ^ k)
              (length-tally bits (tokens hs (c ∷ text)) (replicate bits (pos 0))
                ∙ length-replicate bits (pos 0)),
        ))

  -- Bit `j` of the fingerprint of a text that is not empty is set exactly when more of its tokens
  -- have the bit set in their hash than not.
  pub bit_at-simhash :
      (c : ℕ) (text : Text) (bits j : ℕ)
      → j < bits
      → bit_at (simhash hs (c ∷ text) bits) j
        ≡ ltb (opponents bits j (tokens hs (c ∷ text))) (supporters bits j (tokens hs (c ∷ text)))
  unfolding simhash
  bit_at-simhash c text bits j h =
      let ts = tokens hs (c ∷ text) in
      let v = tally hs bits ts (replicate bits (pos 0)) in
      let flat : collect 0 0 v ≡ value v = collect-value 0 0 v (omega arith) ∙ omega arith in
      let (y, at, d) =
        tally-IsDifference bits j ts (replicate bits (pos 0)) (pos 0) 0 0
          (get_elem?-replicate bits j (pos 0) h) refl in
      rw flat (
        bit_at-value v j y at
        ∙ is_positive-IsDifference y _ _ (IsDifference-eq y (omega arith) (omega arith) d))
