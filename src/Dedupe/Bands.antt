-- ===== src/Dedupe/Bands.antt =====
-- Two fingerprints at a Hamming distance below the number of bands share a band key.
use native.Mathlib.Nat.{
  zero-add, suc-add, add_comm, mul_assoc, pow-succ', mod-lt, one-le-pow, div-lt_iff_lt-mul,
  div-le_self,
}
use mathlib.Core.Path.{subst}
use webspider.Prelude.{
  ℕ, zero, suc, ◌+◌, ◌-◌, ◌*◌, ◌/◌, ◌%◌, ◌^◌, ◌<◌, ◌≡◌, ◌≢◌, refl, arith, List, ◌∷◌, length, All,
  ℕ_discrete, ap, ◌∙◌,
}
use webspider.Bits.Diff.{diff, diff-add, diff-mod, diff-shift, eq_of_diff-zero, bit_count-bit_xor}
use webspider.Outcome.{ok}
use webspider.Dedupe.{hamming, band_keys, bucket_keys}

pub hamming-diff : (k a b : ℕ) → a < 2 ^ k → b < 2 ^ k → hamming a b ≡ diff k a b
unfolding hamming
hamming-diff k a b p q = bit_count-bit_xor k a b p q

pub length-band_keys : (bits w s n h : ℕ) → length (band_keys bits w s n h) ≡ n
unfolding band_keys
length-band_keys bits w s zero h = refl
length-band_keys bits w s (suc n) h = ap suc (length-band_keys bits w s n _)

-- The same key stands at the same place in both lists.
pub data SharesBand : List ℕ → List ℕ → Type 0 where
  here : {x y : ℕ} {xs ys : List ℕ} → x ≡ y → SharesBand (x ∷ xs) (y ∷ ys)
  there : {x y : ℕ} {xs ys : List ℕ} → SharesBand xs ys → SharesBand (x ∷ xs) (y ∷ ys)

-- The bits below the top band, shifted up by its width, differ where they did.
next_round :
    (w s a b : ℕ) → diff (w + s) (a * 2 ^ w % 2 ^ (w + s)) (b * 2 ^ w % 2 ^ (w + s)) ≡ diff s a b
next_round w s a b = diff-mod (w + s) (a * 2 ^ w) (b * 2 ^ w) ∙ diff-shift w s a b

pow-add : (w s : ℕ) → 2 ^ (w + s) ≡ 2 ^ w * 2 ^ s
pow-add zero s = rw zero-add (omega arith)
pow-add (suc w) s = rw (suc-add, pow-succ' 2 (w + s), pow-add w s, pow-succ' 2 w, mul_assoc)

pub two-pow-pos : (k : ℕ) → 0 < 2 ^ k
two-pow-pos k = one-le-pow k 2 (omega arith)

-- What is left of `w + s` bits above the lowest `s`.
div-pow-lt : (w s a : ℕ) → a < 2 ^ (w + s) → a / 2 ^ s < 2 ^ w
div-pow-lt w s a p = (div-lt_iff_lt-mul (two-pow-pos s)).1 (rw (← pow-add w s) p)

-- Top bands with different keys take a share of the distance.
top_differs :
    (w s a b : ℕ)
    → a < 2 ^ (w + s)
    → b < 2 ^ (w + s)
    → a / 2 ^ s ≢ b / 2 ^ s
    → diff s a b < diff (w + s) a b
top_differs w s a b p q ne = omega (
  arith,
  ap (λ k. diff k a b) (add_comm w s),
  diff-add s w a b,
  λ (e : diff w (a / 2 ^ s) (b / 2 ^ s) ≡ 0).
      ne (eq_of_diff-zero w _ _ (div-pow-lt w s a p) (div-pow-lt w s b q) e),
)

band_keys-SharesBand :
    (w s n a b : ℕ)
    → a < 2 ^ (w + s)
    → b < 2 ^ (w + s)
    → diff (w + s) a b < n
    → SharesBand (band_keys (w + s) w s n a) (band_keys (w + s) w s n b)
unfolding band_keys
band_keys-SharesBand w s zero a b p q h = elim h [ ]
band_keys-SharesBand w s (suc n) a b p q h = elim (ℕ_discrete (a / 2 ^ s) (b / 2 ^ s)) [
  | yes e ↦ here e
  | no ne ↦ there (
      band_keys-SharesBand w s n _ _ (mod-lt _ (two-pow-pos (w + s)))
        (mod-lt _ (two-pow-pos (w + s)))
        (omega (arith, next_round w s a b, top_differs w s a b p q ne)))
]

-- The key of a band: the bits of `h` from `bits - (j + 1) * width` on, `width` of them. The first
-- key is not masked: it is a band of `h` only if `h` fits in `bits` bits.
pub band_keys-lt :
    (w s n h : ℕ) → h < 2 ^ (w + s) → All (λ k. k < 2 ^ w) (band_keys (w + s) w s n h)
unfolding band_keys
band_keys-lt w s zero h p = tt
band_keys-lt w s (suc n) h p =
    (div-pow-lt w s h p, band_keys-lt w s n _ (mod-lt _ (two-pow-pos (w + s))))

pub bucket_keys-ok :
    (h bits bands : ℕ)
    → 0 < bands
    → bits % bands ≡ 0
    → bucket_keys h bits bands ≡ ok (band_keys bits (bits / bands) (bits - bits / bands) bands h)
unfolding bucket_keys
bucket_keys-ok h bits bands p e = ground arith

width_and_shift : (bits bands : ℕ) → bits / bands + (bits - bits / bands) ≡ bits
width_and_shift bits bands = omega (arith, div-le_self bits bands)

-- The pigeonhole guarantee of the banding: for fingerprints of `bits` bits, `bands` bands that
-- divide `bits`, and a Hamming distance below `bands`, `bucket_keys` returns key lists for both
-- that agree at some band.
pub bucket_keys-SharesBand :
    (bits bands a b : ℕ)
    → 0 < bands
    → bits % bands ≡ 0
    → a < 2 ^ bits
    → b < 2 ^ bits
    → hamming a b < bands
    → (ka kb : List ℕ) × (bucket_keys a bits bands ≡ ok ka)
      × (bucket_keys b bits bands ≡ ok kb)
      × SharesBand ka kb
bucket_keys-SharesBand bits bands a b pos_bands divides p q near =
    let w = bits / bands in
    let s = bits - w in
    let e = width_and_shift bits bands in
    (
      band_keys bits w s bands a,
      band_keys bits w s bands b,
      bucket_keys-ok a bits bands pos_bands divides,
      bucket_keys-ok b bits bands pos_bands divides,
      subst
          (λ t.
            a < 2 ^ t
            → b < 2 ^ t
            → diff t a b < bands
            → SharesBand (band_keys t w s bands a) (band_keys t w s bands b))
          e (band_keys-SharesBand w s bands a b) p q (rw (← hamming-diff bits a b p q) near),
    )
