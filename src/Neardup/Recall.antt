-- ===== src/Neardup/Recall.antt =====
-- A fingerprint that was indexed is found again by every text within the Hamming threshold.
use mathlib.Core.Path.{subst}
use webspider.Prelude.{
  ℕ, suc, ◌%◌, ◌^◌, ◌≤◌, ◌<◌, ◌≡◌, sym, ap, ◌∙◌, arith, Bool, true, false, List, [], ◌∷◌, Text,
  text_eq_refl, eq_of_text_eq, text_elem, ltb, le→leb, if◌then◌else◌, Bool-cases, inl, inr,
}
use webspider.Outcome.{ok, ok-injective}
use webspider.Config.{Config}
use webspider.Str.{decimal}
use webspider.Str.RoundTrip.{parse_int-decimal}
use webspider.Dedupe.{Hashing, simhash, bucket_keys, hamming, hamming_int}
use webspider.Dedupe.Bands.{SharesBand, here, there, bucket_keys-SharesBand}
use webspider.Dedupe.Majority.{simhash-lt}
use webspider.Services.{Services, Command, sadd, expire, Call}
use webspider.Services.Run.{State, pure, lift, issue}
use webspider.Services.Invert.{bind-eq-ok}
use webspider.Neardup.{band_key, is_close, any_close, index_commands, probe, is_duplicate, index}
use webspider.Neardup.Laws.{queued, SetLaws}

-- The settings under which the banding is exact.
pub record IsExact (cfg : Config) : Type 0 where
  pub some_bands : 0 < cfg.simhash_bands
  pub divides : cfg.simhash_bits % cfg.simhash_bands ≡ 0
  pub below_bands : cfg.simhash_hamming < cfg.simhash_bands

-- The queue adds `v` for band `i` and all that follow.
abbrev QueuedFrom : Text → List Command → ℕ → List ℕ → Type 0
QueuedFrom v cs i [] = Unit
QueuedFrom v cs i (bv ∷ bvs) = (queued (band_key i bv) v cs ≡ true) × QueuedFrom v cs (suc i) bvs

QueuedFrom-cons :
    (v : Text) (c : Command) (cs : List Command) (i : ℕ) (bvs : List ℕ)
    → QueuedFrom v cs i bvs
    → QueuedFrom v (c ∷ cs) i bvs
unfolding queued
QueuedFrom-cons v c cs i [] h = tt
QueuedFrom-cons v (sadd k u) cs i (bv ∷ bvs) h =
    (ground (arith, h.0), QueuedFrom-cons v (sadd k u) cs (suc i) bvs h.1)
QueuedFrom-cons v c cs i (bv ∷ bvs) h = (h.0, QueuedFrom-cons v c cs (suc i) bvs h.1)

QueuedFrom-if :
    (b : Bool) (v : Text) (c : Command) (cs : List Command) (i : ℕ) (bvs : List ℕ)
    → QueuedFrom v cs i bvs
    → QueuedFrom v (if b then c ∷ cs else cs) i bvs
QueuedFrom-if true v c cs i bvs h = QueuedFrom-cons v c cs i bvs h
QueuedFrom-if false v c cs i bvs h = h

index_commands-QueuedFrom :
    (cfg : Config) (chash i : ℕ) (bvs : List ℕ)
    → QueuedFrom (decimal chash) (index_commands cfg chash i bvs) i bvs
unfolding index_commands queued
index_commands-QueuedFrom cfg chash i [] = tt
index_commands-QueuedFrom cfg chash i (bv ∷ bvs) =
    let v = decimal chash in
    let key = band_key i bv in
    let rest = index_commands cfg chash (suc i) bvs in
    (
      rw (text_eq_refl key, text_eq_refl v),
      QueuedFrom-cons v (sadd key v)
          (if ltb 0 cfg.neardup_ttl then expire key cfg.neardup_ttl ∷ rest else rest) (suc i) bvs
          (QueuedFrom-if (ltb 0 cfg.neardup_ttl) v (expire key cfg.neardup_ttl) rest (suc i) bvs
            (index_commands-QueuedFrom cfg chash (suc i) bvs)),
    )

module _ {sv : Services} (laws : SetLaws sv) (cfg : Config) where
  open laws use {member, smembers_content, smembers_keeps, execute_adds}

  abbrev pub IndexedFrom : sv.World → ℕ → ℕ → List ℕ → Type 0
  IndexedFrom w c i [] = Unit
  IndexedFrom w c i (bv ∷ bvs) =
      (member w (band_key i bv) (decimal c) ≡ true) × IndexedFrom w c (suc i) bvs

  -- The fingerprint stands in the set of each of its bands.
  pub record IsIndexed (w : sv.World) (c : ℕ) : Type 0 where
    pub at :
        (keys : List ℕ)
        → bucket_keys c cfg.simhash_bits cfg.simhash_bands ≡ ok keys
        → IndexedFrom w c 0 keys

  IndexedFrom-mono :
      (w w' : sv.World) (c i : ℕ) (bvs : List ℕ)
      → ((j v : Text) → member w j v ≡ true → member w' j v ≡ true)
      → IndexedFrom w c i bvs
      → IndexedFrom w' c i bvs
  IndexedFrom-mono w w' c i [] up h = tt
  IndexedFrom-mono w w' c i (bv ∷ bvs) up h =
      (up _ _ h.0, IndexedFrom-mono w w' c (suc i) bvs up h.1)

  -- A pipeline that was executed has indexed what it queued.
  pub QueuedFrom-IndexedFrom :
      (cs : List Command) (w : sv.World) (c i : ℕ) (bvs : List ℕ)
      → (sv.execute cs w).0 ≡ ok tt
      → QueuedFrom (decimal c) cs i bvs
      → IndexedFrom (sv.execute cs w).1 c i bvs
  QueuedFrom-IndexedFrom cs w c i [] e h = tt
  QueuedFrom-IndexedFrom cs w c i (bv ∷ bvs) e h = (
    execute_adds cs w e (band_key i bv) (decimal c) ∙ rw h.0,
    QueuedFrom-IndexedFrom cs w c (suc i) bvs e h.1,
  )

  is_close-decimal :
      (h c : ℕ) → hamming h c ≤ cfg.simhash_hamming → is_close cfg h (decimal c) ≡ true
  unfolding is_close hamming_int
  is_close-decimal h c near = rw (parse_int-decimal c, is_close) (le→leb _ _ near)

  any_close-elem :
      (h : ℕ) (raw : Text) (ms : List Text)
      → is_close cfg h raw ≡ true
      → text_elem raw ms ≡ true
      → any_close cfg h ms ≡ true
  unfolding any_close text_elem
  any_close-elem h raw [] p e = cc
  any_close-elem h raw (m ∷ ms) p e = ground (arith, eq_of_text_eq raw m, any_close-elem h raw ms p)

  probe-finds :
      {bvs bvs' : List ℕ} (hs : Hashing) (h c i : ℕ) (s : State sv) (d : Bool)
      → SharesBand bvs bvs'
      → IndexedFrom s.world c i bvs'
      → is_close cfg h (decimal c) ≡ true
      → (probe sv hs cfg h i bvs s).result ≡ ok d
      → d ≡ true
  unfolding probe issue pure
  probe-finds hs h c i s d (here {x = bv} e) at p r =
      let key = band_key i bv in
      let (ms, k) = bind-eq-ok (issue (Call.smembers key) (sv.smembers key)) _ s r in
      let held : text_elem (decimal c) ms ≡ true =
        smembers_content key s.world ms k.first (decimal c)
        ∙ subst (λ b. member s.world (band_key i b) (decimal c) ≡ true) (sym e) at.0 in
      let found = any_close-elem h (decimal c) ms p held in
      ok-injective (sym r ∙ rw found at k.result)
  probe-finds hs h c i s d (there {x = bv} {xs = bvs} sb) at p r =
      let key = band_key i bv in
      let (ms, k) = bind-eq-ok (issue (Call.smembers key) (sv.smembers key)) _ s r in
      elim (Bool-cases (any_close cfg h ms)) [
        | inl found ↦ ok-injective (sym r ∙ rw found at k.result)
        | inr missed ↦
            probe-finds hs h c (suc i) (record s { world = (sv.smembers key s.world).1 }) d sb
              (IndexedFrom-mono s.world _ c (suc i) _ (λ j v m. smembers_keeps key s.world j v ∙ m)
                at.1)
              p (sym (rw missed at k.result) ∙ r)
      ]

  -- `index`, if it does not raise, leaves the fingerprint indexed.
  pub index-IsIndexed :
      (hs : Hashing) (c : ℕ) (s : State sv)
      → (index sv hs cfg c s).result ≡ ok tt
      → IsIndexed (index sv hs cfg c s).state.world c
  unfolding index issue lift
  index-IsIndexed hs c s r =
      let (keys, k) = bind-eq-ok (lift (bucket_keys c cfg.simhash_bits cfg.simhash_bands)) _ s r in
      let cs = index_commands cfg c 0 keys in
      let done =
        QueuedFrom-IndexedFrom cs s.world c 0 keys (sym k.result ∙ r)
          (index_commands-QueuedFrom cfg c 0 keys) in
      record {
        at = λ keys' e.
            subst (λ (t : State sv). IndexedFrom t.world c 0 keys') (sym k.state)
              (subst (λ ks. IndexedFrom (sv.execute cs s.world).1 c 0 ks)
                (ok-injective (sym k.first ∙ e)) done);
      }

  -- No near-duplicate is missed: with `bands` dividing `bits` and the Hamming threshold below the
  -- number of bands, if the set of each band holds the fingerprint `c`, then a text whose own
  -- fingerprint is within the threshold of `c` is reported as a duplicate, by every call of
  -- `is_duplicate` that does not raise.
  pub is_duplicate-finds :
      (hs : Hashing) (text : Text) (c : ℕ) (s : State sv) (d : Bool) (chash : ℕ)
      → IsExact cfg
      → c < 2 ^ cfg.simhash_bits
      → IsIndexed s.world c
      → hamming (simhash hs text cfg.simhash_bits) c ≤ cfg.simhash_hamming
      → (is_duplicate sv hs cfg text s).result ≡ ok (d, chash)
      → d ≡ true
  unfolding is_duplicate lift pure
  is_duplicate-finds hs text c s d chash x p at near r =
      let h = simhash hs text cfg.simhash_bits in
      let (ka, kb, ea, eb, shared) =
        bucket_keys-SharesBand cfg.simhash_bits cfg.simhash_bands h c x.some_bands x.divides
          (simhash-lt hs text cfg.simhash_bits) p (omega arith) in
      let (keys, k) = bind-eq-ok (lift (bucket_keys h cfg.simhash_bits cfg.simhash_bands)) _ s r in
      let shared' = subst (λ ks. SharesBand ks kb) (ok-injective (sym ea ∙ k.first)) shared in
      let (dup, k') = bind-eq-ok (probe sv hs cfg h 0 keys) _ s (sym k.result ∙ r) in
      let same : dup ≡ d =
        ap (λ (a : Bool × ℕ). a.0) (ok-injective (sym k'.result ∙ sym k.result ∙ r)) in
      sym same
      ∙ probe-finds hs h c 0 s dup shared' (at.at kb eb) (is_close-decimal h c near) k'.first
