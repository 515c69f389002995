-- ===== src/Neardup/Sound.antt =====
-- What is reported as a duplicate is within the Hamming threshold of a member of the index.
use mathlib.Core.Path.{subst}
use webspider.Prelude.{
  ℕ, suc, ◌≤◌, ◌≡◌, refl, sym, ap, ◌∙◌, arith, Bool, true, List, [], ◌∷◌, Option, none, some, Text,
  text_eq_refl, text_elem, leb→le, Bool-cases, inl, inr,
}
use webspider.Outcome.{ok, ok-injective}
use webspider.Config.{Config}
use webspider.Str.{parse_int}
use webspider.Dedupe.{Hashing, ℤ, simhash, bucket_keys, hamming_int}
use webspider.Services.{Services, Call}
use webspider.Services.Run.{State, pure, lift, issue}
use webspider.Services.Invert.{bind-eq-ok}
use webspider.Neardup.{band_key, is_close, any_close, probe, is_duplicate}
use webspider.Neardup.Laws.{SetLaws}

-- A member that reads as a number within the threshold of `h`.
pub record CloseMember (cfg : Config) (h : ℕ) (holds : Text → Text → Bool) : Type 0 where
  pub key : Text
  pub raw : Text
  pub existing : ℤ
  pub held : holds key raw ≡ true
  pub reads : parse_int raw ≡ some existing
  pub near : hamming_int h existing ≤ cfg.simhash_hamming

is_close-reads :
    (cfg : Config) (h : ℕ) (raw : Text)
    → is_close cfg h raw ≡ true
    → (e : ℤ) × (parse_int raw ≡ some e) × (hamming_int h e ≤ cfg.simhash_hamming)
unfolding is_close
is_close-reads cfg h raw p = go (parse_int raw) refl
  where
    go :
        (o : Option ℤ)
        → parse_int raw ≡ o
        → (e : ℤ) × (parse_int raw ≡ some e) × (hamming_int h e ≤ cfg.simhash_hamming)
    go none q = ground arith
    go (some e) q = (e, q, leb→le _ _ (rw (q, is_close) at p))

any_close-member :
    (cfg : Config) (h : ℕ) (ms : List Text)
    → any_close cfg h ms ≡ true
    → (raw : Text) × (text_elem raw ms ≡ true) × (is_close cfg h raw ≡ true)
unfolding any_close text_elem
any_close-member cfg h [] p = cc
any_close-member cfg h (m ∷ ms) p = elim (Bool-cases (is_close cfg h m)) [
  | inl e ↦ (m, rw (text_eq_refl m), e)
  | inr e ↦ let (raw, x, y) = any_close-member cfg h ms (rw e at p) in (raw, ground arith, y)
]

module _ {sv : Services} (laws : SetLaws sv) (cfg : Config) (hs : Hashing) where
  open laws use {member, smembers_content, smembers_keeps}

  probe-CloseMember :
      (h i : ℕ) (bvs : List ℕ) (s : State sv)
      → (probe sv hs cfg h i bvs s).result ≡ ok true
      → CloseMember cfg h (member s.world)
  unfolding probe issue pure
  probe-CloseMember h i [] s r = cc (ok-injective r)
  probe-CloseMember h i (bv ∷ bvs) s r =
      let key = band_key i bv in
      let (ms, k) = bind-eq-ok (issue (Call.smembers key) (sv.smembers key)) _ s r in
      elim (Bool-cases (any_close cfg h ms)) [
        | inl found ↦
            let (raw, in_set, close) = any_close-member cfg h ms found in
            let (e, reads, near) = is_close-reads cfg h raw close in
            record {
              key = key;
              raw = raw;
              existing = e;
              held = sym (smembers_content key s.world ms k.first raw) ∙ in_set;
              reads = reads;
              near = near;
            }
        | inr missed ↦
            let c =
              probe-CloseMember h (suc i) bvs (record s { world = (sv.smembers key s.world).1 })
                (sym (rw missed at k.result) ∙ r) in
            record {
              key = c.key;
              raw = c.raw;
              existing = c.existing;
              held = sym (smembers_keeps key s.world c.key c.raw) ∙ c.held;
              reads = c.reads;
              near = c.near;
            }
      ]

  -- When `is_duplicate` reports a duplicate, some set of the index holds a text that `int` reads as
  -- a fingerprint within the Hamming threshold of the text's own; and the fingerprint that it
  -- returns is the SimHash of the text.
  pub is_duplicate-CloseMember :
      (text : Text) (s : State sv) (chash : ℕ)
      → (is_duplicate sv hs cfg text s).result ≡ ok (true, chash)
      → (chash ≡ simhash hs text cfg.simhash_bits) × CloseMember cfg chash (member s.world)
  unfolding is_duplicate lift pure
  is_duplicate-CloseMember text s chash r =
      let h = simhash hs text cfg.simhash_bits in
      let (keys, k) = bind-eq-ok (lift (bucket_keys h cfg.simhash_bits cfg.simhash_bands)) _ s r in
      let (dup, k') = bind-eq-ok (probe sv hs cfg h 0 keys) _ s (sym k.result ∙ r) in
      let same : (dup, h) ≡ (true, chash) = ok-injective (sym k'.result ∙ sym k.result ∙ r) in
      let hash : h ≡ chash = ap (λ (a : Bool × ℕ). a.1) same in
      let found = probe-CloseMember h 0 keys s (k'.first ∙ ap (λ (a : Bool × ℕ). ok a.0) same) in
      (sym hash, subst (λ t. CloseMember cfg t (member s.world)) hash found)
