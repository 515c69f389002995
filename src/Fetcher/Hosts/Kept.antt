-- ===== src/Fetcher/Hosts/Kept.antt =====
-- The table of buckets behind `_get_host_bucket` in py-processor/fetcher.py.
use mathlib.Core.Option.{some-injective}
use webspider.Prelude.{
  ℕ, ◌≡◌, refl, ◌∙◌, ◌==◌, Bool, true, false, Bool-cases, inl, inr, List, [], ◌∷◌, Option, none,
  some, Text, text_eq, eq_of_text_eq, if◌then◌else◌,
}
use webspider.Fetcher.Hosts.{
  set_key, get_key, Shared, set_missed, look_up, look_host, look, store_for, store, Move, looks,
  stores, move, moves,
}

module _ {ℓ} {A : Type ℓ} where
  -- Another key keeps its value.
  get_key-set_other :
      (h k : Text) (v : A) (d : List (Text × A))
      → text_eq k h ≡ false
      → get_key k (set_key h v d) ≡ get_key k d
  unfolding get_key set_key
  get_key-set_other h k v [] e = rw e refl
  get_key-set_other h k v ((j, u) ∷ d) e = by (text_eq h j) refl (get_key-set_other h k v d e)
    where
      by :
          (b : Bool)
          → text_eq h j ≡ b
          → get_key k (set_key h v d) ≡ get_key k d
          → get_key k (if b then (j, v) ∷ d else (j, u) ∷ set_key h v d)
            ≡ (if text_eq k j then some u else get_key k d)
      by true g ih = let other : text_eq k j ≡ false = rw (← eq_of_text_eq h j g) e in rw other refl
      by false g ih = rw ih refl

-- The table has the bucket `b` for the host, and no thread is about to store one for it.
pub record Settled (host : Text) (b : ℕ) (s : Shared) : Type 0 where
  pub there : get_key host s.table ≡ some b
  pub no_miss : (t : ℕ) (h : Text) → s.missed t ≡ some h → text_eq host h ≡ false

differs :
    (d : List (Text × ℕ)) (h k : Text) (b : ℕ)
    → get_key h d ≡ some b
    → get_key k d ≡ none
    → text_eq h k ≡ false
differs d h k b e f = elim (Bool-cases (text_eq h k)) [
  | inl same ↦
      let none_there : get_key h d ≡ none = rw (eq_of_text_eq h k same) f in
      let no : ⊥ = cc in elim no [ ]
  | inr other ↦ other
]

set_missed-Settled :
    (host : Text) (b thread : ℕ) (o : Option Text) (s : Shared)
    → ((h : Text) → o ≡ some h → text_eq host h ≡ false)
    → Settled host b s
    → Settled host b (set_missed thread o s)
unfolding set_missed
set_missed-Settled host b thread o s new settled = record {
  there = settled.there;
  no_miss = λ t h. by (t == thread) t h;
}
  where
    by :
        (here : Bool) (t : ℕ) (h : Text)
        → (if here then o else s.missed t) ≡ some h
        → text_eq host h ≡ false
    by true t h e = new h e
    by false t h e = settled.no_miss t h e

look_up-Settled :
    (host k : Text) (b thread : ℕ) (o : Option ℕ) (s : Shared)
    → get_key k s.table ≡ o
    → Settled host b s
    → Settled host b (look_up thread k o s).1
unfolding look_up
look_up-Settled host k b thread (some _) s e settled = settled
look_up-Settled host k b thread none s e settled =
    let other = differs s.table host k b settled.there e in
    set_missed-Settled host b thread (some k) s (λ h f. rw (← some-injective k h f) other) settled

module _ (lower hostname : Text → Text) (capacity : ℕ → ℕ) (overrides : List (Text × ℕ))
    (default : ℕ) where
  store_for-Settled :
      (host : Text) (b thread now : ℕ) (o : Option Text) (s : Shared)
      → s.missed thread ≡ o
      → Settled host b s
      → Settled host b (store_for lower hostname capacity overrides default thread now o s).1
  unfolding store_for
  store_for-Settled host b thread now none s e settled = settled
  store_for-Settled host b thread now (some k) s e settled =
      set_missed-Settled host b thread none _ (λ h f. cc)
        (record {
          there = get_key-set_other k host _ s.table (settled.no_miss thread k e) ∙ settled.there;
          no_miss = settled.no_miss;
        })

  move-Settled :
      (host : Text) (b : ℕ) (m : Move) (s : Shared)
      → Settled host b s
      → Settled host b (move lower hostname capacity overrides default m s).1
  unfolding move look look_host store
  move-Settled host b (looks thread url) s settled = by (lower (hostname url))
    where
      by : (k : Text) → Settled host b (look_host thread k s).1
      by [] = settled
      by (c ∷ k) = look_up-Settled host (c ∷ k) b thread (get_key (c ∷ k) s.table) s refl settled
  move-Settled host b (stores thread now) s settled =
      store_for-Settled host b thread now (s.missed thread) s refl settled

  moves-Settled :
      (host : Text) (b : ℕ) (ms : List Move) (s : Shared)
      → Settled host b s
      → Settled host b (moves lower hostname capacity overrides default ms s)
  unfolding moves
  moves-Settled host b [] s settled = settled
  moves-Settled host b (m ∷ ms) s settled =
      moves-Settled host b ms _ (move-Settled host b m s settled)

  -- Where the table has a bucket for a host and no thread that has found none is still to store one
  -- for it, each later call for a URL of the host returns that same bucket at once, whatever the
  -- threads do meanwhile and in whatever order their looks and stores come.
  pub look-moves :
      (c : ℕ) (host : Text) (b : ℕ) (ms : List Move) (s : Shared) (thread : ℕ) (url : Text)
      → Settled (c ∷ host) b s
      → lower (hostname url) ≡ c ∷ host
      → look lower hostname capacity overrides default thread url
          (moves lower hostname capacity overrides default ms s)
        ≡ (some b, moves lower hostname capacity overrides default ms s)
  unfolding look look_host look_up
  look-moves c host b ms s thread url settled e =
      rw (e, (moves-Settled (c ∷ host) b ms s settled).there) refl
