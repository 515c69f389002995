-- ===== src/Backfill/Filled.antt =====
-- About the rows that a backfill updates.
use mathlib.Core.Path.{subst}
use webspider.Prelude.{
  ℕ, suc, ◌+◌, ◌≡◌, ◌≢◌, refl, sym, ap, ◌∙◌, arith, List, [], ◌∷◌, Option, none, some, Text, All,
}
use webspider.Config.{Config}
use webspider.Dedupe.{Hashing, simhash}
use webspider.Outcome.{Outcome, ok, ok-injective}
use webspider.Action.{pure, ◌>>◌, bind-eq-ok}
use webspider.Backfill.{Table, text_of, fill_row, fill_rows}

-- The fingerprints that a world holds: an UPDATE that returns sets one row's and no other's.
pub record Holds (tb : Table) (hash_of : tb.World → ℕ → Option ℕ) : Type 0 where
  pub set :
      (aid h : ℕ) (w : tb.World)
      → (tb.update aid h w).0 ≡ ok tt
      → hash_of (tb.update aid h w).1 aid ≡ some h
  pub kept :
      (aid h other : ℕ) (w : tb.World)
      → (tb.update aid h w).0 ≡ ok tt
      → other ≢ aid
      → hash_of (tb.update aid h w).1 other ≡ hash_of w other

module _ (tb : Table) (hs : Hashing) (cfg : Config) (hash_of : tb.World → ℕ → Option ℕ)
    (holds : Holds tb hash_of) where
  abbrev Apart : ℕ → List (ℕ × Option Text) → Type 0
  Apart aid rows = All (λ (r : ℕ × Option Text). aid ≢ r.0) rows

  -- Rows that are not named keep what they have.
  fill_rows-kept :
      (rows : List (ℕ × Option Text)) (other n m : ℕ) (w : tb.World)
      → Apart other rows
      → (fill_rows tb hs cfg rows n w).0 ≡ ok m
      → hash_of (fill_rows tb hs cfg rows n w).1 other ≡ hash_of w other
  unfolding fill_rows fill_row ◌>>◌ pure
  fill_rows-kept [] other n m w apart e = refl
  fill_rows-kept ((aid, content) ∷ rows) other n m w apart e =
      by (text_of content) (λ n' w' e'. fill_rows-kept rows other n' m w' apart.1 e') e
    where
      by :
          (o : Option Text)
          → ((n' : ℕ) (w' : tb.World)
              → (fill_rows tb hs cfg rows n' w').0 ≡ ok m
              → hash_of (fill_rows tb hs cfg rows n' w').1 other ≡ hash_of w' other)
          → (fill_row tb hs cfg aid o (fill_rows tb hs cfg rows) n w).0 ≡ ok m
          → hash_of (fill_row tb hs cfg aid o (fill_rows tb hs cfg rows) n w).1 other
            ≡ hash_of w other
      by none ih e = ih n w e
      by (some text) ih e =
          let h = simhash hs text cfg.simhash_bits in
          let (_, updated, same) =
            bind-eq-ok (tb.update aid h) (λ _. fill_rows tb hs cfg rows (suc n)) w m e in
          ap (λ (r : Outcome ℕ × tb.World). hash_of r.1 other) same
          ∙ ih (suc n) (tb.update aid h w).1 (ap (λ (r : Outcome ℕ × tb.World). r.0) (sym same) ∙ e)
          ∙ holds.kept aid h other w updated apart.0

  -- No two rows have one id.
  abbrev Different : List (ℕ × Option Text) → Type 0
  Different [] = Unit
  Different ((aid, content) ∷ rows) = Apart aid rows × Different rows

  -- Each row with a text has its fingerprint, in a world; and the number of these rows.
  abbrev Has : tb.World → ℕ → Option Text → Type 0
  Has w aid none = Unit
  Has w aid (some text) = hash_of w aid ≡ some (simhash hs text cfg.simhash_bits)

  abbrev Filled : tb.World → List (ℕ × Option Text) → Type 0
  Filled w rows = All (λ (r : ℕ × Option Text). Has w r.0 (text_of r.1)) rows

  abbrev one_if : Option Text → ℕ → ℕ
  one_if none n = n
  one_if (some text) n = suc n

  abbrev with_text : List (ℕ × Option Text) → ℕ
  with_text [] = 0
  with_text ((aid, content) ∷ rows) = one_if (text_of content) (with_text rows)

  -- Where the loop over rows with different ids returns, each row that has a text holds the
  -- fingerprint of its text, and the number that it adds is the number of these rows.
  fill_rows-Filled :
      (rows : List (ℕ × Option Text)) (n m : ℕ) (w : tb.World)
      → Different rows
      → (fill_rows tb hs cfg rows n w).0 ≡ ok m
      → Filled (fill_rows tb hs cfg rows n w).1 rows × (m ≡ n + with_text rows)
  unfolding fill_rows fill_row ◌>>◌ pure
  fill_rows-Filled [] n m w d e = (tt, let same = ok-injective e in omega (arith, same))
  fill_rows-Filled ((aid, content) ∷ rows) n m w d e =
      by (text_of content) (λ n' w' e'. fill_rows-Filled rows n' m w' d.1 e')
        (λ n' w' e'. fill_rows-kept rows aid n' m w' d.0 e') e
    where
      by :
          (o : Option Text)
          → ((n' : ℕ) (w' : tb.World)
              → (fill_rows tb hs cfg rows n' w').0 ≡ ok m
              → Filled (fill_rows tb hs cfg rows n' w').1 rows × (m ≡ n' + with_text rows))
          → ((n' : ℕ) (w' : tb.World)
              → (fill_rows tb hs cfg rows n' w').0 ≡ ok m
              → hash_of (fill_rows tb hs cfg rows n' w').1 aid ≡ hash_of w' aid)
          → (fill_row tb hs cfg aid o (fill_rows tb hs cfg rows) n w).0 ≡ ok m
          → (Has (fill_row tb hs cfg aid o (fill_rows tb hs cfg rows) n w).1 aid o
              × Filled (fill_row tb hs cfg aid o (fill_rows tb hs cfg rows) n w).1 rows)
            × (m ≡ n + one_if o (with_text rows))
      by none ih keeps e = let (filled, count) = ih n w e in ((tt, filled), count)
      by (some text) ih keeps e =
          let h = simhash hs text cfg.simhash_bits in
          let (_, updated, same) =
            bind-eq-ok (tb.update aid h) (λ _. fill_rows tb hs cfg rows (suc n)) w m e in
          let w' = (tb.update aid h w).1 in
          let e' = ap (λ (r : Outcome ℕ × tb.World). r.0) (sym same) ∙ e in
          let (filled, count) = ih (suc n) w' e' in
          let held = keeps (suc n) w' e' ∙ holds.set aid h w updated in
          (
            subst
                (λ (r : Outcome ℕ × tb.World).
                  (hash_of r.1 aid ≡ some (simhash hs text cfg.simhash_bits)) × Filled r.1 rows)
                (sym same) (held, filled),
            omega (arith, count),
          )
