-- ===== src/RagExport/Resumed.antt =====
-- Exports of py-processor/rag_export.py that go on from the id that the last one saved.
use mathlib.Core.List.{append_assoc}
use mathlib.Core.Option.{some-injective}
use mathlib.Core.Path.{subst}
use webspider.Prelude.{
  ℕ, ◌≤◌, ◌<◌, max, ◌≡◌, refl, sym, ap, arith, false, List, [], ◌∷◌, ◌++◌, some, Text, Bool-cases,
  inl, inr, ltb, All, All-mono, if◌then◌else◌,
}
use webspider.Outcome.{ok}
use webspider.RagExport.{
  ArticleRow, CorpusLine, Cursor, export_rows, article_to_chunks, export_chunks, saved_of,
}

module _ {J : Type 0} where
  -- `WHERE id > since`
  unfoldable pub above : ℕ → List (ArticleRow J) → List (ArticleRow J)
  above since [] = []
  above since (row ∷ rows) =
      let rest = above since rows in if ltb since row.id then row ∷ rest else rest

  -- The query over a table that is held in the order of the ids.
  abbrev pub query : List (ArticleRow J) → ℕ → Cursor J
  query table since = record { rows = above since table; ended = ok tt }

  above-append :
      (since : ℕ) (us vs : List (ArticleRow J))
      → above since (us ++ vs) ≡ above since us ++ above since vs
  unfolding above
  above-append since [] vs = refl
  above-append since (u ∷ us) vs = let ih = above-append since us vs in ground arith

  above_whole :
      (since : ℕ) (rows : List (ArticleRow J))
      → All (λ (row : ArticleRow J). since < row.id) rows
      → above since rows ≡ rows
  unfolding above
  above_whole since [] h = refl
  above_whole since (row ∷ rows) h = let ih = above_whole since rows h.1 in ground arith

  above_empty :
      (since : ℕ) (rows : List (ArticleRow J))
      → All (λ (row : ArticleRow J). row.id ≤ since) rows
      → above since rows ≡ []
  unfolding above
  above_empty since [] h = refl
  above_empty since (row ∷ rows) h = let ih = above_empty since rows h.1 in ground arith

module _ {J : Type 0} (url_hash : Text → Text) (target overlap min_chars : ℕ) where
  abbrev the_export : ℕ → List (ArticleRow J) → List (CorpusLine J) × ℕ
  the_export = export_rows url_hash target overlap min_chars

  -- Every id that was passed over or exported is at most the last one.
  export_rows-le :
      (m : ℕ) (rows : List (ArticleRow J))
      → (m ≤ (the_export m rows).1)
        × All (λ (row : ArticleRow J). row.id ≤ (the_export m rows).1) rows
  unfolding export_rows
  export_rows-le m [] = (omega arith, tt)
  export_rows-le m (row ∷ rows) =
      let ih = export_rows-le (max m row.id) rows in (omega arith, (omega arith, ih.1))

  above-le :
      (m last : ℕ) (rows : List (ArticleRow J))
      → m ≤ last
      → All (λ (row : ArticleRow J). row.id ≤ last) (above m rows)
      → All (λ (row : ArticleRow J). row.id ≤ last) rows
  unfolding above
  above-le m last [] le h = tt
  above-le m last (row ∷ rows) le h = elim (Bool-cases (ltb m row.id)) [
    | inl e ↦
        let h' : (row.id ≤ last) × All (λ (r : ArticleRow J). r.id ≤ last) (above m rows) =
          rw e at h in
        (h'.0, above-le m last rows le h'.1)
    | inr e ↦
        let h' : All (λ (r : ArticleRow J). r.id ≤ last) (above m rows) = rw e at h in
        (ground arith, above-le m last rows le h')
  ]

  export_rows-append :
      (m : ℕ) (us vs : List (ArticleRow J))
      → the_export m (us ++ vs) ≡ (
        (the_export m us).0 ++ (the_export (the_export m us).1 vs).0,
        (the_export (the_export m us).1 vs).1,
      )
  unfolding export_rows
  export_rows-append m [] vs = refl
  export_rows-append m (u ∷ us) vs =
      let ih = export_rows-append (max m u.id) us vs in
      rw ih (
        ap (λ (ls : List (CorpusLine J)). (ls, (the_export (the_export (max m u.id) us).1 vs).1))
          (sym (append_assoc (article_to_chunks url_hash target overlap min_chars u) _ _)))

  -- Two incremental exports write what one over the whole table writes, and save the same id: after
  -- an export over the older rows that saved `last`, one from `last` over the table with newer rows
  -- adds exactly what was missing, where the ids of the newer rows are above `last`.
  pub export_chunks-resumed :
      (state last : ℕ) (older newer : List (ArticleRow J))
      → (export_chunks url_hash target overlap min_chars false state (query older)).saved
        ≡ some last
      → All (λ (row : ArticleRow J). last < row.id) newer
      → ((export_chunks url_hash target overlap min_chars false state (query older)).lines
            ++ (export_chunks url_hash target overlap min_chars false last
                (query (older ++ newer))).lines
          ≡ (export_chunks url_hash target overlap min_chars false state
              (query (older ++ newer))).lines)
        × ((export_chunks url_hash target overlap min_chars false last
              (query (older ++ newer))).saved
            ≡ (export_chunks url_hash target overlap min_chars false state
                (query (older ++ newer))).saved)
  unfolding export_chunks saved_of
  export_chunks-resumed state last older newer saved later =
      let reached : (the_export state (above state older)).1 ≡ last = some-injective _ _ saved in
      let bounds = export_rows-le state (above state older) in
      let le : state ≤ last = omega (arith, bounds.0, reached) in
      let olds : All (λ (row : ArticleRow J). row.id ≤ last) (above state older) =
        subst (λ (n : ℕ). All (λ (row : ArticleRow J). row.id ≤ n) (above state older)) reached
          bounds.1 in
      let rest : above last (older ++ newer) ≡ newer =
        rw
          (
            above-append last older newer,
            above_empty last older (above-le state last older le olds),
          )
          (above_whole last newer later) in
      let whole : above state (older ++ newer) ≡ above state older ++ newer =
        rw
          (
            above-append state older newer,
            above_whole state newer (
                All-mono (λ (row : ArticleRow J). last < row.id)
                  (λ (row : ArticleRow J). state < row.id) (λ row h. omega arith) newer later),
          )
          refl in
      rw (rest, whole, export_rows-append state (above state older) newer, reached) (refl, refl)
