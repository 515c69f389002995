-- ===== src/RagExport/Numbered.antt =====
-- The lines that py-processor/rag_export.py makes of one article.
use webspider.Prelude.{
  ℕ, zero, suc, ◌≤◌, ◌≡◌, refl, sym, ap, ◌∙◌, List, [], ◌∷◌, Text, length, map, All,
}
use webspider.Chunker.Sections.{Chunk, split_markdown}
use webspider.Chunker.Sections.Bounds.{Fits, split_markdown-Fits}
use webspider.RagExport.{ArticleRow, CorpusLine, lines_of, article_to_chunks, or_text}

-- The numbers from `i` on, `n` of them.
unfoldable pub from_count : ℕ → ℕ → List ℕ
from_count i zero = []
from_count i (suc n) = i ∷ from_count (suc i) n

module _ {J : Type 0} (url_hash : Text → Text) (target overlap min_chars : ℕ) where
  -- The lines of an article, numbered in order, each with their number and a text that is long
  -- enough.
  pub record Numbered (lines : List (CorpusLine J)) : Type 0 where
    pub indices : map (λ (l : CorpusLine J). l.chunk_index) lines ≡ from_count 0 (length lines)
    pub counts : All (λ (l : CorpusLine J). l.n_chunks ≡ length lines) lines
    pub long : All (λ (l : CorpusLine J). min_chars ≤ length l.text) lines

  abbrev the_lines : ArticleRow J → ℕ → ℕ → List Chunk → List (CorpusLine J)
  the_lines = lines_of url_hash target overlap min_chars

  length-lines_of :
      (row : ArticleRow J) (n i : ℕ) (pieces : List Chunk)
      → length (the_lines row n i pieces) ≡ length pieces
  unfolding lines_of
  length-lines_of row n i [] = refl
  length-lines_of row n i (piece ∷ pieces) = ap suc (length-lines_of row n (suc i) pieces)

  lines_of-indices :
      (row : ArticleRow J) (n i : ℕ) (pieces : List Chunk)
      → map (λ (l : CorpusLine J). l.chunk_index) (the_lines row n i pieces)
        ≡ from_count i (length pieces)
  unfolding lines_of from_count
  lines_of-indices row n i [] = refl
  lines_of-indices row n i (piece ∷ pieces) =
      ap (λ is. i ∷ is) (lines_of-indices row n (suc i) pieces)

  lines_of-counts :
      (row : ArticleRow J) (n i : ℕ) (pieces : List Chunk)
      → All (λ (l : CorpusLine J). l.n_chunks ≡ n) (the_lines row n i pieces)
  unfolding lines_of
  lines_of-counts row n i [] = tt
  lines_of-counts row n i (piece ∷ pieces) = (refl, lines_of-counts row n (suc i) pieces)

  lines_of-long :
      (row : ArticleRow J) (n i : ℕ) (pieces : List Chunk)
      → All (Fits min_chars) pieces
      → All (λ (l : CorpusLine J). min_chars ≤ length l.text) (the_lines row n i pieces)
  unfolding lines_of
  lines_of-long row n i [] h = tt
  lines_of-long row n i (piece ∷ pieces) h = (h.0.0, lines_of-long row n (suc i) pieces h.1)

  -- The lines of an article are numbered from 0 on in order, each carries their number, and each has
  -- a text of at least `min_chars` characters.
  pub article_to_chunks-Numbered :
      (row : ArticleRow J) → Numbered (article_to_chunks url_hash target overlap min_chars row)
  unfolding article_to_chunks
  article_to_chunks-Numbered row = record {
    indices =
        lines_of-indices row n 0 pieces ∙ ap (from_count 0) (sym (length-lines_of row n 0 pieces));
    counts = rw (length-lines_of row n 0 pieces) (lines_of-counts row n 0 pieces);
    long =
        lines_of-long row n 0 pieces
          (split_markdown-Fits (or_text row.content) target overlap min_chars);
  }
    where
      pieces : List Chunk
      pieces = split_markdown (or_text row.content) target overlap min_chars

      n : ℕ
      n = length pieces
