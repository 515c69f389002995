-- ===== src/Tests/Chunks.antt =====
-- Splitting a section at concrete inputs.
use webspider.Prelude.{◌≡◌, refl, All, map, List, [], ◌∷◌, ◌++◌, Text, codes}
use webspider.Chunker.{split_paragraphs}
use webspider.Chunker.Sections.{Chunk, split_markdown}
use webspider.Chunker.Sections.Bounds.{Fits, split_markdown-Fits}
use webspider.Chunker.Pieces.{IsSplit, split_paragraphs-IsSplit}

abbrev paragraphs : List Text
paragraphs = codes "aaaa" ∷ codes "bb" ∷ codes "cc" ∷ codes "dd" ∷ []

-- The second paragraph fits into the overlap, the first one does not.
two_chunks :
    split_paragraphs paragraphs 10 5
    ≡ (codes "aaaa" ++ b'\n' ∷ b'\n' ∷ codes "bb")
      ∷ (codes "bb" ++ b'\n' ∷ b'\n' ∷ codes "cc" ++ b'\n' ∷ b'\n' ∷ codes "dd")
      ∷ []
unfolding split_paragraphs
two_chunks = refl

split_paragraphs-IsSplit_example : IsSplit 5 paragraphs (split_paragraphs paragraphs 10 5)
split_paragraphs-IsSplit_example =
    split_paragraphs-IsSplit (codes "aaaa") (codes "bb" ∷ codes "cc" ∷ codes "dd" ∷ []) 10 5

abbrev document : Text
document = codes "# A\nx\n## B\n\nab\n\ncd\n\nefgh\n"

-- The heading of a section that is too long stands before each of its parts.
sections_run :
    map (λ (c : Chunk). c.text) (split_markdown document 10 0 6)
    ≡ codes "## B\n\nab\n\ncd" ∷ codes "## B\n\nefgh" ∷ []
unfolding split_markdown
sections_run = refl

split_markdown-Fits_example : All (Fits 6) (split_markdown document 10 0 6)
split_markdown-Fits_example = split_markdown-Fits document 10 0 6
