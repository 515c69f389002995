-- ===== src/Chunker/Sections/Bounds.antt =====
-- What every chunk of `split_markdown` keeps to.
use webspider.Prelude.{
  ℕ, zero, suc, ◌-◌, ◌≤◌, arith, Bool-cases, inl, inr, List, [], ◌∷◌, ◌++◌, Option, none, some,
  Text, length, length-append, take, All, leb, leb→le,
}
use webspider.Chunker.{split_paragraphs}
use webspider.Chunker.Sections.{
  Heading, heading_text, heading_from, Section, close_section, sections_from, with_body,
  parse_sections, Chunk, keep_chunk, keep_pieces, with_prefix, split_section, split_sections,
  split_markdown, take_prefix, split_blank, split_lines,
}

-- A path has at most six headings, as many as there are levels.
abbrev IsShort : Section → Type 0
IsShort (path, body) = length path ≤ 6

-- A chunk that is not too short, under at most six headings.
abbrev pub Fits : ℕ → Chunk → Type 0
Fits min_chars c = (min_chars ≤ length c.text) × (length c.heading_path ≤ 6)

abbrev HasLevel : Option Heading → Type 0
HasLevel none = Unit
HasLevel (some (level, title)) = level ≤ 6

heading_text-HasLevel : (level : ℕ) (s : Text) → level ≤ 6 → HasLevel (heading_text level s)
unfolding heading_text
heading_text-HasLevel level s h = ground arith

heading_from-HasLevel : (level : ℕ) (s : Text) → HasLevel (heading_from level s)
unfolding heading_from
heading_from-HasLevel level [] = tt
heading_from-HasLevel level (c ∷ s) =
    ground (arith, heading_from-HasLevel (suc level) s, heading_text-HasLevel level (c ∷ s))

length-take-le : {A : Type 0} (n : ℕ) (xs : List A) → length (take n xs) ≤ n
length-take-le zero xs = omega arith
length-take-le (suc n) [] = omega arith
length-take-le (suc n) (x ∷ xs) = omega (arith, length-take-le n xs)

close_section-IsShort :
    (path current : List Text) (rest : List Section)
    → length path ≤ 6
    → All IsShort rest
    → All IsShort (close_section path current rest)
unfolding close_section
close_section-IsShort path [] rest p h = h
close_section-IsShort path (l ∷ current) rest p h = (p, h)

sections_from-IsShort :
    (path current lines : List Text)
    → length path ≤ 6
    → All IsShort (sections_from path current lines)
unfolding sections_from
sections_from-IsShort path current [] h = close_section-IsShort path current [] h tt
sections_from-IsShort path current (line ∷ lines) h =
    by_heading (heading_from 0 line) (heading_from-HasLevel 0 line)
      (λ p c q. sections_from-IsShort p c lines q)
  where
    by_heading :
        (o : Option Heading)
        → HasLevel o
        → ((p c : List Text) → length p ≤ 6 → All IsShort (sections_from p c lines))
        → All IsShort (elim o [
          | none ↦ sections_from path (current ++ line ∷ []) lines
          | some (level, title) ↦
              close_section path current
                (sections_from (take (level - 1) path ++ title ∷ []) (line ∷ []) lines)
        ])
    by_heading none _ ih = ih path (current ++ line ∷ []) h
    by_heading (some (level, title)) l ih = close_section-IsShort path current _ h (
        ih (take (level - 1) path ++ title ∷ []) (line ∷ []) (
          omega (
            arith,
            length-append (take (level - 1) path) (title ∷ []),
            length-take-le (level - 1) path,
          )))

with_body-IsShort :
    (sections : List Section) → All IsShort sections → All IsShort (with_body sections)
unfolding with_body
with_body-IsShort [] h = tt
with_body-IsShort ((path, []) ∷ sections) h = with_body-IsShort sections h.1
with_body-IsShort ((path, c ∷ body) ∷ sections) h = (h.0, with_body-IsShort sections h.1)

module _ (min_chars : ℕ) where
  keep_chunk-Fits :
      (path : List Text) (text : Text) (rest : List Chunk)
      → length path ≤ 6
      → All (Fits min_chars) rest
      → All (Fits min_chars) (keep_chunk min_chars path text rest)
  unfolding keep_chunk
  keep_chunk-Fits path text rest p h = elim (Bool-cases (leb min_chars (length text))) [
    | inl e ↦ rw e ((leb→le _ _ e, p), h)
    | inr e ↦ rw e h
  ]

  keep_pieces-Fits :
      (path : List Text) (prefix : Text) (pieces : List Text) (rest : List Chunk)
      → length path ≤ 6
      → All (Fits min_chars) rest
      → All (Fits min_chars) (keep_pieces min_chars path prefix pieces rest)
  unfolding keep_pieces
  keep_pieces-Fits path prefix [] rest p h = h
  keep_pieces-Fits path prefix (piece ∷ pieces) rest p h =
      keep_chunk-Fits path (with_prefix prefix piece) _ p
        (keep_pieces-Fits path prefix pieces rest p h)

  split_sections-Fits :
      (target overlap : ℕ) (sections : List Section)
      → All IsShort sections
      → All (Fits min_chars) (split_sections target overlap min_chars sections)
  unfolding split_sections split_section
  split_sections-Fits target overlap [] h = tt
  split_sections-Fits target overlap ((path, body) ∷ sections) h =
      let ih = split_sections-Fits target overlap sections h.1 in
      let cut = take_prefix [] (split_blank body) in
      elim (Bool-cases (leb (length body) target)) [
        | inl e ↦ rw e (keep_chunk-Fits path body _ h.0 ih)
        | inr e ↦
            rw e (keep_pieces-Fits path cut.0 (split_paragraphs cut.1 target overlap) _ h.0 ih)
      ]

-- Every chunk of `split_markdown` has at least `min_chars` characters and stands under a path of at
-- most six headings.
pub split_markdown-Fits :
    (text : Text) (target overlap min_chars : ℕ)
    → All (Fits min_chars) (split_markdown text target overlap min_chars)
unfolding split_markdown parse_sections
split_markdown-Fits text target overlap min_chars =
    split_sections-Fits min_chars target overlap _
      (with_body-IsShort _ (sections_from-IsShort [] [] (split_lines text) (omega arith)))
