-- ===== src/Chunker/Sections.antt =====
-- `_parse_sections` and `split_markdown` of py-processor/chunker.py.
pub mod Bounds
use mathlib.Core.List.{reverse, filter}
use webspider.Prelude.{
  ℕ, zero, suc, ◌+◌, ◌-◌, Bool, true, false, ◌&&◌, ◌||◌, List, [], ◌∷◌, ◌++◌, Option, none, some,
  Text, length, take, leb, ltb, ◌==◌, if◌then◌else◌,
}
use webspider.Str.{is_space, lstrip, strip}
use webspider.Chunker.{join, split_paragraphs}

-- What `str.splitlines` takes for the end of a line; "\r\n" is one end.
unfoldable pub is_line_end : ℕ → Bool
is_line_end c =
    (leb 10 c && leb c 13) || (leb 28 c && leb c 30) || c == 133 || c == 8232 || c == 8233

-- `s.splitlines()`: `cur` is the line being read, and `after_cr` says that a "\r" was just read.
unfoldable pub lines_from : Text → Bool → Text → List Text
unfolding is_line_end
lines_from [] after_cr [] = []
lines_from (d ∷ cur) after_cr [] = (d ∷ cur) ∷ []
lines_from cur after_cr (c ∷ s) = elim (after_cr && c == 10) [
  | true ↦ lines_from cur false s
  | false ↦ elim (is_line_end c) [
    | true ↦ cur ∷ lines_from [] (c == 13) s
    | false ↦ lines_from (cur ++ c ∷ []) false s
  ]
]

unfoldable pub split_lines : Text → List Text
unfolding lines_from
split_lines s = lines_from [] false s

abbrev pub Heading : Type 0
Heading = ℕ × Text

-- `\s+(.*\S)\s*$` after `level` marks: at least one white space, and then text.
unfoldable pub heading_text : ℕ → Text → Option Heading
unfolding is_space strip
heading_text level [] = none
heading_text level (c ∷ s) = elim (is_space c) [
  | false ↦ none
  | true ↦ elim (strip s) [ [] ↦ none | d ∷ t ↦ some (level, d ∷ t) ]
]

-- The marks `#` read so far, of which there may be six; a seventh is no white space.
unfoldable pub heading_from : ℕ → Text → Option Heading
unfolding heading_text
heading_from level [] = none
heading_from level (c ∷ s) = elim (c == b'#') [
  | true ↦ heading_from (suc level) s
  | false ↦ if leb 1 level && leb level 6 then heading_text level (c ∷ s) else none
]

-- `_HEADING_RE.match(line)`: the number of marks and the text.
unfoldable pub heading : Text → Option Heading
unfolding heading_from
heading line = heading_from 0 line

-- "\n".join(lines)
unfoldable pub join_lines : List Text → Text
join_lines [] = []
join_lines (l ∷ []) = l
join_lines (l ∷ m ∷ ls) = l ++ (b'\n' ∷ join_lines (m ∷ ls))

abbrev pub Section : Type 0
Section = List Text × Text

-- `if current: sections.append((list(path), "\n".join(current).strip()))`
unfoldable pub close_section : List Text → List Text → List Section → List Section
unfolding join_lines strip
close_section path [] rest = rest
close_section path (l ∷ current) rest = (path, strip (join_lines (l ∷ current))) ∷ rest

-- The loop over the lines: the sections from here on.
unfoldable pub sections_from : List Text → List Text → List Text → List Section
unfolding close_section heading
sections_from path current [] = close_section path current []
sections_from path current (line ∷ lines) = elim (heading line) [
  | some (level, title) ↦
      close_section path current
        (sections_from (take (level - 1) path ++ title ∷ []) (line ∷ []) lines)
  | none ↦ sections_from path (current ++ line ∷ []) lines
]

-- `[(p, b) for p, b in sections if b]`
unfoldable pub with_body : List Section → List Section
with_body [] = []
with_body ((path, []) ∷ sections) = with_body sections
with_body ((path, c ∷ body) ∷ sections) = (path, c ∷ body) ∷ with_body sections

unfoldable pub parse_sections : Text → List Section
unfolding split_lines sections_from with_body
parse_sections text = with_body (sections_from [] [] (split_lines text))

-- `p.strip() for p in re.split(r"\n\s*\n", body) if p.strip()`, for one piece.
unfoldable pub keep_piece : Text → List Text → List Text
unfolding strip
keep_piece piece rest = elim (strip piece) [ [] ↦ rest | c ∷ s ↦ (c ∷ s) ∷ rest ]

-- The scan of `re.split`: `piece` is the piece being read and `space` the white space read since a
-- "\n", which it starts with; `tail` is what stands after the last "\n" in it, and `newlines` counts
-- them. With two or more it is a separator up to the last one.
unfoldable pub pieces_from : Text → Text → Text → ℕ → Text → List Text
unfolding keep_piece is_space
pieces_from piece space tail newlines [] =
    if leb 2 newlines then keep_piece piece (keep_piece tail []) else keep_piece (piece ++ space) []
pieces_from piece space tail newlines (c ∷ s) = elim (c == 10) [
  | true ↦ pieces_from piece (space ++ c ∷ []) [] (suc newlines) s
  | false ↦ elim (is_space c && leb 1 newlines) [
    | true ↦ pieces_from piece (space ++ c ∷ []) (tail ++ c ∷ []) newlines s
    | false ↦ elim (leb 2 newlines) [
      | true ↦ keep_piece piece (pieces_from (tail ++ c ∷ []) [] [] 0 s)
      | false ↦ pieces_from (piece ++ (space ++ c ∷ [])) [] [] 0 s
    ]
  ]
]

unfoldable pub split_blank : Text → List Text
unfolding pieces_from
split_blank body = pieces_from [] [] [] 0 body

unfoldable pub all_headings : List Text → Bool
unfolding heading
all_headings [] = true
all_headings (l ∷ ls) = elim (heading l) [ none ↦ false | some h ↦ all_headings ls ]

-- The `while` that moves paragraphs made of headings into the prefix.
unfoldable pub take_prefix : Text → List Text → Text × List Text
unfolding all_headings split_lines strip
take_prefix prefix [] = (prefix, [])
take_prefix prefix (p ∷ paragraphs) = elim (all_headings (split_lines p)) [
  | true ↦ take_prefix (strip (prefix ++ (b'\n' ∷ b'\n' ∷ p))) paragraphs
  | false ↦ (prefix, p ∷ paragraphs)
]

-- A chunk of the result.
pub record Chunk : Type 0 where
  pub text : Text
  pub heading_path : List Text

-- `(prefix + "\n\n" + piece).strip() if prefix else piece`
unfoldable pub with_prefix : Text → Text → Text
unfolding strip
with_prefix [] piece = piece
with_prefix (c ∷ prefix) piece = strip ((c ∷ prefix) ++ (b'\n' ∷ b'\n' ∷ piece))

-- A chunk that is not too short, ahead of the rest.
unfoldable pub keep_chunk : ℕ → List Text → Text → List Chunk → List Chunk
keep_chunk min_chars path text rest =
    if leb min_chars (length text) then record { text = text; heading_path = path } ∷ rest else rest

unfoldable pub keep_pieces : ℕ → List Text → Text → List Text → List Chunk → List Chunk
unfolding keep_chunk with_prefix
keep_pieces min_chars path prefix [] rest = rest
keep_pieces min_chars path prefix (piece ∷ pieces) rest =
    keep_chunk min_chars path (with_prefix prefix piece)
      (keep_pieces min_chars path prefix pieces rest)

-- What one section gives, ahead of the rest.
unfoldable pub split_section : ℕ → ℕ → ℕ → Section → List Chunk → List Chunk
unfolding keep_chunk keep_pieces take_prefix split_blank split_paragraphs
split_section target overlap min_chars (path, body) rest =
    if leb (length body) target
    then keep_chunk min_chars path body rest
    else let (prefix, paragraphs) = take_prefix [] (split_blank body) in
      keep_pieces min_chars path prefix (split_paragraphs paragraphs target overlap) rest

unfoldable pub split_sections : ℕ → ℕ → ℕ → List Section → List Chunk
unfolding split_section
split_sections target overlap min_chars [] = []
split_sections target overlap min_chars (section ∷ sections) =
    split_section target overlap min_chars section
      (split_sections target overlap min_chars sections)

unfoldable pub split_markdown : Text → ℕ → ℕ → ℕ → List Chunk
unfolding split_sections parse_sections
split_markdown text target overlap min_chars =
    split_sections target overlap min_chars (parse_sections text)
