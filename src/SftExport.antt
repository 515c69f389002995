-- ===== src/SftExport.antt =====
-- py-processor/export_sft.py: a question and its answer out of a composed document, and the loop
-- that writes one sample for each title. The printed line is left out; `str.lower` and the query
-- are parameters.
pub mod Titles
pub mod Run
pub mod Leak
use webspider.Prelude.{
  ℕ, suc, ◌-◌, Bool, true, false, ◌&&◌, ◌||◌, List, [], ◌∷◌, ◌++◌, Option, none, some, Text, codes,
  text_eq, text_elem, length, drop, is_empty, ltb, ◌==◌, if◌then◌else◌,
}
use webspider.Str.{strip, lstrip}

-- `_ANSWER_SEP`
abbrev answer_sep : Text
answer_sep = codes "\n## Top answer\n"

unfoldable pub starts_with : Text → Text → Bool
starts_with [] s = true
starts_with (c ∷ p) [] = false
starts_with (c ∷ p) (d ∷ s) = c == d && starts_with p s

abbrev add_before : ℕ → Option (Text × Text) → Option (Text × Text)
add_before c none = none
add_before c (some (before, after)) = some (c ∷ before, after)

-- `text.partition(sep)`, with `none` where `sep not in text`.
unfoldable pub partition : Text → Text → Option (Text × Text)
unfolding starts_with
partition sep [] = none
partition sep (c ∷ s) =
    let rest = partition sep s in
    if starts_with sep (c ∷ s) then some ([], drop (length sep) (c ∷ s)) else add_before c rest

-- The first line, and what follows it from its "\n" on.
unfoldable pub first_line : Text → Text × Text
first_line [] = ([], [])
first_line (c ∷ s) =
    let (line, rest) = first_line s in if c == 10 then ([], c ∷ s) else (c ∷ line, rest)

-- The white space and the title after the "#", in a text that has no white space at its end: the
-- white space is one character or more, and stands before the first other character.
unfoldable pub title_after : Text → Text → Option (Text × Text)
unfolding first_line
title_after s [] = none
title_after s (c ∷ t) = if length (c ∷ t) == length s then none else some (first_line (c ∷ t))

-- `_TITLE_RE.match(s)` of a stripped text: the title and what follows the match.
unfoldable pub match_title : Text → Option (Text × Text)
unfolding title_after lstrip
match_title [] = none
match_title (c ∷ s) = if c == b'#' then title_after s (lstrip s) else none

-- The title, the question and the answer, where they qualify.
unfoldable pub qualify : ℕ → Text → Text → Text → Option (Text × Text × Text)
qualify min_answer_chars title question answer =
    if is_empty question || ltb (length answer) min_answer_chars
    then none
    else some (title, question, answer)

unfoldable pub split_answer : ℕ → Text → Option (Text × Text) → Option (Text × Text × Text)
unfolding qualify strip
split_answer min_answer_chars title none = none
split_answer min_answer_chars title (some (question, answer)) =
    qualify min_answer_chars title (strip question) (strip answer)

unfoldable pub split_title : ℕ → Option (Text × Text) → Option (Text × Text × Text)
unfolding split_answer partition strip
split_title min_answer_chars none = none
split_title min_answer_chars (some (title, rest)) =
    split_answer min_answer_chars (strip title) (partition answer_sep (strip rest))

-- `parse_qa(content_md, min_answer_chars)`; an empty text has no title.
unfoldable pub parse_qa : Text → ℕ → Option (Text × Text × Text)
unfolding split_title match_title strip
parse_qa content min_answer_chars = split_title min_answer_chars (match_title (strip content))

-- A row of the query. The quality score is held in thousandths.
pub record Post : Type 0 where
  pub url : Text
  pub content : Text
  pub score : Option ℕ
  pub tags : Option (List Text)

-- A record of the output.
pub data Record : Type 0 where
  alpaca : Text → Text → Text → Text → List Text → Record
  sharegpt : Text → Text → Text → List Text → Record

unfoldable pub or_no_tags : Option (List Text) → List Text
or_no_tags none = []
or_no_tags (some l) = l

unfoldable pub to_alpaca : Text → Text → Text → Post → Record
unfolding or_no_tags
to_alpaca title question answer p = alpaca title question answer p.url (or_no_tags p.tags)

unfoldable pub to_sharegpt : Text → Text → Text → Post → Record
unfolding or_no_tags strip
to_sharegpt title question answer p =
    sharegpt (strip (title ++ (codes "\n\n" ++ question))) answer p.url (or_no_tags p.tags)

unfoldable pub to_record : Bool → Text × Text × Text → Post → Record
unfolding to_alpaca to_sharegpt
to_record true (title, question, answer) p = to_alpaca title question answer p
to_record false (title, question, answer) p = to_sharegpt title question answer p

-- `score is not None and score < min_quality`
unfoldable pub is_low : ℕ → Option ℕ → Bool
is_low min_quality none = false
is_low min_quality (some s) = ltb s min_quality

-- A row that has a sample: the sample's parts, unless the score or the text disqualifies it.
unfoldable pub sample_of : ℕ → ℕ → Post → Option (Text × Text × Text)
unfolding is_low parse_qa
sample_of min_quality min_answer_chars p =
    if is_low min_quality p.score then none else parse_qa p.content min_answer_chars

module _ (lower : Text → Text) (is_alpaca : Bool) (min_quality min_answer_chars : ℕ) where
  -- A sample whose title was seen already is left out; `rest` is the loop over the other rows, from
  -- the titles seen.
  unfoldable pub write_new :
      Bool → (List Text → List (Text × Record)) → List Text → Text → Record → List (Text × Record)
  write_new true rest seen key r = rest seen
  write_new false rest seen key r = (key, r) ∷ rest (key ∷ seen)

  unfoldable pub write_sample :
      (List Text → List (Text × Record))
      → List Text
      → Post
      → Option (Text × Text × Text)
      → List (Text × Record)
  unfolding to_record write_new
  write_sample rest seen p none = rest seen
  write_sample rest seen p (some (title, question, answer)) =
      write_new (text_elem (lower title) seen) rest seen (lower title)
        (to_record is_alpaca (title, question, answer) p)

  -- The loop of `export_sft`: the records written, each with the key of its title.
  unfoldable pub export_from : List Text → List Post → List (Text × Record)
  unfolding write_sample sample_of
  export_from seen [] = []
  export_from seen (p ∷ posts) =
      write_sample (λ seen'. export_from seen' posts) seen p
        (sample_of min_quality min_answer_chars p)

  unfoldable pub export_sft : List Post → List (Text × Record)
  unfolding export_from
  export_sft posts = export_from [] posts
