-- ===== src/Quality.antt =====
-- py-processor/quality.py: the patterns of the quality gate and what it measures of a text.
-- `str.isalnum` (`is_word`, with the underscore) and `str.lower` are parameters. A ratio is a pair of
-- a numerator and a denominator; the score is computed exactly, where the source has floats.
pub mod Gate
pub mod Decided
pub mod Scored
pub mod Rows
use webspider.Prelude.{
  ℕ, ◌+◌, ◌-◌, ◌*◌, ◌/◌, ◌%◌, min, ltb, leb, ◌==◌, Bool, true, false, not, ◌&&◌, ◌||◌, List, [],
  ◌∷◌, map, Text, codes, text_elem, length, if◌then◌else◌,
}
use webspider.Str.{is_space}
use webspider.Regex.{
  Pattern, empty, one, many, seq, alt, boundary, group, some_of, Match, find_all, sub_space,
}

-- A text, character by character, each matched by the class that `letter` gives it.
unfoldable pub literal_by : (ℕ → ℕ → Bool) → Text → Pattern
literal_by letter [] = empty
literal_by letter (c ∷ s) = seq (one (letter c)) (literal_by letter s)

abbrev same : ℕ → ℕ → Bool
same c x = x == c

abbrev literal : Text → Pattern
literal = literal_by same

abbrev any_but : Text → ℕ → Bool
any_but [] x = true
any_but (c ∷ s) x = not (x == c) && any_but s x

-- "```[^\n]*\n(.*?)```", where `.` is any character.
abbrev pub fence : Pattern
fence = seq (literal (codes "```")) (
    seq (many true (any_but (10 ∷ [])))
      (seq (one (same 10)) (seq (group (many false (any_but []))) (literal (codes "```")))))

-- "`[^`\n]+`"
abbrev pub inline_code : Pattern
inline_code =
    seq (literal (codes "`")) (seq (some_of (any_but (b'`' ∷ 10 ∷ []))) (literal (codes "`")))

-- "https?://\S+"
abbrev address : Pattern
address = seq (literal (codes "http")) (
    seq (alt (literal (codes "s")) empty)
      (seq (literal (codes "://")) (some_of (λ x. not (is_space x)))))

-- "https?://\S+|\[[^\]]+\]\(https?://\S+\)"
abbrev pub link : Pattern
link = alt address (
    seq (literal (codes "[")) (
      seq (some_of (any_but (codes "]")))
        (seq (literal (codes "](")) (seq address (literal (codes ")"))))))

abbrev is_letter : ℕ → Bool
is_letter x = (leb 65 x && leb x 90) || (leb 97 x && leb x 122)

-- "[A-Za-z][A-Za-z'-]+"
abbrev pub word : Pattern
word = seq (one is_letter) (some_of (λ x. is_letter x || x == 39 || x == b'-'))

-- A character of a pattern under `re.IGNORECASE`, where the pattern is in small letters: the letter
-- itself, its capital, and the four other characters that `re` takes for i, s and k.
unfoldable pub ignore_case : ℕ → ℕ → Bool
ignore_case c x =
    x == c
    || (leb 97 c && leb c 122 && x == c - 32)
    || (c == b'i' && (x == 304 || x == 305))
    || (c == b's' && x == 383)
    || (c == b'k' && x == 8490)

abbrev phrase : Text → Pattern
phrase = literal_by ignore_case

unfoldable pub any_of : Text → List Text → Pattern
unfolding literal_by ignore_case
any_of s [] = phrase s
any_of s (t ∷ rest) = alt (phrase s) (any_of t rest)

abbrev spaces : Pattern
spaces = some_of is_space

abbrev bounded : Pattern → Pattern
bounded r = seq boundary (seq r boundary)

-- `_SPAM_RE`, the alternatives in the order of `_SPAM_PATTERNS`.
abbrev pub spam : Pattern
spam =
    alt
      (bounded (
        seq (phrase (codes "please")) (
          seq spaces (
            any_of (codes "help")
              (codes "subscribe" ∷ codes "follow" ∷ codes "upvote" ∷ codes "donate" ∷ [])))))
      (alt
        (bounded (
          seq (phrase (codes "check")) (
            seq spaces (
              seq (phrase (codes "out")) (
                seq spaces (
                  seq (phrase (codes "my")) (
                    seq spaces (
                      any_of (codes "channel")
                        (codes "blog" ∷ codes "repo" ∷ codes "github" ∷ [])))))))))
        (alt
          (bounded (
            seq (any_of (codes "free") (codes "discount" ∷ codes "coupon" ∷ codes "promo" ∷ []))
              (seq spaces (phrase (codes "code")))))
          (alt (bounded (seq (phrase (codes "buy")) (seq spaces (phrase (codes "now"))))) (
            alt (bounded (seq (phrase (codes "click")) (seq spaces (phrase (codes "here"))))) (
              bounded (
                any_of (codes "job opening") (codes "we are hiring" ∷ codes "hiring now" ∷ [])))))))

-- `_HELP_RE`
abbrev pub help : Pattern
help = bounded (
    any_of (codes "can someone help me") (
      codes "how do i fix"
      ∷ codes "i am stuck"
      ∷ codes "i'm stuck"
      ∷ codes "anyone know how"
      ∷ codes "please help me"
      ∷ codes "urgent help"
      ∷ []))

-- A ratio of the source, as a numerator over a denominator.
pub record Ratio : Type 0 where
  pub over : ℕ
  pub under : ℕ

abbrev ratio : ℕ → ℕ → Ratio
ratio over under = record { over = over; under = under }

abbrev group_total : List Match → ℕ
group_total [] = 0
group_total (m ∷ ms) = m.group_length + group_total ms

abbrev text_total : List Match → ℕ
text_total [] = 0
text_total (m ∷ ms) = length m.text + text_total ms

-- `len(set(words))`
unfoldable pub distinct_count : List Text → ℕ
distinct_count [] = 0
distinct_count (w ∷ ws) = let rest = distinct_count ws in if text_elem w ws then rest else 1 + rest

module _ (is_word : ℕ → Bool) where
  unfoldable pub code_chars : Text → ℕ
  unfolding find_all literal_by some_of
  code_chars text =
      group_total (find_all is_word fence text) + text_total (find_all is_word inline_code text)

  unfoldable pub word_count : Text → ℕ
  unfolding find_all some_of
  word_count text = length (find_all is_word word text)

  unfoldable pub link_ratio : Text → Ratio
  unfolding find_all literal_by some_of is_space word_count
  link_ratio text =
      if ltb (word_count text) 20
      then ratio 0 1
      else ratio (length (find_all is_word link text)) (word_count text)

  unfoldable pub unique_word_ratio : (Text → Text) → Text → Ratio
  unfolding find_all some_of distinct_count
  unique_word_ratio lower text =
      let words = map (λ (m : Match). m.text) (find_all is_word word (lower text)) in
      if ltb (length words) 20 then ratio 1 1 else ratio (distinct_count words) (length words)

  unfoldable pub strip_code : Text → Text
  unfolding sub_space literal_by some_of
  strip_code text = sub_space is_word inline_code (sub_space is_word fence text)

-- `round` of a numerator over a denominator, a tie to the even neighbour.
unfoldable pub round_ratio : ℕ → ℕ → ℕ
round_ratio over under =
    let q = over / under in
    let r = over % under in
    if ltb (2 * r) under then q else if ltb under (2 * r) then q + 1 else q + q % 2

-- `round(x, 3)`, in thousandths.
unfoldable pub thousandths : Ratio → ℕ
unfolding round_ratio
thousandths x = round_ratio (1000 * x.over) x.under

-- `_quality_score`: 0.4 of the length, 0.3 of the code and 0.3 of the diversity, less 0.5 of the
-- link penalty, over the common denominator.
unfoldable pub quality_ratio : ℕ → ℕ → Ratio → Ratio → Ratio
quality_ratio n cc lr ur =
    let under = 240000 * lr.under * ur.under in
    let length_s = 32 * min n 3000 * lr.under * ur.under in
    let code_s = 90 * min cc 800 * lr.under * ur.under in
    let diversity_s = 72000 * min ur.over ur.under * lr.under in
    let link_pen = 40000 * min (10 * lr.over) (3 * lr.under) * ur.under in
    ratio (min under ((length_s + code_s + diversity_s) - link_pen)) under
