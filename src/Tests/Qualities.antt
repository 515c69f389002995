-- ===== src/Tests/Qualities.antt =====
-- The quality gate on short texts.
use webspider.Neardup.{is_duplicate}
use webspider.Pipeline.DeadLetter.{get_or}
use webspider.Services.Run.{issue, lift, ◌>>=◌, ◌>>◌}
use webspider.Prelude.{
  ℕ, ◌+◌, ◌≡◌, ◌≢◌, ◌↔◌, ◌⊎◌, ◌≤◌, refl, Bool, true, false, ◌||◌, ◌&&◌, List, [], ◌∷◌, ◌++◌, leb,
  ◌==◌, some, All, Text, codes, map, if◌then◌else◌, elem, text_elem,
}
use webspider.Regex.{some_of, is_found}
use webspider.Str.{is_space}
use webspider.Quality.{
  literal_by, any_of, ignore_case, code_chars, word_count, strip_code, spam, help, round_ratio,
}
use webspider.Quality.Gate.{Limits, assess, default_limits}
use webspider.Quality.Decided.{Passes, assess-keep}
use webspider.Quality.Rows.{with_gate, Gated, gather-Gated}
use webspider.Outcome.{ok}
use webspider.Dedupe.{simhash, bucket_keys}
use webspider.Services.{Message, Row}
use webspider.Pipeline.{Article, object, Libraries}
use webspider.Pipeline.Batch.{Gathered, make_row, gather}
use webspider.Tests.World.{memory, hashing, small, article, libraries, up, members_of}

abbrev ascii_word : ℕ → Bool
ascii_word x =
    (leb 48 x && leb x 57) || (leb 65 x && leb x 90) || (leb 97 x && leb x 122) || x == b'_'

abbrev ascii_lower : Text → Text
ascii_lower = map (λ c. if leb 65 c && leb c 90 then c + 32 else c)

abbrev fenced : Text
fenced = codes "a ```py" ++ 10 ∷ codes "x = `1`" ++ 10 ∷ codes "``` b `cd`"

fenced-code_chars : code_chars ascii_word fenced ≡ 16
unfolding code_chars
fenced-code_chars = refl

fenced-strip_code : strip_code ascii_word fenced ≡ codes "a   b  "
unfolding strip_code
fenced-strip_code = refl

words-word_count : word_count ascii_word (codes "I don't use well-known a1 words") ≡ 4
unfolding word_count
words-word_count = refl

spam-is_found : is_found ascii_word spam (codes "Just BUY   Now, ok") ≡ true
unfolding is_found literal_by ignore_case any_of some_of is_space
spam-is_found = refl

spam-not : is_found ascii_word spam (codes "buy nowadays") ≡ false
unfolding is_found literal_by ignore_case any_of some_of is_space
spam-not = refl

help-is_found : is_found ascii_word help (codes "Hi, anyone Know HOW?") ≡ true
unfolding is_found any_of
help-is_found = refl

half_even : round_ratio 5 2 ≡ 2
unfolding round_ratio
half_even = refl

empty-assess : (assess ascii_word ascii_lower default_limits []).keep ≡ false
unfolding assess
empty-assess = refl

assess-keep_example : ((assess ascii_word ascii_lower default_limits fenced).keep ≡ true) ↔ (
    (fenced ≢ [])
    × (is_found ascii_word spam fenced ≡ false)
    × ((80 ≤ code_chars ascii_word fenced) ⊎ Passes ascii_word ascii_lower default_limits fenced))
assess-keep_example = assess-keep ascii_word ascii_lower default_limits fenced

-- Ten characters of code are enough here.
abbrev lenient : Limits
lenient = record default_limits { min_code_chars = 10 }

abbrev code_article : Article
code_article = record article { content_md = some fenced }

abbrev code_libraries : Libraries
code_libraries = record libraries { loads = λ s. some (object code_article) }

abbrev gated : Libraries
gated = with_gate ascii_word ascii_lower lenient code_libraries

abbrev first_message : List Message
first_message = (codes "1-0", some (codes "1")) ∷ []

abbrev gathered_row : Row
gathered_row = make_row gated code_article fenced (codes "en") (simhash hashing fenced 8) 309

abbrev gathered : Gathered
gathered = record { rows = gathered_row ∷ []; stats = []; src_rej = [] }

gather_run : (gather memory hashing small gated first_message up).result ≡ ok gathered
unfolding gather ◌>>=◌ lift with_gate issue text_elem get_or is_duplicate bucket_keys members_of
    elem ◌>>◌
gather_run = refl

gather-Gated_example : All (Gated ascii_word ascii_lower lenient) (gathered_row ∷ [])
gather-Gated_example =
    gather-Gated ascii_word ascii_lower lenient memory hashing small code_libraries first_message up
      gathered gather_run

-- An empty article, one of code and one that is short.
abbrev contents : List Text
contents = [] ∷ fenced ∷ codes "short" ∷ []
