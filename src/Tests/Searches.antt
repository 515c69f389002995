-- ===== src/Tests/Searches.antt =====
-- The gate of the semantic search at concrete times.
use webspider.Prelude.{ℕ, ◌+◌, ◌≢◌, ◌≡◌, refl, arith, [], ◌∷◌, none, some, codes}
use webspider.Outcome.{ok}
use webspider.RagSearch.Search.{
  Retrieval, Settings, Filters, Searched, refused, semantic_search, api_search, too_many,
}
use webspider.RagSearch.Search.Gated.{retry_after-passes}
use webspider.RagSearch.{passed}
use webspider.RagSearch.Spacing.{Spaced, passed-Spaced}

-- Queries every ten ticks and a period of ten: only every other one passes.
every_other : passed 10 0 (100 ∷ 110 ∷ 120 ∷ 130 ∷ []) ≡ 100 ∷ 120 ∷ []
unfolding passed
every_other = refl

passed-Spaced_example : Spaced 20 10 (passed 10 0 (100 ∷ 110 ∷ 120 ∷ 130 ∷ []))
passed-Spaced_example = passed-Spaced 10 0 (100 ∷ 110 ∷ 120 ∷ 130 ∷ [])

-- An embedding of one number and no chunk; the world counts the queries that reach the service.
abbrev retrieval : Retrieval
retrieval = record {
  World = ℕ;
  Float = ℕ;
  format = λ x. x ∷ [];
  post = λ query w. (ok (1 ∷ []), w + 1);
  cached = λ f. f;
  get_conn = λ w. (ok tt, w);
  put_conn = λ w. (ok tt, w);
  search = λ st w. (ok [], w);
}

-- A thousand ticks a second, and one query a second.
abbrev settings : Settings
settings = record { api_base = codes "b"; api_key = codes "k"; model = codes "m"; period = 1000 }

abbrev any_chunk : Filters
any_chunk = record { source = none; min_quality = some 400; since = none }

abbrev search_at : ℕ → ℕ → Searched × ℕ × ℕ
search_at now w = semantic_search retrieval settings (some (codes " redis ")) any_chunk 8 now 5000 w

too_early : api_search 1000 (search_at 5500 0).0 ≡ too_many 1
unfolding api_search semantic_search
too_early = refl

retry_after-passes_example :
    ((search_at 5500 0).1 ≡ 5000)
    × ((search_at 5500 0).2 ≡ 0)
    × ((search_at 6500 3).1 ≡ 6500 + 1000)
    × ((wait : ℕ) → (search_at 6500 3).0 ≢ refused wait)
retry_after-passes_example =
    retry_after-passes retrieval settings any_chunk 8 1000 (some (codes " redis ")) 5500 6500 5000 1
      0 3 (omega arith) too_early (omega arith)
