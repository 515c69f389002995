-- ===== src/Fetcher/Many.antt =====
-- `fetch_many` of py-processor/fetcher.py: what it makes of its futures, in the order in which they
-- complete. The threads are those of the executor; a future is the outcome of one `fetch_one`.
pub mod Lookups
use webspider.Prelude.{Bool, true, false, List, [], ◌∷◌, ◌++◌, Text, codes, text_eq, if◌then◌else◌}
use webspider.Outcome.{Outcome, ok, raise}
use webspider.Str.{decimal}
use webspider.Fetcher.Retry.{FetchResult, text, failed, gone}

abbrev pub Pages : Type 0
Pages = List (Text × Text)

-- `d[k] = v`
unfoldable pub put : Text → Text → Pages → Pages
put k v [] = (k, v) ∷ []
put k v ((j, u) ∷ d) = if text_eq k j then (j, v) ∷ d else (j, u) ∷ put k v d

-- The two maps that it returns.
pub record Maps : Type 0 where
  pub results : Pages
  pub permanent : Pages

-- What a future that did not raise adds; a PermanentFetchError is `gone`.
unfoldable pub add_result : Text → FetchResult → Maps → Maps
unfolding put decimal
add_result url (text body) m = record m { results = put url body m.results }
add_result url failed m = m
add_result url (gone status) m = record m {
  permanent = put url (codes "HTTP " ++ decimal status) m.permanent;
}

-- The loop over the completed futures; any other exception of a future is raised.
unfoldable pub collect : Maps → List (Text × Outcome FetchResult) → Outcome Maps
unfolding add_result
collect m [] = ok m
collect m ((url, ok r) ∷ futures) = collect (add_result url r m) futures
collect m ((url, raise e) ∷ futures) = raise e

unfoldable pub fetch_many : List (Text × Outcome FetchResult) → Outcome Maps
unfolding collect
fetch_many futures = collect (record { results = []; permanent = [] }) futures
