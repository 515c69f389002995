-- ===== src/Dashboard/Routes.antt =====
-- py-processor/dashboard/app.py: the bearer guard and the routes, with the status of each answer.
-- FastAPI is not modelled: the checks of `Query` on the numbers are made before a route runs.
pub mod Guarded
use webspider.Prelude.{
  ℕ, ◌+◌, ◌/◌, Bool, true, false, not, ◌&&◌, [], ◌∷◌, ◌++◌, List, Option, none, some, Text, codes,
  text_eq, if◌then◌else◌,
}
use webspider.Dedupe.{ℤ, pos}
use webspider.Outcome.{Outcome, ok, raise, Error, rate_limited, search_unavailable}
use webspider.Action.{Action, pure, continue}
use webspider.Dashboard.{
  Database, Filters, Article, Page, Totals, summary, lang_distribution, source_distribution, daily,
  article_by_id, articles,
}
use webspider.Dashboard.Metrics.{Redis, Counters, pipeline}
use webspider.Dashboard.Health.{Loaded, Age, Activity, health}

-- An answer: its status, and what is sent with a success.
pub data Response {ℓ} (A : Type ℓ) : Type ℓ where
  sent : A → Response A
  failed : ℕ → Response A

-- `request.url.path` and the "authorization" header.
pub record Request : Type 0 where
  pub path : Text
  pub authorization : Option Text

-- `s.startswith(prefix)`
unfoldable pub starts_with : Text → Text → Bool
starts_with [] s = true
starts_with (c ∷ p) [] = false
starts_with (c ∷ p) (d ∷ s) = text_eq (c ∷ []) (d ∷ []) && starts_with p s

-- `headers.get("authorization", "")`
abbrev header : Option Text → Text
header none = []
header (some h) = h

-- Whether the guard turns a request away, for the value of DASH_TOKEN.
unfoldable pub refuses : Text → Request → Bool
unfolding starts_with
refuses [] request = false
refuses (c ∷ token) request =
    starts_with (codes "/api/") request.path
    && not (text_eq (header request.authorization) (codes "Bearer " ++ (c ∷ token)))

unfoldable pub auth_guard {ℓ} :
    {W : Type 0} {A : Type ℓ} → Text → Request → Action W (Response A) → Action W (Response A)
unfolding refuses pure
auth_guard token request call_next = if refuses token request then pure (failed 401) else call_next

-- `try: return value; except Exception: raise HTTPException(status)`
unfoldable pub answer_by {ℓ} : {A : Type ℓ} → (Error → ℕ) → Outcome A → Response A
answer_by status (ok a) = sent a
answer_by status (raise e) = failed (status e)

unfoldable pub route_by {ℓ} :
    {W : Type 0} {A : Type ℓ} → (Error → ℕ) → Action W A → W → Response A × W
unfolding answer_by
route_by status m w = let (o, w') = m w in (answer_by status o, w')

abbrev internal : Error → ℕ
internal e = 500

-- A missing article is a 404.
unfoldable pub found_or_404 : Response (Option Article) → Response Article
found_or_404 (sent none) = failed 404
found_or_404 (sent (some a)) = sent a
found_or_404 (failed n) = failed n

module _ (db : Database) where
  unfoldable pub api_summary : db.World → Response Totals × db.World
  unfolding route_by summary
  api_summary = route_by internal (summary db)

  unfoldable pub api_lang_dist : db.World → Response (List (Option Text × ℕ)) × db.World
  unfolding route_by lang_distribution
  api_lang_dist = route_by internal (lang_distribution db)

  unfoldable pub api_source_dist : db.World → Response (List (Option Text × ℕ)) × db.World
  unfolding route_by source_distribution
  api_source_dist = route_by internal (source_distribution db)

  unfoldable pub api_daily : ℕ → db.World → Response (List (Option Text × ℕ)) × db.World
  unfolding route_by daily
  api_daily limit = route_by internal (daily db limit)

  unfoldable pub api_pipeline :
      Redis db.World → (Text → Outcome ℕ) → Text → Text → db.World → Response Counters × db.World
  unfolding route_by pipeline
  api_pipeline r int stream dlq_stream = route_by (λ e. 502) (pipeline r int stream dlq_stream)

  unfoldable pub api_health :
      Redis db.World
      → (Text → Loaded)
      → (Text → Age)
      → Text
      → ℕ
      → db.World
      → Response Activity × db.World
  unfolding route_by health
  api_health r loads since spec hours = route_by internal (health db r loads since spec (pos hours))

  unfoldable pub api_article_detail : ℕ → db.World → Response Article × db.World
  unfolding route_by article_by_id found_or_404
  api_article_detail aid w =
      let (response, w') = route_by internal (article_by_id db aid) w in (found_or_404 response, w')

  unfoldable pub api_articles : Filters → ℕ → ℕ → db.World → Response Page × db.World
  unfolding route_by articles
  api_articles f page page_size = route_by internal (articles db f (pos page) (pos page_size))
