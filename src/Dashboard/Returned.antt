-- ===== src/Dashboard/Returned.antt =====
-- The connections that the queries of the dashboard take from the pool.
use webspider.Prelude.{ℕ}
use webspider.Dedupe.{ℤ}
use webspider.Services.Keeps.{Spares}
use webspider.Action.{Action}
use webspider.Action.Borrowing.{Pool, borrow-Spares}
use webspider.Action.Sparing.{Spares-pure, Spares-bind}
use webspider.Sql.{Statement}
use webspider.Dashboard.{
  Database, Filters, connected, summary, lang_distribution, source_distribution, daily,
  article_by_id, both, articles,
}

-- No statement takes a connection or gives one back.
pub record Pooled (db : Database) (out : db.World → ℕ) : Type 0 where
  pub pool : Pool db.get_conn db.put_conn out
  pub totals : (st : Statement) → Spares out (db.totals st)
  pub counts : (st : Statement) → Spares out (db.counts st)
  pub detail : (st : Statement) → Spares out (db.detail st)
  pub count : (st : Statement) → Spares out (db.count st)
  pub listed : (st : Statement) → Spares out (db.listed st)
  pub snapshots : (st : Statement) → Spares out (db.snapshots st)

module _ (db : Database) (out : db.World → ℕ) (pooled : Pooled db out) where
  pub connected-Spares {ℓ} :
      {A : Type ℓ} (m : Action db.World A) → Spares out m → Spares out (connected db m)
  unfolding connected
  connected-Spares m h = borrow-Spares db.get_conn db.put_conn out m pooled.pool h

  article_by_id-Spares : (aid : ℕ) → Spares out (article_by_id db aid)
  unfolding article_by_id
  article_by_id-Spares aid =
      Spares-bind _ _ (connected-Spares _ (pooled.detail _)) (λ r. Spares-pure _)

  articles-Spares : (f : Filters) (page size : ℤ) → Spares out (articles db f page size)
  unfolding articles both
  articles-Spares f page size =
      Spares-bind _ _
        (connected-Spares _ (
          Spares-bind _ _ (pooled.count _)
            (λ total. Spares-bind _ _ (pooled.listed _) (λ rows. Spares-pure _))))
        (λ r. Spares-pure _)

  -- Each query of the dashboard leaves as many connections checked out as there were, whether it
  -- returns or raises, where the pool keeps the laws of `Pool`.
  queries-Spares :
      (f : Filters) (page size : ℤ) (aid limit : ℕ)
      → Spares out (summary db)
        × Spares out (lang_distribution db)
        × Spares out (source_distribution db)
        × Spares out (daily db limit)
        × Spares out (article_by_id db aid)
        × Spares out (articles db f page size)
  unfolding summary lang_distribution source_distribution daily
  queries-Spares f page size aid limit = (
    connected-Spares _ (pooled.totals _),
    connected-Spares _ (pooled.counts _),
    connected-Spares _ (pooled.counts _),
    connected-Spares _ (pooled.counts _),
    article_by_id-Spares aid,
    articles-Spares f page size,
  )
