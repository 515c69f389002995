-- ===== src/Store.antt =====
-- py-processor/store.py: `insert_articles`. The connection pool is psycopg2's and is not modelled;
-- a connection is part of the services' world.
use webspider.Prelude.{ℕ, List, [], ◌∷◌}
use webspider.Services.{Services, Row, Call}
use webspider.Services.Run.{M, pure, issue, ◌>>=◌, ◌>>◌}

module _ (sv : Services) where
  -- `insert` is the call of `execute_values` with all the rows and the row count behind it.
  unfoldable pub insert_articles : List Row → M sv ℕ
  insert_articles [] = pure 0
  insert_articles (row ∷ rows) = do
    inserted ← issue (Call.insert (row ∷ rows)) (sv.insert (row ∷ rows))
    issue Call.commit sv.commit
    pure inserted
