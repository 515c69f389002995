-- ===== src/Pipeline/DeadLetter.antt =====
-- `push_dlq` of py-processor/main.py, and the script that parks a message on the dead-letter stream.
pub mod Once
use webspider.Prelude.{
  ℕ, ◌==◌, Bool, true, false, List, [], ◌∷◌, Option, none, some, Text, codes, take, if◌then◌else◌,
}
use webspider.Config.{Config}
use webspider.Services.{Services, Call}
use webspider.Services.Run.{M, pure, issue, catch, ◌>>=◌, ◌>>◌}
use webspider.Pipeline.{Article, Libraries}

-- `article.get(k, d)`
unfoldable pub get_or {ℓ} : {A : Type ℓ} → A → Option A → A
get_or d none = d
get_or d (some a) = a

-- The fields of the entry that the script adds.
unfoldable pub dlq_fields : Libraries → Text → Article → Text → Text → List (Text × Text)
unfolding get_or
dlq_fields lib msg_id article reason detail =
    (codes "stream_msg_id", msg_id)
    ∷ (codes "url", get_or [] article.url)
    ∷ (codes "title", get_or [] article.title)
    ∷ (codes "reason", reason)
    ∷ (codes "detail", take 500 detail)
    ∷ (codes "article", take 10000 (lib.dumps article))
    ∷ []

module _ (sv : Services) (cfg : Config) where
  -- `_DLQ_PUSH_LUA`
  unfoldable pub dlq_script : Text → List (Text × Text) → sv.World → ℕ × sv.World
  dlq_script msg_id fields w = if sv.sismember cfg.dlq_seen_key msg_id w then (0, w) else (
    1,
    sv.script_xadd cfg.dlq_stream cfg.dlq_maxlen fields (sv.script_sadd cfg.dlq_seen_key msg_id w),
  )

  -- After the script: the counter, and whether the message was newly parked.
  unfoldable pub count_parked : ℕ → M sv Bool
  count_parked first = do
    if first == 1
        then issue (Call.incr (codes "metrics:articles:dlq") 1)
            (sv.incr (codes "metrics:articles:dlq") 1)
        else pure tt
    pure (first == 1)

  -- The body of the `try`.
  unfoldable pub park : Text → List (Text × Text) → M sv Bool
  unfolding dlq_script count_parked
  park msg_id fields = do
    first ← issue (Call.eval msg_id fields) (sv.eval (dlq_script msg_id fields))
    count_parked first

  unfoldable pub push_dlq : Libraries → Text → Article → Text → Text → M sv Bool
  unfolding park dlq_fields
  push_dlq lib msg_id article reason detail =
      catch (park msg_id (dlq_fields lib msg_id article reason detail)) false
