-- ===== src/Tests/Batches.antt =====
-- Batches, writes and the dead-letter stream at concrete inputs.
use webspider.Prelude.{
  ℕ, ◌+◌, ◌≡◌, ◌≢◌, refl, false, List, [], ◌∷◌, ◌++◌, some, none, codes, All, length, text_eq,
  text_elem, elem,
}
use webspider.Outcome.{ok, raise, database_error}
use webspider.Services.{Row, Call, Message}
use webspider.Services.Run.{State, ◌>>=◌, ◌>>◌, lift, issue, catch, pure}
use webspider.Store.{insert_articles}
use webspider.Dedupe.{simhash, bucket_keys, is_token_char}
use webspider.Neardup.{is_duplicate, band_key, index}
use webspider.Str.{decimal}
use webspider.Pipeline.Counts.{total, bump}
use webspider.Pipeline.DeadLetter.{push_dlq, dlq_fields, dlq_script}
use webspider.Pipeline.DeadLetter.Once.{now, pushed, push_dlq_once}
use webspider.Pipeline.Batch.{
  store_rows, count_rejected, hincrby_all, lookup, Gathered, gather, settle, process_batch, msg_ids,
  decode, inline_content,
}
use webspider.Pipeline.Batch.Accounting.{malformed, gather-fates}
use webspider.Pipeline.Batch.Acks.{AckedLast, process_batch-AckedLast}
use webspider.Pipeline.Batch.Loss.{NotInsert, process_batch-lost}
use webspider.Pipeline.Batch.Failure.{NotFinal, process_batch-insert_raises}
use webspider.Tests.World.{
  memory, hashing, small, libraries, article, page_article, up, down, batch, holds, members_of,
  additions,
}
use webspider.Tests.Laws.{memory_scripts}

abbrev first_row : Row
first_row = record {
  url = codes "https://a.example/1";
  url_hash = codes "https://a.example/1";
  title = some (codes "A");
  content = codes "an inline text";
  author = none;
  published_at = none;
  tags = some [];
  source_type = codes "stackexchange";
  language = codes "en";
  content_hash = 6;
  quality_score = 500;
}

-- One row, and the page that the fetcher did not bring.
abbrev gathered : Gathered
gathered = record {
  rows = first_row ∷ [];
  stats = (codes "extract_fail", 1) ∷ [];
  src_rej = (codes "stackexchange", 1) ∷ [];
}

run_up : (gather memory hashing small libraries batch up).result ≡ ok gathered
unfolding gather ◌>>=◌ ◌>>◌ lift issue catch pure text_eq text_elem elem lookup push_dlq holds
    is_duplicate bucket_keys members_of band_key simhash is_token_char bump decimal
run_up = refl

gather-fates_example :
    total gathered.stats + length gathered.rows + malformed libraries batch ≡ length batch
gather-fates_example = gather-fates memory hashing small libraries batch up gathered run_up

process_batch-AckedLast_example :
    AckedLast memory hashing small libraries
      (codes "1-0" ∷ codes "1-1" ∷ codes "1-2" ∷ [])
      (settle memory hashing small libraries batch up)
      (process_batch memory hashing small libraries (some batch) up)
unfolding msg_ids
process_batch-AckedLast_example =
    process_batch-AckedLast memory hashing small libraries (codes "1-0", some (codes "1"))
      ((codes "1-1", some (codes "2")) ∷ (codes "1-2", some (codes "x")) ∷ []) up

run_down : (gather memory hashing small libraries batch down).result ≡ ok gathered
unfolding gather ◌>>=◌ ◌>>◌ lift issue catch pure text_eq text_elem elem lookup push_dlq holds
    is_duplicate bucket_keys members_of band_key simhash is_token_char bump decimal
run_down = refl

insert_down :
    (insert_articles memory
      (first_row ∷ [])
      (gather memory hashing small libraries batch down).state).result
    ≡ raise database_error
unfolding insert_articles gather ◌>>=◌ issue lift text_eq text_elem lookup ◌>>◌ push_dlq catch holds
    is_duplicate bucket_keys members_of band_key elem
insert_down = refl

process_batch-insert_raises_example :
    ((process_batch memory hashing small libraries (some batch) down).result ≡ raise database_error)
    × ((process_batch memory hashing small libraries (some batch) down).calls
        ≡ (gather memory hashing small libraries batch down).calls
          ++ (insert_articles memory
              (first_row ∷ [])
              (gather memory hashing small libraries batch down).state).calls)
    × All NotFinal (process_batch memory hashing small libraries (some batch) down).calls
process_batch-insert_raises_example =
    process_batch-insert_raises memory hashing small libraries batch down gathered first_row []
      database_error run_down refl insert_down

abbrev pushed_once : State memory
pushed_once =
    (push_dlq memory small libraries (codes "1-1") page_article (codes "extract_fail") [] up).state

-- Another message is parked in between.
abbrev pushed_twice : State memory
pushed_twice =
    (push_dlq memory small libraries (codes "1-2") page_article (codes "x") [] pushed_once).state

push_dlq_once_example :
    ((push_dlq memory small libraries
        (codes "1-1")
        page_article
        (codes "again")
        []
        pushed_twice).result
      ≡ ok false)
    × ((m : ℕ)
        → (memory.eval
            (dlq_script memory small
              (codes "1-1")
              (dlq_fields libraries (codes "1-1") page_article (codes "again") []))
            pushed_twice.world).0
          ≡ ok m
        → (push_dlq memory small libraries
            (codes "1-1")
            page_article
            (codes "again")
            []
            pushed_twice).state
          ≡ pushed_twice)
unfolding dlq_script holds
push_dlq_once_example =
    push_dlq_once memory_scripts small libraries (codes "1-1") page_article page_article
      (codes "extract_fail") [] (codes "again") [] up pushed_twice 1 refl
      (pushed (codes "1-2") (codes "x") [] page_article now)

abbrev one : List Message
one = (codes "1-0", some (codes "1")) ∷ []

-- The database is back, and the deque is the one that the failed batch left.
abbrev again : State memory
again = record up { seen = 6 ∷ [] }

run_one :
    (gather memory hashing small libraries one down).result
    ≡ ok (record { rows = first_row ∷ []; stats = []; src_rej = [] })
unfolding gather ◌>>=◌ ◌>>◌ lift issue catch pure text_eq text_elem elem lookup push_dlq holds
    is_duplicate bucket_keys members_of band_key simhash is_token_char bump decimal
run_one = refl

failed_once :
    (process_batch memory hashing small libraries (some one) down).result ≡ raise database_error
unfolding gather ◌>>=◌ ◌>>◌ lift issue catch pure text_eq text_elem elem lookup push_dlq holds
    is_duplicate bucket_keys members_of band_key simhash is_token_char bump decimal additions
    process_batch store_rows insert_articles count_rejected index hincrby_all
failed_once = refl

left_seen : again.seen ≡ (process_batch memory hashing small libraries (some one) down).state.seen
unfolding gather ◌>>=◌ ◌>>◌ lift issue catch pure text_eq text_elem elem lookup push_dlq holds
    is_duplicate bucket_keys members_of band_key simhash is_token_char bump decimal additions
    process_batch store_rows insert_articles count_rejected index hincrby_all
left_seen = refl

returned : (process_batch memory hashing small libraries (some one) again).result ≡ ok tt
unfolding gather ◌>>=◌ ◌>>◌ lift issue catch pure text_eq text_elem elem lookup push_dlq holds
    is_duplicate bucket_keys members_of band_key simhash is_token_char bump decimal additions
    process_batch store_rows insert_articles count_rejected index hincrby_all
returned = refl

one_row : first_row ∷ [] ≢ []
one_row e = cc

process_batch-lost_example :
    All NotInsert (process_batch memory hashing small libraries (some one) again).calls
    × ((process_batch memory hashing small libraries (some one) again).calls
        ≡ (settle memory hashing small libraries one again).calls
          ++ Call.xack (codes "1-0" ∷ []) ∷ [])
unfolding decode inline_content text_eq
process_batch-lost_example =
    process_batch-lost memory hashing small libraries (codes "1-0") (some (codes "1")) article
      (codes "an inline text") down again
      (record { rows = first_row ∷ []; stats = []; src_rej = [] }) refl refl run_one one_row
      left_seen returned
