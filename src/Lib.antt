-- ===== src/Lib.antt =====
-- Verification of the WebSpider processor, the Python program under py-processor/.
--
-- The processor is a consumer of a Redis stream. A batch of messages goes through parsing, fetching
-- and text extraction, a quality gate, language detection and two duplicate tests; what is left is
-- inserted into PostgreSQL, its fingerprints are added to an index in Redis, counters are written,
-- and the batch is acknowledged. Messages whose page yields no text are parked on a dead-letter
-- stream.
--
-- Which file models which part:
--
--   Config              py-processor/config.py, the settings that the other parts read
--   Dedupe              py-processor/dedupe.py: _tokens, _token_hash, simhash, hamming, bucket_keys
--   Str                 str of a natural number and int of a text, as neardup.py uses them
--   Neardup             py-processor/neardup.py: _band_key, is_duplicate, index, warm_from_db
--   Store               py-processor/store.py: insert_articles
--   Pipeline            what py-processor/main.py reads of an article, and its libraries
--   Pipeline/DeadLetter push_dlq of py-processor/main.py, with its Lua script
--   Pipeline/Batch      process_batch and extract_content of py-processor/main.py
--   Fetcher             py-processor/fetcher.py: TokenBucket (acquire, penalise) and the steps that
--                       threads make on one bucket
--   Fetcher/Retry       fetch_one of py-processor/fetcher.py: its attempts, by the server's replies
--   Fetcher/Backoff     _parse_retry_after and _backoff_delay of py-processor/fetcher.py, and
--                       _parse_retry_after of py-processor/embed_chunks.py
--   Fetcher/Many        fetch_many of py-processor/fetcher.py: its maps, from the completed futures
--   Fetcher/Hosts       parse_host_overrides and _get_host_bucket of py-processor/fetcher.py, whose
--                       look and store are steps that threads interleave
--   Replay              replay_round of py-processor/dlq_replay.py
--   Replay/Loop         the rounds of --loop and main of the same file
--   RagSearch           _throttle of py-processor/dashboard/rag_search.py
--   RagSearch/Search    semantic_search of py-processor/dashboard/rag_search.py and api_search of
--                       py-processor/dashboard/app.py
--   Regex               what the quality gate uses of Python's re: patterns and the search for them
--   Quality             py-processor/quality.py: the patterns, the measures and the score
--   Quality/Gate        assess of py-processor/quality.py, with the limits of py-processor/config.py
--   Quality/Rows        the pipeline with this gate in place of its parameter
--   Sql                 SQL statements with placeholders, as the dashboard builds them
--   Dashboard           py-processor/dashboard/queries.py: the statements and the article list
--   Dashboard/Metrics   pipeline of the same file
--   Dashboard/Health    _stale_thresholds, health and _with_prev of the same file
--   Dashboard/Routes    py-processor/dashboard/app.py: the guard and the routes
--   Chunker             _split_paragraphs of py-processor/chunker.py
--   Chunker/Sections    _parse_sections and split_markdown of py-processor/chunker.py
--   Pipeline/Consumer   recover_pending, _drop_broken_conn and main of py-processor/main.py
--   RagExport           py-processor/rag_export.py: article_to_chunks and export_chunks
--   RagExport/State     load_state and save_state of the same file
--   SftExport           py-processor/export_sft.py: parse_qa, the records and the loop over the rows
--   SftExport/Run       export_sft of the same file around its loop
--   CorpusExport        py-processor/export.py: the statement and the loop of export_jsonl
--   SyncVectors         py-processor/sync_vectors.py, over its stages as a parameter
--   Probe               py-processor/quality_probe.py: what probe counts
--   Backfill            py-processor/backfill_simhash.py
--   Embedding           py-processor/embed_chunks.py: batch_texts, embed_batch_retry and run
--   Import              py-processor/import_pgvector.py, over a database that is a parameter
--   Monitor             py-processor/monitor.py, over services that are a parameter
--   Action              functions of the programs beside the processor: a result or an exception,
--                       and a world
--   Services            Redis, PostgreSQL and the fetcher, as a parameter (below)
--   Bits                bitwise operations on native numbers, by their binary digits
--   Prelude             names and lemmas that the others share
--   Tests               the theorems at concrete inputs, over services in memory
--
-- State and effects. A Python function that talks to the services is a function from a state to a
-- `Run`: its result or exception, the state that it leaves, and the calls that it issued, in order.
-- The state is a world of the services, of which nothing is known but what a theorem assumes, and
-- the deque `seen_hashes`. Every call may raise, and a call that raises may have changed the world.
-- `process_batch` is cut into functions that are composed as the code runs them: `gather` is its
-- phases 1 to 3, `store_rows` the block under `if rows`, `count_rejected` the one under `if stats`,
-- `ack` the one under `if ids_to_ack`.
--
-- Numbers. Fingerprints are natural numbers; a Python integer has no width, so the masks of the
-- code are written as remainders by a power of two, and the shifts as products and quotients. The
-- counters of `simhash` go below zero and are integers. A quality score is held in thousandths.
--
-- The clock of a token bucket is read in ticks, and a token is a number of units with a whole number
-- of them flowing in each tick: the floats of the code are exact here, and the sleep that a pass asks
-- for is rounded down to ticks. One pass of the loop of `acquire` is one step, since it is what the
-- lock makes atomic. A penalty has a whole number of seconds, which may be negative, as a Retry-After
-- header can make it; floats that are not finite are kept in `fetch_one`, whose sleep refuses them, but
-- are no penalty of a bucket.
--
-- Loops are structural recursions on the lists, the rows, the number of bands or the attempts left.
-- The loop of `acquire` is the sequence of its passes. Three loops have fuel: the batches of
-- `batch_texts` have one round for each item, which is enough for any size that is not 0; the rounds
-- of `recover_pending` are given, and one more than the number of pending messages is enough; the
-- reconnection rounds of `main` are given, and there is no number that is enough, since they go on
-- while they fail. An endless loop is modelled by its rounds.
--
-- Patterns. A pattern of `re` is matched by backtracking: a repetition tries its choices in the order
-- of `re`, and what follows the pattern is a function of the place behind it. `str.isalnum` is a
-- parameter, and the letters that IGNORECASE takes for one another are written out. The ratios and the
-- score of the quality gate are exact fractions, where the source has floats.
--
-- A null in a message's JSON is read where the crawler can write one, for the tags; the strings of its
-- struct are never null.
--
-- Not modelled. `str.lower`, `str.isalnum`, blake2b, SHA-256, JSON, dates, trafilatura and
-- langdetect are parameters. The threads of fetch_many, the way the connection pool is made, and the
-- reading of files are not modelled, nor are FastAPI's checks of a request and the static page. A
-- query of an export or of the dashboard is a parameter: the rows that it gives; of the article list
-- the SQL is built as the code does, and a database that answers that text as PostgreSQL documents
-- is a hypothesis. psycopg2's execute_values is one call of the services. A vector is a value of
-- some type, and how a float is printed is a parameter. The crawler is another program, in Go. Log
-- lines, printed progress and sleeps are left out.
pub mod Prelude
pub mod Bits
pub mod Outcome
pub mod Dedupe
pub mod Str
pub mod Config
pub mod Services
pub mod Neardup
pub mod Store
pub mod Pipeline
pub mod Fetcher
pub mod Chunker
pub mod Replay
pub mod RagSearch
pub mod Embedding
pub mod Action
pub mod Import
pub mod Monitor
pub mod Regex
pub mod Quality
pub mod RagExport
pub mod Probe
pub mod Backfill
pub mod SyncVectors
pub mod CorpusExport
pub mod Sql
pub mod Dashboard
pub mod SftExport
pub mod Tests
