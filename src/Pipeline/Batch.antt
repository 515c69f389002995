-- ===== src/Pipeline/Batch.antt =====
-- `process_batch` of py-processor/main.py, phase by phase.
pub mod Accounting
pub mod Kept
pub mod Acks
pub mod Writes
pub mod Retry
pub mod Loss
pub mod Failure
pub mod Untouched
use webspider.Prelude.{
  ℕ, zero, suc, ◌-◌, ◌==◌, ltb, Bool, true, false, List, [], ◌∷◌, ◌++◌, map, Option, none, some,
  Text, codes, text_eq, text_elem, elem, length, drop, if◌then◌else◌, is_empty,
}
use webspider.Outcome.{Outcome, ok, raise, attribute_error}
use webspider.Config.{Config}
use webspider.Dedupe.{Hashing}
use webspider.Services.{Services, Message, Row, Fetched, Command, incrby, hincrby, Call}
use webspider.Services.Run.{State, M, pure, lift, issue, ◌>>=◌, ◌>>◌}
use webspider.Neardup.{is_duplicate, index}
use webspider.Store.{insert_articles}
use webspider.Pipeline.{Article, Json, object, other, Libraries}
use webspider.Pipeline.Counts.{Counts, bump, total}
use webspider.Pipeline.DeadLetter.{get_or, push_dlq}

-- An article with its message id and the text to judge.
abbrev pub Item : Type 0
Item = Text × Article × Text

-- What the batch has gathered so far: `rows`, `stats` and `src_rej`.
pub record Gathered : Type 0 where
  pub rows : List Row
  pub stats : Counts
  pub src_rej : Counts

-- `if not raw: continue`, and the JSON value of the message where it has one.
unfoldable pub decode : Libraries → Option Text → Option Json
decode lib none = none
decode lib (some []) = none
decode lib (some (c ∷ raw)) = lib.loads (c ∷ raw)

abbrev pub cons_some {ℓ} : {A : Type ℓ} → Text → Option A → List (Text × A) → List (Text × A)
cons_some id none rest = rest
cons_some id (some a) rest = (id, a) ∷ rest

-- Phase 1.
unfoldable pub parse_messages : Libraries → List Message → List (Text × Json)
unfolding decode
parse_messages lib [] = []
parse_messages lib ((msg_id, raw) ∷ messages) =
    cons_some msg_id (decode lib raw) (parse_messages lib messages)

-- `if md`: the inline Markdown of an article that has some.
unfoldable pub inline_content : Article → Option Text
inline_content article = elim article.content_md [
  | none ↦ none
  | some md ↦ elim md [ [] ↦ none | c ∷ rest ↦ some (c ∷ rest) ]
]

pub record Routed : Type 0 where
  pub direct : List Item
  pub to_fetch : List (Text × Article)

unfoldable pub route_one : Text → Article → Option Text → Routed → Routed
route_one msg_id article none r = record r { to_fetch = (msg_id, article) ∷ r.to_fetch }
route_one msg_id article (some md) r = record r { direct = (msg_id, article, md) ∷ r.direct }

unfoldable pub add_route : Text → Article → Outcome Routed → Outcome Routed
unfolding route_one inline_content
add_route msg_id article (ok r) = ok (route_one msg_id article (inline_content article) r)
add_route msg_id article (raise e) = raise e

-- Phase 2, the split. A JSON value that is no object has no `get`.
unfoldable pub route : List (Text × Json) → Outcome Routed
unfolding add_route
route [] = ok (record { direct = []; to_fetch = [] })
route ((msg_id, other) ∷ parsed) = raise attribute_error
route ((msg_id, object article) ∷ parsed) = add_route msg_id article (route parsed)

unfoldable pub url_of : Text × Article → Text
url_of (_, article) = get_or [] article.url

unfoldable pub lookup : Text → List (Text × Text) → Option Text
lookup k [] = none
lookup k ((j, v) ∷ d) = if text_eq k j then some v else lookup k d

-- `extract_content(htmls.get(url))`, with an empty page and an empty extract as nothing.
unfoldable pub extract_content : Libraries → Option Text → Option Text
extract_content lib none = none
extract_content lib (some []) = none
extract_content lib (some (c ∷ html)) = elim (lib.extract (c ∷ html)) [
  | none ↦ none
  | some md ↦ elim md [ [] ↦ none | d ∷ rest ↦ some (d ∷ rest) ]
]

-- A rejection that is counted by reason and by source.
unfoldable pub reject : Text → Article → Gathered → Gathered
reject reason article g = record g {
  stats = bump reason g.stats;
  src_rej = bump (get_or (codes "?") article.source_type) g.src_rej;
}

-- A rejection that is counted by reason only.
unfoldable pub reject_quietly : Text → Gathered → Gathered
reject_quietly reason g = record g { stats = bump reason g.stats }

-- `deque(maxlen=10000)`: an append to a full deque drops the oldest entries.
abbrev pub seen_maxlen : ℕ
seen_maxlen = 10000

unfoldable pub remember : ℕ → List ℕ → List ℕ
remember chash seen = let longer = seen ++ chash ∷ [] in drop (length longer - seen_maxlen) longer

unfoldable pub make_row : Libraries → Article → Text → Text → ℕ → ℕ → Row
make_row lib article content lang chash score = record {
  url = get_or [] article.url;
  url_hash = lib.sha256_hex (get_or [] article.url);
  title = article.title;
  content = content;
  author = article.author;
  published_at = article.published_at;
  tags = get_or (some []) article.tags;
  source_type = get_or (codes "devto") article.source_type;
  language = lang;
  content_hash = chash;
  quality_score = score;
}

-- `strip_code(content) or content`
unfoldable pub probe_text : Libraries → Text → Text
probe_text lib content = elim (lib.strip_code content) [ [] ↦ content | c ∷ s ↦ c ∷ s ]

unfoldable pub detect_language : Libraries → Text → Text
unfolding probe_text
detect_language lib content = get_or (codes "unknown") (lib.detect (probe_text lib content))

unfoldable pub by_source : List Row → Counts → Counts
by_source [] d = d
by_source (row ∷ rows) d = by_source rows (bump row.source_type d)

unfoldable pub hincrby_all : Text → Counts → List Command
hincrby_all key [] = []
hincrby_all key ((field, cnt) ∷ d) = hincrby key field cnt ∷ hincrby_all key d

abbrev pub nothing : Gathered
nothing = record { rows = []; stats = []; src_rej = [] }

abbrev pub rejection_commands : Gathered → List Command
rejection_commands g =
    incrby (codes "metrics:articles:rejected") (total g.stats)
      ∷ hincrby_all (codes "metrics:articles:rejected_by_reason") g.stats
    ++ hincrby_all (codes "metrics:articles:rejected_by_source") g.src_rej

unfoldable pub msg_ids : List Message → List Text
msg_ids [] = []
msg_ids ((id, raw) ∷ messages) = id ∷ msg_ids messages

module _ (sv : Services) (hs : Hashing) (cfg : Config) (lib : Libraries) where
  unfoldable pub get_seen : M sv (List ℕ)
  unfolding pure
  get_seen s = pure s.seen s

  unfoldable pub append_seen : ℕ → M sv (Unit {0})
  unfolding remember pure
  append_seen chash s = pure tt (record s { seen = remember chash s.seen })

  -- Phase 2, the pages: one with no text is parked; `rest` goes on with the other articles.
  unfoldable pub keep_page :
      Text
      → Article
      → (Gathered → M sv (List Item × Gathered))
      → Gathered
      → Option Text
      → M sv (List Item × Gathered)
  unfolding reject
  keep_page msg_id article rest g none = do
    push_dlq sv cfg lib msg_id article (codes "extract_fail") (url_of (msg_id, article))
    rest (reject (codes "extract_fail") article g)
  keep_page msg_id article rest g (some content) = do
    (items, g') ← rest g
    pure ((msg_id, article, content) ∷ items, g')

  -- A page that is gone is counted, and not parked.
  unfoldable pub take_pages :
      Fetched → List (Text × Article) → Gathered → M sv (List Item × Gathered)
  unfolding url_of extract_content reject keep_page
  take_pages f [] g = pure ([], g)
  take_pages f ((msg_id, article) ∷ todo) g =
      let url = url_of (msg_id, article) in
      if text_elem url f.gone
      then take_pages f todo (reject (codes "not_found") article g)
      else keep_page msg_id article (take_pages f todo) g (extract_content lib (lookup url f.pages))

  -- The second duplicate test, against the deque, and the row of an article that passes it.
  unfoldable pub admit_unseen : Article → Text → Text → ℕ → Gathered → ℕ → M sv Gathered
  unfolding reject_quietly make_row append_seen get_seen
  admit_unseen article content lang score g chash = do
    seen ← get_seen
    if elem chash seen then pure (reject_quietly (codes "dup") g) else do
      append_seen chash
      pure (record g { rows = g.rows ++ make_row lib article content lang chash score ∷ [] })

  -- The first one, against the index.
  unfoldable pub admit : Article → Text → Text → ℕ → Gathered → M sv Gathered
  unfolding reject_quietly admit_unseen
  admit article content lang score g = do
    (dup, chash) ← is_duplicate sv hs cfg content
    if dup
        then pure (reject_quietly (codes "dup") g)
        else admit_unseen article content lang score g chash

  unfoldable pub screen : Item → Gathered → M sv Gathered
  unfolding admit reject reject_quietly detect_language
  screen (msg_id, article, content) g =
      let verdict = lib.assess content in
      let lang = detect_language lib content in
      if verdict.keep
      then (if text_elem lang cfg.lang_keep
          then admit article content lang verdict.quality_score g
          else pure (reject_quietly (codes "lang") g))
      else pure (reject verdict.reason article g)

  -- Phase 3.
  unfoldable pub screen_all : List Item → Gathered → M sv Gathered
  unfolding screen
  screen_all [] g = pure g
  screen_all (item ∷ items) g = do g' ← screen item g; screen_all items g'

  -- The pages of what was routed to the fetcher, then phase 3 over all the texts.
  unfoldable pub gather_routed : Routed → M sv Gathered
  unfolding take_pages screen_all url_of
  gather_routed r = do
    f ← issue (Call.fetch (map url_of r.to_fetch)) (sv.fetch (map url_of r.to_fetch))
    (fetched, g) ← take_pages f r.to_fetch nothing
    screen_all (r.direct ++ fetched) g

  -- Phases 1 to 3.
  unfoldable pub gather : List Message → M sv Gathered
  unfolding parse_messages route gather_routed
  gather messages = do r ← lift (route (parse_messages lib messages)); gather_routed r

  unfoldable pub count_stored : ℕ → List Row → M sv (Unit {0})
  unfolding by_source hincrby_all
  count_stored stored rows = if stored == 0 then pure tt else do
    issue (Call.incr (codes "metrics:articles:stored") stored)
        (sv.incr (codes "metrics:articles:stored") stored)
    let cs = hincrby_all (codes "metrics:articles:stored_by_source") (by_source rows [])
    issue (Call.execute cs) (sv.execute cs)

  unfoldable pub index_rows : List Row → M sv (Unit {0})
  index_rows [] = pure tt
  index_rows (row ∷ rows) = do index sv hs cfg row.content_hash; index_rows rows

  -- `if rows`: the INSERT first, the fingerprints after it.
  unfoldable pub store_rows : List Row → M sv (Unit {0})
  unfolding count_stored index_rows
  store_rows [] = pure tt
  store_rows (row ∷ rows) = do
    stored ← insert_articles sv (row ∷ rows)
    count_stored stored (row ∷ rows)
    index_rows (row ∷ rows)

  unfoldable pub count_rejected : Gathered → M sv (Unit {0})
  unfolding hincrby_all total
  count_rejected g =
      if is_empty g.stats
      then pure tt
      else issue (Call.execute (rejection_commands g)) (sv.execute (rejection_commands g))

  unfoldable pub settle : List Message → M sv (Unit {0})
  unfolding gather store_rows count_rejected
  settle messages = do g ← gather messages; store_rows g.rows; count_rejected g

  -- `if ids_to_ack`
  unfoldable pub ack : List Text → M sv (Unit {0})
  ack [] = pure tt
  ack (id ∷ ids) = issue (Call.xack (id ∷ ids)) (sv.xack (id ∷ ids))

  -- `none` is a response that holds nothing.
  unfoldable pub process_batch : Option (List Message) → M sv (Unit {0})
  unfolding settle ack msg_ids
  process_batch none = pure tt
  process_batch (some messages) = do settle messages; ack (msg_ids messages)
