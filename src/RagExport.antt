-- ===== src/RagExport.antt =====
-- py-processor/rag_export.py: the chunks of an article, and an export that goes on from a saved id.
-- The files are what a run appends and saves; the connection and the printed line are left out.
pub mod Resumed
pub mod Numbered
pub mod State
use webspider.Prelude.{
  ℕ, suc, max, Bool, true, false, List, [], ◌∷◌, ◌++◌, ◌+◌, Option, none, some, Text, codes, length,
  if◌then◌else◌,
}
use webspider.Outcome.{Outcome, ok, raise}
use webspider.Str.{decimal}
use webspider.Chunker.Sections.{Chunk, split_markdown}

-- A row of the query. `fields` stands for the columns that go to each line of the article alike, in
-- the form in which they are written: title, tags, source type, language, date and score.
pub record ArticleRow (J : Type 0) : Type 0 where
  pub id : ℕ
  pub url : Text
  pub content : Option Text
  pub fields : J

-- A line of the corpus.
pub record CorpusLine (J : Type 0) : Type 0 where
  pub chunk_id : Text
  pub article_id : ℕ
  pub url : Text
  pub heading_path : List Text
  pub chunk_index : ℕ
  pub n_chunks : ℕ
  pub text : Text
  pub fields : J

-- `content or ""`
unfoldable pub or_text : Option Text → Text
or_text none = []
or_text (some s) = s

-- How a query ends: the rows that its cursor gave, and whether it raised then.
pub record Cursor (J : Type 0) : Type 0 where
  pub rows : List (ArticleRow J)
  pub ended : Outcome (Unit {0})

-- What a run leaves: whether the file is written anew, the lines that go to it, and the id saved in
-- the state file.
pub record Export (J : Type 0) : Type 0 where
  pub anew : Bool
  pub lines : List (CorpusLine J)
  pub saved : Option ℕ
  pub ended : Outcome (Unit {0})

-- `_chunk_id(url, chunk_index)`
unfoldable pub chunk_id : (Text → Text) → Text → ℕ → Text
unfolding decimal
chunk_id url_hash url i = url_hash url ++ (codes "_" ++ decimal i)

-- The state is saved after an incremental run that did not raise.
unfoldable pub saved_of : Bool → Outcome (Unit {0}) → ℕ → Option ℕ
saved_of true ended last = none
saved_of false (ok t) last = some last
saved_of false (raise e) last = none

-- `url_hash` is `hashlib.sha256(url.encode()).hexdigest()[:16]`.
module _ {J : Type 0} (url_hash : Text → Text) (target overlap min_chars : ℕ) where
  -- The pieces from number `i` on, of `n`.
  unfoldable pub lines_of : ArticleRow J → ℕ → ℕ → List Chunk → List (CorpusLine J)
  unfolding chunk_id
  lines_of row n i [] = []
  lines_of row n i (piece ∷ pieces) =
      record {
        chunk_id = chunk_id url_hash row.url i;
        article_id = row.id;
        url = row.url;
        heading_path = piece.heading_path;
        chunk_index = i;
        n_chunks = n;
        text = piece.text;
        fields = row.fields;
      }
      ∷ lines_of row n (suc i) pieces

  -- `article_to_chunks(row, target, overlap, min_chars)`
  unfoldable pub article_to_chunks : ArticleRow J → List (CorpusLine J)
  unfolding lines_of split_markdown or_text
  article_to_chunks row =
      let pieces = split_markdown (or_text row.content) target overlap min_chars in
      lines_of row (length pieces) 0 pieces

  -- The loop over the rows: the lines, and the greatest id.
  unfoldable pub export_rows : ℕ → List (ArticleRow J) → List (CorpusLine J) × ℕ
  unfolding article_to_chunks
  export_rows max_id [] = ([], max_id)
  export_rows max_id (row ∷ rows) =
      let (lines, last) = export_rows (max max_id row.id) rows in
      (article_to_chunks row ++ lines, last)

  -- `export_chunks`, where `state` is what `load_state` returns and `newer` the query for the rows
  -- above an id.
  unfoldable pub export_chunks : Bool → ℕ → (ℕ → Cursor J) → Export J
  unfolding export_rows saved_of
  export_chunks full state newer =
      let last_id = if full then 0 else state in
      let cursor = newer last_id in
      let (lines, last) = export_rows last_id cursor.rows in
      record {
        anew = full;
        lines = lines;
        saved = saved_of full cursor.ended last;
        ended = cursor.ended;
      }
