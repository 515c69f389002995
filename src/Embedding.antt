-- ===== src/Embedding.antt =====
-- py-processor/embed_chunks.py: the batches of chunks, the retries of one request, and the run that
-- resumes from the vectors already stored. A vector is a value of some type; files are what `run`
-- writes, in order, and the embedding service is the replies that it gives.
pub mod Batches
pub mod Order
pub mod Parted
pub mod Adding
pub mod Resume
use webspider.Prelude.{
  ℕ, zero, suc, ◌+◌, ◌-◌, ◌<◌, max, Bool, true, false, ◌||◌, ◌&&◌, not, List, [], ◌∷◌, ◌++◌, map,
  Option, none, some, Text, text_elem, length, take, drop, leb, ltb, ◌==◌, if◌then◌else◌, is_empty,
}

-- A line of the chunk file, as far as it is read.
pub record Item : Type 0 where
  pub chunk_id : Text
  pub text : Text

-- The loop of `batch_texts`: `fuel` rounds are left.
unfoldable pub batches_from {ℓ} : {A : Type ℓ} → ℕ → ℕ → ℕ → List A → List (ℕ × List A)
batches_from zero size offset items = []
batches_from (suc fuel) size offset [] = []
batches_from (suc fuel) size offset (x ∷ items) =
    (offset, take size (x ∷ items)) ∷ batches_from fuel size (offset + size) (drop size (x ∷ items))

-- `batch_texts`: a batch with its offset, and the items whose texts it carries.
unfoldable pub batch_texts {ℓ} : {A : Type ℓ} → List A → ℕ → List (ℕ × List A)
unfolding batches_from
batch_texts items size = batches_from (length items) size 0 items

-- A sleep before the next attempt: the Retry-After seconds, or the jittered backoff.
pub data Wait : Type 0 where
  seconds : ℕ → Wait
  backoff : ℕ → Wait

unfoldable pub wait_after : ℕ → Option ℕ → Wait
wait_after attempt none = backoff attempt
wait_after attempt (some s) = seconds s

-- `[it for it in items if it["chunk_id"] not in seen]`
unfoldable pub not_embedded : List Text → List Item → List Item
not_embedded seen [] = []
not_embedded seen (it ∷ items) =
    if text_elem it.chunk_id seen then not_embedded seen items else it ∷ not_embedded seen items

unfoldable pub failed_file_of : List Text → Option (List Text)
failed_file_of [] = none
failed_file_of (i ∷ l) = some (i ∷ l)

module _ {ℓ} (V : Type ℓ) where
  -- What a POST does: it raises a RequestException, or it returns embeddings with their `index`, or
  -- a status that is not 200 with the seconds of its Retry-After header, or a body without them.
  pub data Reply : Type ℓ where
    request_exception : Reply
    embeddings : List (ℕ × V) → Reply
    refused : ℕ → Option ℕ → Reply
    malformed : Reply

  -- What `embed_batch_retry` does: it returns, it raises its RuntimeError, or another exception
  -- comes through.
  pub data Answer : Type ℓ where
    vectors : List V → Answer
    exhausted : Answer
    broken : Answer

  -- `data.sort(key=lambda d: d["index"])`
  unfoldable pub insert_sorted : ℕ × V → List (ℕ × V) → List (ℕ × V)
  insert_sorted (i, v) [] = (i, v) ∷ []
  insert_sorted (i, v) ((j, w) ∷ l) =
      if leb i j then (i, v) ∷ ((j, w) ∷ l) else (j, w) ∷ insert_sorted (i, v) l

  unfoldable pub sort_by_index : List (ℕ × V) → List (ℕ × V)
  unfolding insert_sorted
  sort_by_index [] = []
  sort_by_index (d ∷ l) = insert_sorted d (sort_by_index l)

  unfoldable pub then_wait : Wait → Answer × List Wait → Answer × List Wait
  then_wait w (a, ws) = (a, w ∷ ws)

  unfoldable pub after_reply : ℕ → Reply → Answer × List Wait → Answer × List Wait
  unfolding sort_by_index then_wait wait_after
  after_reply attempt request_exception rest = then_wait (backoff attempt) rest
  after_reply attempt (embeddings l) rest = (vectors (map (λ d. d.1) (sort_by_index l)), [])
  after_reply attempt (refused status retry_after) rest =
      then_wait (wait_after attempt retry_after) rest
  after_reply attempt malformed rest = (broken, [])

  -- The loop over the attempts, `n` of them left.
  unfoldable pub attempts_left : (ℕ → Reply) → ℕ → ℕ → Answer × List Wait
  unfolding after_reply
  attempts_left replies zero attempt = (exhausted, [])
  attempts_left replies (suc n) attempt =
      after_reply attempt (replies attempt) (attempts_left replies n (suc attempt))

  unfoldable pub embed_batch_retry : (ℕ → Reply) → ℕ → Answer × List Wait
  unfolding attempts_left
  embed_batch_retry replies max_attempts = attempts_left replies max_attempts 0

  -- The archive: ids and vectors.
  pub record Archive : Type ℓ where
    pub ids : List Text
    pub vecs : List V

  -- What is on its way: the archive to be saved next, the ids that failed, the number of ids in the
  -- last save, and the archives saved so far.
  pub record Progress : Type ℓ where
    pub archive : Archive
    pub failed_ids : List Text
    pub saved : ℕ
    pub saves : List Archive

  -- The ids and vectors that a batch adds; `none` is the IndexError of an answer with more vectors
  -- than the rest of `todo` has items.
  unfoldable pub zip_ids : List Item → List V → Archive → Option Archive
  zip_ids items [] a = some a
  zip_ids [] (v ∷ vs) a = none
  zip_ids (it ∷ items) (v ∷ vs) a =
      zip_ids items vs (record { ids = a.ids ++ it.chunk_id ∷ []; vecs = a.vecs ++ v ∷ [] })

  -- `if len(ids) - len(done_ids) >= SAVE_EVERY or len(ids) == len(items)`
  unfoldable pub save_if_due : ℕ → ℕ → Progress → Progress
  save_if_due save_every total p =
      let n = length p.archive.ids in
      if leb (p.saved + save_every) n || n == total
      then record p { saved = n; saves = p.saves ++ p.archive ∷ [] }
      else p

  unfoldable pub add_vectors : ℕ → ℕ → Progress → Option Archive → Option Progress
  unfolding save_if_due
  add_vectors save_every total p none = none
  add_vectors save_every total p (some a) =
      some (save_if_due save_every total (record p { archive = a }))

  -- One batch; `rest` is the part of `todo` from its offset on.
  unfoldable pub take_answer : ℕ → ℕ → List Item → List Item → Progress → Answer → Option Progress
  unfolding add_vectors zip_ids
  take_answer save_every total batch rest p (vectors vs) =
      add_vectors save_every total p (zip_ids rest vs p.archive)
  take_answer save_every total batch rest p exhausted =
      some (record p { failed_ids = p.failed_ids ++ map (λ (it : Item). it.chunk_id) batch })
  take_answer save_every total batch rest p broken = none

  -- The loop over the batches; `replies k` are those to the requests of batch `k`. `none` is an
  -- exception that ends the run.
  unfoldable pub embed_all :
      (ℕ → ℕ → Reply)
      → ℕ
      → ℕ
      → ℕ
      → List Item
      → ℕ
      → List (ℕ × List Item)
      → Progress
      → Option Progress
  unfolding embed_batch_retry take_answer
  embed_all replies max_attempts save_every total todo k [] p = some p
  embed_all replies max_attempts save_every total todo k ((offset, batch) ∷ batches) p =
      elim (take_answer save_every total batch (drop offset todo) p
        (embed_batch_retry (replies k) max_attempts).0) [
          | none ↦ none
          | some p' ↦ embed_all replies max_attempts save_every total todo (suc k) batches p'
        ]

  -- The end of `run`: the last save, then the meta file, which needs the width of a first vector;
  -- without one its IndexError leaves the failed ids unwritten.
  pub record Finished : Type ℓ where
    pub progress : Progress
    pub meta_count : Option ℕ
    pub failed_file : Option (List Text)

  unfoldable pub finish : Progress → Finished
  unfolding failed_file_of
  finish p =
      let p' = record p { saves = p.saves ++ p.archive ∷ [] } in
      if is_empty p.archive.vecs
      then record { progress = p'; meta_count = none; failed_file = none }
      else record {
        progress = p';
        meta_count = some (length p.archive.vecs);
        failed_file = failed_file_of p.failed_ids;
      }

  unfoldable pub start : Archive → Progress
  start a = record { archive = a; failed_ids = []; saved = length a.ids; saves = [] }

  unfoldable pub run : (ℕ → ℕ → Reply) → ℕ → ℕ → ℕ → Archive → List Item → Option Finished
  unfolding embed_all not_embedded finish start batch_texts
  run replies max_attempts save_every batch_size done items =
      let todo = not_embedded done.ids items in
      elim (embed_all replies max_attempts save_every (length items) todo 0
        (batch_texts todo batch_size) (start done)) [ none ↦ none | some p ↦ some (finish p) ]
