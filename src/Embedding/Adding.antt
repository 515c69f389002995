-- ===== src/Embedding/Adding.antt =====
-- What the batches of a run of py-processor/embed_chunks.py add to its archive and failed ids.
use mathlib.Core.List.{append_assoc, append-nil}
use mathlib.Core.Path.{subst}
use mathlib.Core.Option.{some-injective}
use webspider.Prelude.{
  ℕ, zero, suc, ◌+◌, ◌≡◌, refl, sym, ap, ◌∙◌, arith, true, ◌||◌, Bool-cases, inl, inr, List, [],
  ◌∷◌, ◌++◌, map, Option, none, some, Text, length, length-append, drop, leb, ◌==◌, is_empty,
}
use webspider.Embedding.{
  Item, Reply, embeddings, request_exception, refused, malformed, Answer, vectors, exhausted,
  broken, after_reply, attempts_left, embed_batch_retry, Archive, Progress, zip_ids, save_if_due,
  add_vectors, take_answer, embed_all, Wait,
}
use webspider.Embedding.Batches.{IsCut, drop-append}
use webspider.Embedding.Parted.{Split, nothing, Split-append, Split-left, Split-right}
use webspider.Embedding.Order.{
  InAnyOrder, numbered, sort_by_index-InAnyOrder, numbered-Ascending, values-numbered,
}

abbrev pub id_of : Item → Text
id_of it = it.chunk_id

module _ {ℓ} (V : Type ℓ) where
  zip_ids_lem :
      (batch tail : List Item) (vs : List V) (a : Archive V)
      → length vs ≡ length batch
      → zip_ids V (batch ++ tail) vs a
        ≡ some (record { ids = a.ids ++ map id_of batch; vecs = a.vecs ++ vs })
  unfolding zip_ids
  zip_ids_lem [] tail [] a h = rw (append-nil a.ids, append-nil a.vecs)
  zip_ids_lem [] tail (v ∷ vs) a h = absurd (omega arith)
  zip_ids_lem (it ∷ batch) tail [] a h = absurd (omega arith)
  zip_ids_lem (it ∷ batch) tail (v ∷ vs) a h =
      zip_ids_lem batch tail vs
        (record { ids = a.ids ++ it.chunk_id ∷ []; vecs = a.vecs ++ v ∷ [] }) (omega arith)
      ∙ rw
          (append_assoc a.ids (it.chunk_id ∷ []) (map id_of batch), append_assoc a.vecs (v ∷ []) vs)

  length-ids : (batch : List Item) → length (map id_of batch) ≡ length batch
  length-ids [] = refl
  length-ids (it ∷ batch) = ap suc (length-ids batch)

  -- A save leaves the archive and the failed ids as they are.
  save_if_due-keeps :
      (save_every total : ℕ) (p : Progress V)
      → ((save_if_due V save_every total p).archive ≡ p.archive)
        × ((save_if_due V save_every total p).failed_ids ≡ p.failed_ids)
  unfolding save_if_due
  save_if_due-keeps save_every total p =
      elim (Bool-cases
        (leb (p.saved + save_every) (length p.archive.ids) || length p.archive.ids == total)) [
          | inl due ↦ rw due (refl, refl)
          | inr not_due ↦ rw not_due (refl, refl)
        ]

  map-append-id : (s t : List Item) → map id_of (s ++ t) ≡ map id_of s ++ map id_of t
  map-append-id [] t = refl
  map-append-id (it ∷ s) t = ap (λ (l : List Text). id_of it ∷ l) (map-append-id s t)

  pub is_empty_nil : (vs : List V) → is_empty vs ≡ true → vs ≡ []
  is_empty_nil [] e = refl
  is_empty_nil (v ∷ vs) e = cc

  -- `model` is the embedding of a text.
  module _ (model : Text → V) where
    abbrev pub vectors_of : List Item → List V
    vectors_of [] = []
    vectors_of (it ∷ items) = model it.text ∷ vectors_of items

    length-vectors_of : (items : List Item) → length (vectors_of items) ≡ length items
    length-vectors_of [] = refl
    length-vectors_of (it ∷ items) = ap suc (length-vectors_of items)

    vectors_of-append : (s t : List Item) → vectors_of (s ++ t) ≡ vectors_of s ++ vectors_of t
    vectors_of-append [] t = refl
    vectors_of-append (it ∷ s) t = ap (λ (l : List V). model it.text ∷ l) (vectors_of-append s t)

    -- Documented behaviour of the embedding service: a 200 carries, in any order, for each text of
    -- its request the embedding and the index of the text.
    abbrev pub Embeds : (ℕ → ℕ → Reply V) → ℕ → List (ℕ × List Item) → Type ℓ
    Embeds replies k [] = Unit
    Embeds replies k ((offset, batch) ∷ batches) =
        ((attempt : ℕ) (l : List (ℕ × V))
          → replies k attempt ≡ embeddings l
          → InAnyOrder V l (numbered V 0 (vectors_of batch)))
        × Embeds replies (suc k) batches

    -- An answer with vectors has those of the batch, in its order.
    abbrev Fits : List Item → Answer V → Type ℓ
    Fits batch (vectors vs) = vs ≡ vectors_of batch
    Fits batch exhausted = Unit
    Fits batch broken = Unit

    attempts_left-Fits :
        (replies : ℕ → Reply V) (n : ℕ) (batch : List Item) (attempt : ℕ)
        → ((a : ℕ) (l : List (ℕ × V))
            → replies a ≡ embeddings l
            → InAnyOrder V l (numbered V 0 (vectors_of batch)))
        → Fits batch (attempts_left V replies n attempt).0
    unfolding attempts_left
    attempts_left-Fits replies zero batch attempt each = tt
    attempts_left-Fits replies (suc n) batch attempt each =
        by_reply (replies attempt) refl (attempts_left V replies n (suc attempt))
          (attempts_left-Fits replies n batch (suc attempt) each)
      where
        by_reply :
            (r : Reply V)
            → replies attempt ≡ r
            → (rest : Answer V × List Wait) → Fits batch rest.0
            → Fits batch (after_reply V attempt r rest).0
        by_reply request_exception e (a, ws) ih = ih
        by_reply (embeddings l) e (a, ws) ih =
            ap (map (λ (d : ℕ × V). d.1)) (
              sort_by_index-InAnyOrder V l (numbered V 0 (vectors_of batch))
                (numbered-Ascending V 0 (vectors_of batch)) (each attempt l e))
            ∙ values-numbered V 0 (vectors_of batch)
        by_reply (refused status retry_after) e (a, ws) ih = ih
        by_reply malformed e (a, ws) ih = tt

    -- What some batches add: the ids and the vectors of items at the end of the archive, and the ids
    -- of others at the end of the failed ones.
    pub record Adds (p q : Progress V) (e f : List Item) : Type ℓ where
      pub ids : q.archive.ids ≡ p.archive.ids ++ map id_of e
      pub vecs : q.archive.vecs ≡ p.archive.vecs ++ vectors_of e
      pub failures : q.failed_ids ≡ p.failed_ids ++ map id_of f

    Adds-trans :
        {p q r : Progress V} {e f e' f' : List Item}
        → Adds p q e f
        → Adds q r e' f'
        → Adds p r (e ++ e') (f ++ f')
    Adds-trans {p} {q} {r} {e} {f} {e'} {f'} a b = record {
      ids =
          b.ids
          ∙ ap (λ (l : List Text). l ++ map id_of e') a.ids
          ∙ append_assoc p.archive.ids (map id_of e) (map id_of e')
          ∙ ap (λ (l : List Text). p.archive.ids ++ l) (sym (map-append-id e e'));
      vecs =
          b.vecs
          ∙ ap (λ (l : List V). l ++ vectors_of e') a.vecs
          ∙ append_assoc p.archive.vecs (vectors_of e) (vectors_of e')
          ∙ ap (λ (l : List V). p.archive.vecs ++ l) (sym (vectors_of-append e e'));
      failures =
          b.failures
          ∙ ap (λ (l : List Text). l ++ map id_of f') a.failures
          ∙ append_assoc p.failed_ids (map id_of f) (map id_of f')
          ∙ ap (λ (l : List Text). p.failed_ids ++ l) (sym (map-append-id f f'));
    }

    Adds-nothing : (p : Progress V) → Adds p p [] []
    Adds-nothing p = record {
      ids = sym (append-nil p.archive.ids);
      vecs = sym (append-nil p.archive.vecs);
      failures = sym (append-nil p.failed_ids);
    }

    -- The items of a list, each added in one of the two ways.
    pub record Done (p q : Progress V) (items : List Item) : Type ℓ where
      pub e : List Item
      pub f : List Item
      pub split : Split e f items
      pub adds : Adds p q e f

    take_answer-Done :
        (save_every total : ℕ) (batch tail : List Item) (p q : Progress V) (ans : Answer V)
        → Fits batch ans
        → take_answer V save_every total batch (batch ++ tail) p ans ≡ some q
        → Done p q batch
    unfolding take_answer add_vectors
    take_answer-Done save_every total batch tail p q (vectors vs) h e =
        let a : Archive V = record {
          ids = p.archive.ids ++ map id_of batch;
          vecs = p.archive.vecs ++ vs;
        } in
        let p' : Progress V = record p { archive = a } in
        let size : length vs ≡ length batch = ap length h ∙ length-vectors_of batch in
        let same : save_if_due V save_every total p' ≡ q =
          cc (zip_ids_lem batch tail vs p.archive size) in
        let (kept, kept_failed) = save_if_due-keeps save_every total p' in
        record {
          e = batch;
          f = [];
          split = Split-left batch;
          adds = record {
            ids =
                ap (λ (r : Progress V). r.archive.ids) (sym same)
                ∙ ap (λ (b : Archive V). b.ids) kept;
            vecs =
                ap (λ (r : Progress V). r.archive.vecs) (sym same)
                ∙ ap (λ (b : Archive V). b.vecs) kept
                ∙ ap (λ (l : List V). p.archive.vecs ++ l) h;
            failures =
                ap (λ (r : Progress V). r.failed_ids) (sym same)
                ∙ kept_failed
                ∙ sym (append-nil p.failed_ids);
          };
        }
    take_answer-Done save_every total batch tail p q exhausted h e =
        let same : record p { failed_ids = p.failed_ids ++ map id_of batch } ≡ q =
          some-injective _ _ e in
        record {
          e = [];
          f = batch;
          split = Split-right batch;
          adds = record {
            ids =
                ap (λ (r : Progress V). r.archive.ids) (sym same) ∙ sym (append-nil p.archive.ids);
            vecs =
                ap (λ (r : Progress V). r.archive.vecs) (sym same)
                ∙ sym (append-nil p.archive.vecs);
            failures = ap (λ (r : Progress V). r.failed_ids) (sym same);
          };
        }
    take_answer-Done save_every total batch tail p q broken h e = cc

    -- The loop over the batches adds each of the items that they are cut from.
    pub embed_all-Done :
        (replies : ℕ → ℕ → Reply V) (max_attempts save_every total size : ℕ)
        (todo pre rest : List Item) (k at : ℕ) (batches : List (ℕ × List Item)) (p q : Progress V)
        → todo ≡ pre ++ rest
        → length pre ≡ at
        → IsCut size at rest batches
        → Embeds replies k batches
        → embed_all V replies max_attempts save_every total todo k batches p ≡ some q
        → Done p q rest
    unfolding embed_all
    embed_all-Done replies max_attempts save_every total size todo pre rest k at [] p q whole here
          cut each e =
        let same = some-injective _ _ e in
        subst (λ (r : Progress V). Done p r rest) same
          (subst (λ (l : List Item). Done p p l) (sym cut)
            (record { e = []; f = []; split = nothing; adds = Adds-nothing p }))
    embed_all-Done replies max_attempts save_every total size todo pre rest k at
          ((offset, batch) ∷ batches) p q whole here (at_eq, _, _, tail, split, cut) each e =
        let ahead : drop offset todo ≡ batch ++ tail =
          ap (λ (n : ℕ). drop n todo) (at_eq ∙ sym here)
          ∙ ap (λ (l : List Item). drop (length pre) l) whole
          ∙ drop-append pre rest
          ∙ split in
        by_answer
          (take_answer V save_every total batch (drop offset todo) p
            (embed_batch_retry V (replies k) max_attempts).0)
          refl
          (λ p' e'.
            embed_all-Done replies max_attempts save_every total size todo (pre ++ batch) tail
              (suc k) (at + length batch) batches p' q
              (whole ∙ ap (λ (l : List Item). pre ++ l) split ∙ sym (append_assoc pre batch tail))
              (omega (arith, length-append pre batch)) cut each.1 e')
          e ahead
      where
        by_answer :
            (o : Option (Progress V))
            → take_answer V save_every total batch
                (drop offset todo)
                p
                (embed_batch_retry V (replies k) max_attempts).0
              ≡ o
            → ((p' : Progress V)
                → embed_all V replies max_attempts save_every total todo (suc k) batches p' ≡ some q
                → Done p' q tail)
            → (elim o [
              | none ↦ none
              | some p' ↦ embed_all V replies max_attempts save_every total todo (suc k) batches p'
            ])
              ≡ some q
            → drop offset todo ≡ batch ++ tail
            → Done p q rest
        by_answer none h ih e a = cc
        by_answer (some p') h ih e a =
            let first =
              take_answer-Done save_every total batch tail p p'
                (embed_batch_retry V (replies k) max_attempts).0
                (attempts_left-Fits (replies k) max_attempts batch 0 each.0)
                (ap
                    (λ (l : List Item).
                      take_answer V save_every total batch l p
                        (embed_batch_retry V (replies k) max_attempts).0)
                    (sym a)
                  ∙ h) in
            let later = ih p' e in
            subst (λ (l : List Item). Done p q l) (sym split)
              (record {
                e = first.e ++ later.e;
                f = first.f ++ later.f;
                split = Split-append first.split later.split;
                adds = Adds-trans first.adds later.adds;
              })
