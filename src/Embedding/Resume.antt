-- ===== src/Embedding/Resume.antt =====
-- What becomes of the chunks of a file in a run of py-processor/embed_chunks.py.
use mathlib.Core.Path.{subst}
use mathlib.Core.Option.{some-injective}
use webspider.Prelude.{
  ℕ, ◌<◌, ◌≡◌, ◌⊎◌, refl, sym, ap, ◌∙◌, Bool, true, false, inl, inr, List, [], ◌∷◌, ◌++◌, map,
  Option, none, some, Text, length, is_empty,
}
use webspider.Embedding.{
  Item, Reply, Archive, Progress, embed_all, not_embedded, start, finish, Finished, run,
  batch_texts, failed_file_of,
}
use webspider.Embedding.Batches.{batch_texts-IsCut}
use webspider.Embedding.Parted.{Parted, not_embedded-Parted}
use webspider.Embedding.Adding.{id_of, is_empty_nil, vectors_of, Embeds, Done, embed_all-Done}

module _ {ℓ} (V : Type ℓ) where
  module _ (model : Text → V) where
    -- What a run leaves: the items of the file are parted into those that were archived before, those
    -- that it embeds and those that have failed; the archive that it saves last has the stored ids
    -- and vectors and behind them the embedded ones, each id with the embedding of its text; and the
    -- failed ids are in the file of failures, but where there is no vector at all, when neither the
    -- meta file nor that file is written.
    pub record Ended (done : Archive V) (items : List Item) (f : Finished V) : Type ℓ where
      pub new : List Item
      pub lost : List Item
      pub parts : Parted done.ids new lost items
      pub saved_last :
          (before : List (Archive V)) × (f.progress.saves
            ≡ before
              ++ (record {
                ids = done.ids ++ map id_of new;
                vecs = done.vecs ++ vectors_of V model new;
              })
                ∷ [])
      pub listed :
          (f.failed_file ≡ failed_file_of (map id_of lost))
          ⊎ ((done.vecs ++ vectors_of V model new ≡ []) × (f.failed_file ≡ none))

    finish-Ended :
        (done : Archive V) (items : List Item) (p : Progress V)
        → Done V model (start V done) p (not_embedded done.ids items)
        → Ended done items (finish V p)
    unfolding start finish
    finish-Ended done items p made = by_test (is_empty p.archive.vecs) refl
      where
        archive_eq : p.archive ≡ record {
          ids = done.ids ++ map id_of made.e;
          vecs = done.vecs ++ vectors_of V model made.e;
        }
        archive_eq i = record { ids = made.adds.ids i; vecs = made.adds.vecs i }

        by_test : (b : Bool) → is_empty p.archive.vecs ≡ b → Ended done items (finish V p)
        by_test true e = rw e (record {
          new = made.e;
          lost = made.f;
          parts = not_embedded-Parted done.ids items made.e made.f made.split;
          saved_last = (p.saves, ap (λ a. p.saves ++ a ∷ []) archive_eq);
          listed = inr (sym made.adds.vecs ∙ is_empty_nil V p.archive.vecs e, refl);
        })
        by_test false e = rw e (record {
          new = made.e;
          lost = made.f;
          parts = not_embedded-Parted done.ids items made.e made.f made.split;
          saved_last = (p.saves, ap (λ a. p.saves ++ a ∷ []) archive_eq);
          listed = inl (ap failed_file_of made.adds.failures);
        })

    -- A run over any chunk file, from any stored archive, that ends without an exception in its loop
    -- loses no chunk: each is known already, or is archived with the embedding of its text, or has
    -- failed and is listed in the file of failures; that file is only missing where no vector is
    -- stored at all. Each reply of the service with embeddings carries those of the texts of its
    -- batch, in any order, and the batch size is not 0.
    pub run-Ended :
        (replies : ℕ → ℕ → Reply V) (max_attempts save_every size : ℕ) (done : Archive V)
        (items : List Item) (f : Finished V)
        → 0 < size
        → Embeds V model replies 0 (batch_texts (not_embedded done.ids items) size)
        → run V replies max_attempts save_every size done items ≡ some f
        → Ended done items f
    unfolding run
    run-Ended replies max_attempts save_every size done items f pos each e =
        by_end
          (embed_all V replies max_attempts save_every (length items) todo 0 (batch_texts todo size)
            (start V done))
          refl e
      where
        todo : List Item
        todo = not_embedded done.ids items

        by_end :
            (o : Option (Progress V))
            → embed_all V replies max_attempts save_every
                (length items)
                todo
                0
                (batch_texts todo size)
                (start V done)
              ≡ o
            → (elim o [ none ↦ none | some p ↦ some (finish V p) ]) ≡ some f
            → Ended done items f
        by_end none h e = cc
        by_end (some p) h e =
            let made =
              embed_all-Done V model replies max_attempts save_every (length items) size todo []
                todo 0 0 (batch_texts todo size) (start V done) p refl refl
                (batch_texts-IsCut todo size pos) each h in
            subst (λ (g : Finished V). Ended done items g) (some-injective _ _ e)
              (finish-Ended done items p made)
