-- ===== src/Tests/Embeddings.antt =====
-- A run of the embedding script at a concrete chunk file.
use webspider.Prelude.{
  ℕ, zero, suc, text_elem, text_eq, Text, if◌then◌else◌, ◌≡◌, refl, arith, List, [], ◌∷◌, some,
  none, codes,
}
use webspider.Embedding.{
  Item, Reply, embeddings, refused, request_exception, Archive, Finished, batch_texts, not_embedded,
  run,
}
use mathlib.Core.Path.{subst}
use webspider.Embedding.Order.{InAnyOrder, one_of}
use webspider.Embedding.Adding.{Embeds}
use webspider.Embedding.Resume.{Ended, run-Ended}

abbrev items : List Item
items =
    record { chunk_id = codes "a"; text = codes "x" }
    ∷ record { chunk_id = codes "b"; text = codes "y" }
    ∷ record { chunk_id = codes "c"; text = codes "z" }
    ∷ record { chunk_id = codes "d"; text = codes "w" }
    ∷ []

-- The first batch is refused once and then answered out of order; the second one never is.
unfoldable replies : ℕ → ℕ → Reply ℕ
replies zero zero = refused 429 none
replies zero (suc attempt) = embeddings ((1, 12) ∷ (0, 11) ∷ [])
replies (suc k) attempt = request_exception

abbrev stored : Archive ℕ
stored = record { ids = codes "a" ∷ []; vecs = 10 ∷ [] }

abbrev ended : Finished ℕ
ended = record {
  progress = record {
    archive = record { ids = codes "a" ∷ codes "b" ∷ codes "c" ∷ []; vecs = 10 ∷ 11 ∷ 12 ∷ [] };
    failed_ids = codes "d" ∷ [];
    saved = 1;
    saves = record { ids = codes "a" ∷ codes "b" ∷ codes "c" ∷ []; vecs = 10 ∷ 11 ∷ 12 ∷ [] } ∷ [];
  };
  meta_count = some 3;
  failed_file = some (codes "d" ∷ []);
}

run_ends : run ℕ replies 2 100 2 stored items ≡ some ended
unfolding run text_elem replies
run_ends = refl

-- The embedding of a text.
unfoldable model : Text → ℕ
unfolding text_eq
model t = if text_eq t (codes "y") then 11 else if text_eq t (codes "z") then 12 else 0

embeds : Embeds ℕ model replies 0 (batch_texts (not_embedded stored.ids items) 2)
unfolding replies batch_texts not_embedded text_elem model text_eq
embeds = (first, ((λ attempt l e. cc), tt))
  where
    first :
        (attempt : ℕ) (l : List (ℕ × ℕ))
        → replies 0 attempt ≡ embeddings l
        → InAnyOrder ℕ l ((0, 11) ∷ (1, 12) ∷ [])
    first zero l e = cc
    first (suc attempt) l e =
        let same : (1, 12) ∷ (0, 11) ∷ [] ≡ l = cc in
        subst (λ (m : List (ℕ × ℕ)). InAnyOrder ℕ m ((0, 11) ∷ (1, 12) ∷ [])) same
          (one_of ((0, 11) ∷ []) [] (1, 12) (one_of [] [] (0, 11) InAnyOrder.empty))

run-Ended_example : Ended ℕ model stored items ended
run-Ended_example =
    run-Ended ℕ model replies 2 100 2 stored items ended (omega arith) embeds run_ends
