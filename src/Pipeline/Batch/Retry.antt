-- ===== src/Pipeline/Batch/Retry.antt =====
-- A batch that is run again after its INSERT failed: the deque of seen fingerprints still holds
-- those of the rows that were not stored.
use mathlib.Core.Path.{subst}
use webspider.Prelude.{
  ℕ, zero, suc, ◌≤◌, ◌≡◌, ◌⊎◌, refl, sym, ap, ◌∙◌, arith, Bool, true, false, List, [], ◌∷◌, ◌++◌,
  Option, some, Text, elem, length, length-append, drop, text_elem, Bool-cases, inl, inr,
}
use webspider.Outcome.{ok, ok-injective}
use webspider.Config.{Config}
use webspider.Dedupe.{Hashing, simhash, bucket_keys}
use webspider.Services.{Services, Message, Row, Call}
use webspider.Services.Run.{State, pure, lift, issue, ◌>>=◌, ◌>>◌}
use webspider.Services.Seen.{KeepsSeen, KeepsSeen-pure, KeepsSeen-then, seen-bind, seen_rules}
use webspider.Services.Invert.{bind-eq-ok}
use webspider.Store.{insert_articles}
use webspider.Neardup.{probe, is_duplicate, index}
use webspider.Pipeline.{Article, object, Libraries}
use webspider.Pipeline.Batch.{
  Item, Gathered, detect_language, remember, admit_unseen, admit, screen, screen_all, route,
  parse_messages, gather_routed, gather, count_stored, index_rows, store_rows, count_rejected,
  settle, ack, msg_ids, process_batch, nothing, decode, inline_content,
}

elem-append : (x : ℕ) (xs : List ℕ) → elem x (xs ++ x ∷ []) ≡ true
unfolding elem
elem-append x [] = ground arith
elem-append x (y ∷ xs) = ground (arith, elem-append x xs)

elem-drop-append : (k x : ℕ) (xs : List ℕ) → k ≤ length xs → elem x (drop k (xs ++ x ∷ [])) ≡ true
elem-drop-append zero x xs h = elem-append x xs
elem-drop-append (suc k) x [] h = absurd (omega arith)
elem-drop-append (suc k) x (y ∷ xs) h = elem-drop-append k x xs (omega arith)

-- The deque holds what was appended last, also when it is full.
elem-remember : (h : ℕ) (seen : List ℕ) → elem h (remember h seen) ≡ true
unfolding remember
elem-remember h seen = elem-drop-append _ h seen (omega (arith, length-append seen (h ∷ [])))

-- From the deque `before` to the deque `after`: no row is added, or the fingerprint was not in the
-- deque and is now.
abbrev pub Remembers : ℕ → List ℕ → List ℕ → Gathered → Gathered → Type 0
Remembers h before after g g' =
    (g'.rows ≡ g.rows) ⊎ ((elem h before ≡ false) × (elem h after ≡ true))

Remembers-eq :
    {h h' : ℕ} {before before' after after' : List ℕ} (g g' : Gathered)
    → h ≡ h'
    → before ≡ before'
    → after ≡ after'
    → Remembers h before after g g'
    → Remembers h' before' after' g g'
Remembers-eq g g' e e' e'' r = rw (← e, ← e', ← e'') r

rows_of : {g g' : Gathered} → ok g ≡ ok g' → g'.rows ≡ g.rows
rows_of e = sym (ap (λ (x : Gathered). x.rows) (ok-injective e))

module _ (sv : Services) (hs : Hashing) (cfg : Config) (lib : Libraries) where
  probe-KeepsSeen : (h i : ℕ) (bvs : List ℕ) → KeepsSeen (probe sv hs cfg h i bvs)
  unfolding probe
  probe-KeepsSeen h i [] = KeepsSeen-pure false
  probe-KeepsSeen h i (bv ∷ bvs) =
      let ih = probe-KeepsSeen h (suc i) bvs in search seen_rules depth 7

  is_duplicate-KeepsSeen : (text : Text) → KeepsSeen (is_duplicate sv hs cfg text)
  unfolding is_duplicate
  is_duplicate-KeepsSeen text = search (seen_rules, probe-KeepsSeen) depth 7

  -- What `is_duplicate` returns beside its answer is the fingerprint of the text.
  is_duplicate-hash :
      (text : Text) (s : State sv) (d : Bool) (h : ℕ)
      → (is_duplicate sv hs cfg text s).result ≡ ok (d, h)
      → h ≡ simhash hs text cfg.simhash_bits
  unfolding is_duplicate lift pure
  is_duplicate-hash text s d h r =
      let c = simhash hs text cfg.simhash_bits in
      let (keys, k) = bind-eq-ok (lift (bucket_keys c cfg.simhash_bits cfg.simhash_bands)) _ s r in
      let (dup, k') = bind-eq-ok (probe sv hs cfg c 0 keys) _ s (sym k.result ∙ r) in
      sym (ap (λ (a : Bool × ℕ). a.1) (ok-injective (sym k'.result ∙ sym k.result ∙ r)))

  admit_unseen-seen :
      (a : Article) (content lang : Text) (score : ℕ) (g g' : Gathered) (h : ℕ) (s : State sv)
      → (admit_unseen sv hs cfg lib a content lang score g h s).result ≡ ok g'
      → Remembers h s.seen (admit_unseen sv hs cfg lib a content lang score g h s).state.seen g g'
  unfolding admit_unseen ◌>>=◌ ◌>>◌ pure
  admit_unseen-seen a content lang score g g' h s r = elim (Bool-cases (elem h s.seen)) [
    | inl old ↦ inl (rows_of (rw old at r))
    | inr new ↦ inr (new, rw new (elem-remember h s.seen))
  ]

  admit-seen :
      (a : Article) (content lang : Text) (score : ℕ) (g g' : Gathered) (s : State sv)
      → (admit sv hs cfg lib a content lang score g s).result ≡ ok g'
      → Remembers
          (simhash hs content cfg.simhash_bits)
          s.seen
          (admit sv hs cfg lib a content lang score g s).state.seen
          g
          g'
  unfolding admit
  admit-seen a content lang score g g' s r =
      let (p, k) = bind-eq-ok (is_duplicate sv hs cfg content) _ s r in
      let t = (is_duplicate sv hs cfg content s).state in
      elim (Bool-cases p.0) [
        | inl dup ↦ inl (rows_of (sym (rw dup at k.result) ∙ r))
        | inr new ↦
            Remembers-eq g g' (is_duplicate-hash content s p.0 p.1 k.first)
              ((is_duplicate-KeepsSeen content).at s)
              (ap (λ (x : State sv). x.seen) (sym (rw new at k.state)))
              (admit_unseen-seen a content lang score g g' p.1 t (sym (rw new at k.result) ∙ r))
      ]

  screen-seen :
      (id : Text) (a : Article) (content : Text) (g g' : Gathered) (s : State sv)
      → (screen sv hs cfg lib (id, a, content) g s).result ≡ ok g'
      → Remembers
          (simhash hs content cfg.simhash_bits)
          s.seen
          (screen sv hs cfg lib (id, a, content) g s).state.seen
          g
          g'
  unfolding screen pure
  screen-seen id a content g g' s r = elim (Bool-cases (lib.assess content).keep) [
    | inr out ↦ inl (rows_of (rw out at r))
    | inl kept ↦ elim (Bool-cases (text_elem (detect_language lib content) cfg.lang_keep)) [
      | inr other ↦ inl (rows_of (rw (kept, other) at r))
      | inl good ↦ rw (kept, good) (admit-seen a content _ _ g g' s (rw (kept, good) at r))
    ]
  ]

  gather_routed-seen :
      (id : Text) (a : Article) (content : Text) (g : Gathered) (s : State sv)
      → (gather_routed sv hs cfg lib
          (record { direct = (id, a, content) ∷ []; to_fetch = [] })
          s).result
        ≡ ok g
      → Remembers
          (simhash hs content cfg.simhash_bits)
          s.seen
          (gather_routed sv hs cfg lib
            (record { direct = (id, a, content) ∷ []; to_fetch = [] })
            s).state.seen
          nothing
          g
  unfolding gather_routed pure issue ◌>>=◌
  gather_routed-seen id a content g s r =
      let (f, k) = bind-eq-ok (issue (Call.fetch []) (sv.fetch [])) _ s r in
      let t = record s { world = (sv.fetch [] s.world).1 } in
      let item : Item = (id, a, content) in
      let (g', k') =
        bind-eq-ok (screen sv hs cfg lib item nothing) (screen_all sv hs cfg lib []) t
          (sym k.result ∙ r) in
      subst (Remembers _ s.seen _ nothing) (ok-injective (sym k'.result ∙ sym k.result ∙ r)) (
        Remembers-eq nothing g' refl refl (ap (λ (x : State sv). x.seen) (sym (k.state ∙ k'.state)))
          (screen-seen id a content nothing g' t k'.first))

  route-direct :
      (id : Text) (raw : Option Text) (a : Article) (content : Text)
      → decode lib raw ≡ some (object a)
      → inline_content a ≡ some content
      → route (parse_messages lib ((id, raw) ∷ []))
        ≡ ok (record { direct = (id, a, content) ∷ []; to_fetch = [] })
  unfolding route parse_messages
  route-direct id raw a content e e' = ground arith

  pub gather-seen :
      (id : Text) (raw : Option Text) (a : Article) (content : Text) (g : Gathered) (s : State sv)
      → decode lib raw ≡ some (object a)
      → inline_content a ≡ some content
      → (gather sv hs cfg lib ((id, raw) ∷ []) s).result ≡ ok g
      → Remembers
          (simhash hs content cfg.simhash_bits)
          s.seen
          (gather sv hs cfg lib ((id, raw) ∷ []) s).state.seen
          nothing
          g
  unfolding gather lift
  gather-seen id raw a content g s e e' r =
      let parsed = route-direct id raw a content e e' in
      let (x, k) = bind-eq-ok (lift (route (parse_messages lib ((id, raw) ∷ [])))) _ s r in
      let same = ok-injective (sym k.first ∙ parsed) in
      Remembers-eq nothing g refl refl
        (ap (λ (x : State sv). x.seen)
          (sym (k.state ∙ ap (λ x'. (gather_routed sv hs cfg lib x' s).state) same)))
        (gather_routed-seen id a content g s
          (sym (k.result ∙ ap (λ x'. (gather_routed sv hs cfg lib x' s).result) same) ∙ r))

  insert_articles-KeepsSeen : (rows : List Row) → KeepsSeen (insert_articles sv rows)
  unfolding insert_articles
  insert_articles-KeepsSeen [] = KeepsSeen-pure 0
  insert_articles-KeepsSeen (r ∷ rows) = search seen_rules depth 7

  index_rows-KeepsSeen : (rows : List Row) → KeepsSeen (index_rows sv hs cfg lib rows)
  unfolding index_rows index
  index_rows-KeepsSeen [] = KeepsSeen-pure tt
  index_rows-KeepsSeen (r ∷ rows) = let ih = index_rows-KeepsSeen rows in search seen_rules depth 7

  store_rows-KeepsSeen : (rows : List Row) → KeepsSeen (store_rows sv hs cfg lib rows)
  unfolding store_rows count_stored
  store_rows-KeepsSeen [] = KeepsSeen-pure tt
  store_rows-KeepsSeen (r ∷ rows) =
      search (seen_rules, insert_articles-KeepsSeen, index_rows-KeepsSeen) depth 9

  count_rejected-KeepsSeen : (g : Gathered) → KeepsSeen (count_rejected sv hs cfg lib g)
  unfolding count_rejected
  count_rejected-KeepsSeen g = search seen_rules

  ack-KeepsSeen : (ids : List Text) → KeepsSeen (ack sv hs cfg lib ids)
  unfolding ack
  ack-KeepsSeen [] = KeepsSeen-pure tt
  ack-KeepsSeen (id ∷ ids) = search seen_rules

  -- Nothing after phases 1 to 3 touches the deque, whether it returns or raises.
  pub process_batch-seen :
      (b : List Message) (s : State sv)
      → (process_batch sv hs cfg lib (some b) s).state.seen ≡ (gather sv hs cfg lib b s).state.seen
  unfolding process_batch settle ◌>>◌
  process_batch-seen b s =
      seen-bind (settle sv hs cfg lib b) (λ _. ack sv hs cfg lib (msg_ids b)) s
        (λ _. ack-KeepsSeen (msg_ids b))
      ∙ seen-bind (gather sv hs cfg lib b) _ s (λ g.
        KeepsSeen-then (store_rows sv hs cfg lib g.rows) (count_rejected sv hs cfg lib g)
          (store_rows-KeepsSeen g.rows) (count_rejected-KeepsSeen g))
