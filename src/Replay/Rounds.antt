-- ===== src/Replay/Rounds.antt =====
-- What a round of the replay issues, and what it counts.
use webspider.Prelude.{
  ℕ, suc, ◌+◌, ◌≡◌, refl, sym, ap, ◌∙◌, arith, Bool, true, false, List, [], ◌∷◌, ◌++◌, Option, none,
  some, Text, codes, length, All,
}
use webspider.Outcome.{Outcome, ok, raise, ok-injective}
use webspider.Config.{Config}
use webspider.Services.{Services, Call}
use webspider.Services.Run.{State, M, pure, lift, issue, continue, ◌>>=◌, ◌>>◌}
use webspider.Services.Invert.{bind-eq-ok}
use webspider.Services.Emits.{Emits, Emits-pure, emits_rules}
use mathlib.Core.List.{append-nil}
use webspider.Pipeline.{Libraries}
use webspider.Replay.{
  Entry, article_of, entry_url, add_again, drop_entry, replay_entry, skip_entry, with_article,
  replay_entries, replay_round,
}

-- The calls for the entries that have an article, in order: each is added again and, where the
-- entries are to be deleted, deleted right after.
unfoldable pub deletion : Config → Bool → Text → List Call
deletion cfg false msg_id = []
deletion cfg true msg_id = Call.xdel cfg.dlq_stream msg_id ∷ []

module _ (cfg : Config) (delete : Bool) where
  unfoldable pub entry_calls : Text → Option Text → List Call
  entry_calls msg_id none = []
  entry_calls msg_id (some article) =
      Call.xadd cfg.stream ((codes "article", article) ∷ []) ∷ deletion cfg delete msg_id

  unfoldable pub replay_calls : List Entry → List Call
  replay_calls [] = []
  replay_calls ((msg_id, fields) ∷ entries) =
      entry_calls msg_id (article_of fields) ++ replay_calls entries

nil_of_none : {A : Type 0} (l : List A) → All (λ (_ : A). ⊥) l → l ≡ []
nil_of_none [] h = refl
nil_of_none (x ∷ l) h = absurd h.0

module _ (sv : Services) (cfg : Config) (lib : Libraries) where
  -- A loop that returned issued the given calls and counted the given number of entries.
  record Replays (calls : List Call) (n : ℕ) (m : M sv (ℕ × ℕ)) : Type 0 where
    at : (s : State sv) (c : ℕ × ℕ) → (m s).result ≡ ok c → ((m s).calls ≡ calls) × (c.0 + c.1 ≡ n)

  drop_entry-calls :
      (delete : Bool) (msg_id : Text) (s : State sv)
      → (drop_entry sv cfg lib delete msg_id s).calls ≡ deletion cfg delete msg_id
  unfolding drop_entry deletion pure issue
  drop_entry-calls false msg_id s = refl
  drop_entry-calls true msg_id s = refl

  skip_entry-Replays :
      (calls : List Call) (n : ℕ) (rest : M sv (ℕ × ℕ))
      → Replays calls n rest
      → Replays calls (suc n) (skip_entry sv cfg lib rest)
  unfolding skip_entry pure
  skip_entry-Replays calls n rest ih = record {
    at = λ s c r.
        let (d, k) = bind-eq-ok rest (λ (x : ℕ × ℕ). pure (x.0, suc x.1)) s r in
        let (same, count) = ih.at s d k.first in
        let kept = ok-injective (sym k.result ∙ r) in
        (
          k.calls ∙ append-nil (rest s).calls ∙ same,
          ap (λ (x : ℕ × ℕ). x.0 + x.1) (sym kept) ∙ omega (arith, count),
        );
  }

  replay_entry-Replays :
      (delete : Bool) (msg_id article : Text) (calls : List Call) (n : ℕ) (rest : M sv (ℕ × ℕ))
      → Replays calls n rest
      → Replays
          (entry_calls cfg delete msg_id (some article) ++ calls)
          (suc n)
          (replay_entry sv cfg lib delete false msg_id article rest)
  unfolding replay_entry entry_calls add_again ◌>>◌ issue pure
  replay_entry-Replays delete msg_id article calls n rest ih = record {
    at = λ s c r.
        let (_, k) = bind-eq-ok (add_again sv cfg lib article) _ s r in
        let t = (add_again sv cfg lib article s).state in
        let (_, k') = bind-eq-ok (drop_entry sv cfg lib delete msg_id) _ t (sym k.result ∙ r) in
        let u = (drop_entry sv cfg lib delete msg_id t).state in
        let r' = sym k'.result ∙ sym k.result ∙ r in
        let next : ℕ × ℕ → M sv (ℕ × ℕ) = λ x. pure (suc x.0, x.1) in
        let (d, k'') = bind-eq-ok rest next u r' in
        let (same, count) = ih.at u d k''.first in
        let kept = ok-injective (sym k''.result ∙ r') in
        let tail = k''.calls ∙ append-nil (rest u).calls ∙ same in
        let deleted =
          k'.calls
          ∙ ap (λ (l : List Call). l ++ ((rest >>= next) u).calls)
              (drop_entry-calls delete msg_id t)
          ∙ ap (λ (l : List Call). deletion cfg delete msg_id ++ l) tail in
        let head = Call.xadd cfg.stream ((codes "article", article) ∷ []) in
        (
          k.calls ∙ ap (λ (l : List Call). head ∷ l) deleted,
          ap (λ (x : ℕ × ℕ). x.0 + x.1) (sym kept) ∙ omega (arith, count),
        );
  }

  with_article-Replays :
      (delete : Bool) (msg_id : Text) (fields : List (Text × Text)) (o : Option Text)
      (calls : List Call) (n : ℕ) (rest : M sv (ℕ × ℕ))
      → Replays calls n rest
      → Replays
          (entry_calls cfg delete msg_id o ++ calls)
          (suc n)
          (with_article sv cfg lib delete false msg_id fields rest o)
  unfolding with_article entry_calls lift ◌>>◌
  with_article-Replays delete msg_id fields none calls n rest ih =
      skip_entry-Replays calls n rest ih
  with_article-Replays delete msg_id fields (some article) calls n rest ih = record {
    at = λ s c r.
        let (_, k) = bind-eq-ok (lift (entry_url lib fields article)) _ s r in
        let (same, count) =
          (replay_entry-Replays delete msg_id article calls n rest ih).at s c (sym k.result ∙ r) in
        (k.calls ∙ same, count);
  }

  replay_entries-Replays :
      (delete : Bool) (entries : List Entry)
      → Replays
          (replay_calls cfg delete entries)
          (length entries)
          (replay_entries sv cfg lib delete false entries)
  unfolding replay_entries replay_calls pure
  replay_entries-Replays delete [] = record {
    at = λ s c r. (refl, ap (λ (x : ℕ × ℕ). x.0 + x.1) (sym (ok-injective r)));
  }
  replay_entries-Replays delete ((msg_id, fields) ∷ entries) =
      with_article-Replays delete msg_id fields (article_of fields)
        (replay_calls cfg delete entries) (length entries)
        (replay_entries sv cfg lib delete false entries) (replay_entries-Replays delete entries)

  -- A round that is no dry run and returns has, after one XRANGE, added the article of each entry
  -- that has one to the main stream, in order, each followed by the deletion of that entry where
  -- entries are to be deleted, and issued nothing else; the two counts that it returns make up the
  -- entries.
  pub replay_round-calls :
      (limit : ℕ) (delete : Bool) (s : State sv) (c : ℕ × ℕ)
      → (replay_round sv cfg lib limit delete false s).result ≡ ok c
      → (entries : List Entry) × ((sv.xrange cfg.dlq_stream limit s.world).0 ≡ ok entries)
        × ((replay_round sv cfg lib limit delete false s).calls
            ≡ Call.xrange cfg.dlq_stream limit ∷ replay_calls cfg delete entries)
        × (c.0 + c.1 ≡ length entries)
  unfolding replay_round issue
  replay_round-calls limit delete s c r =
      let (entries, k) =
        bind-eq-ok (issue (Call.xrange cfg.dlq_stream limit) (sv.xrange cfg.dlq_stream limit)) _ s
          r in
      let (same, count) = (replay_entries-Replays delete entries).at _ c (sym k.result ∙ r) in
      (
        entries,
        k.first,
        k.calls ∙ ap (λ (l : List Call). Call.xrange cfg.dlq_stream limit ∷ l) same,
        count,
      )

  with_article-quiet :
      (delete : Bool) (msg_id : Text) (fields : List (Text × Text)) (rest : M sv (ℕ × ℕ))
      (o : Option Text)
      → Emits (λ _. ⊥) rest
      → Emits (λ _. ⊥) (with_article sv cfg lib delete true msg_id fields rest o)
  unfolding with_article replay_entry skip_entry
  with_article-quiet delete msg_id fields rest none ih = search emits_rules depth 7
  with_article-quiet delete msg_id fields rest (some article) ih = search emits_rules depth 7

  replay_entries-quiet :
      (delete : Bool) (entries : List Entry)
      → Emits (λ _. ⊥) (replay_entries sv cfg lib delete true entries)
  unfolding replay_entries
  replay_entries-quiet delete [] = Emits-pure (0, 0)
  replay_entries-quiet delete ((msg_id, fields) ∷ entries) =
      with_article-quiet delete msg_id fields (replay_entries sv cfg lib delete true entries)
        (article_of fields) (replay_entries-quiet delete entries)

  -- A dry run issues one XRANGE and nothing else, whether it returns or raises.
  pub replay_round-dry :
      (limit : ℕ) (delete : Bool) (s : State sv)
      → (replay_round sv cfg lib limit delete true s).calls ≡ Call.xrange cfg.dlq_stream limit ∷ []
  unfolding replay_round issue ◌>>=◌
  replay_round-dry limit delete s =
      ap (λ (l : List Call). Call.xrange cfg.dlq_stream limit ∷ l)
        (continued (sv.xrange cfg.dlq_stream limit s.world).0)
    where
      continued :
          (o : Outcome (List Entry))
          → (continue o
              (λ entries. replay_entries sv cfg lib delete true entries)
              (record s { world = (sv.xrange cfg.dlq_stream limit s.world).1 })).calls
            ≡ []
      continued (ok entries) = nil_of_none _ ((replay_entries-quiet delete entries).at _)
      continued (raise e) = refl
