-- ===== src/Replay/Loop/Repeats.antt =====
-- About a loop that keeps the entries it replays.
use mathlib.Core.Path.{subst}
use webspider.Prelude.{
  ℕ, zero, suc, ◌<◌, ◌≡◌, refl, sym, ap, ◌∙◌, arith, true, false, List, [], ◌∷◌, ◌++◌, some, Text,
  length, All, if◌then◌else◌,
}
use webspider.Outcome.{ok, ok-injective}
use webspider.Config.{Config}
use webspider.Services.{Services, Call}
use webspider.Services.Run.{State, M, pure, lift, issue, ◌>>=◌, ◌>>◌}
use webspider.Services.Invert.{bind-Continued}
use webspider.Pipeline.{Libraries}
use webspider.Replay.{
  Entry, article_of, entry_url, add_again, drop_entry, replay_entry, with_article, replay_entries,
  replay_round,
}
use webspider.Replay.Rounds.{replay_calls, replay_round-calls}
use webspider.Replay.Loop.{dlq_length, goes_on, replay_loop}

module _ {sv : Services} where
  -- A function that returns the value in every state.
  abbrev AlwaysReturns {ℓ} : {A : Type ℓ} → A → M sv A → Type ℓ
  AlwaysReturns a m = (s : State sv) → (m s).result ≡ ok a

  AlwaysReturns-bind {ℓ κ} :
      {A : Type ℓ} {B : Type κ} (m : M sv A) (f : A → M sv B) (a : A) (b : B)
      → AlwaysReturns a m
      → AlwaysReturns b (f a)
      → AlwaysReturns b (m >>= f)
  AlwaysReturns-bind m f a b hm hf s = (bind-Continued m f s a (hm s)).result ∙ hf (m s).state

-- An entry with an article and a URL that can be printed.
abbrev pub Replayable : Libraries → Entry → Type 0
Replayable lib (msg_id, fields) =
    (article : Text) × (url : Text) × (article_of fields ≡ some article)
    × (entry_url lib fields article ≡ ok url)

-- A dead-letter stream that holds the entries, which no addition to the main stream changes.
pub record Standing (sv : Services) (cfg : Config) (batch : ℕ) (entries : List Entry) : Type 0 where
  pub read : (w : sv.World) → (sv.xrange cfg.dlq_stream batch w).0 ≡ ok entries
  pub more : ℕ
  pub left : (w : sv.World) → (sv.xlen cfg.dlq_stream w).0 ≡ ok (suc more)
  pub added : (fields : List (Text × Text)) (w : sv.World) → (sv.xadd cfg.stream fields w).0 ≡ ok tt

module _ (sv : Services) (cfg : Config) (lib : Libraries) (batch : ℕ) (entries : List Entry)
    (standing : Standing sv cfg batch entries) where
  with_article-AlwaysReturns :
      (msg_id : Text) (fields : List (Text × Text)) (rest : M sv (ℕ × ℕ)) (n : ℕ)
      → Replayable lib (msg_id, fields)
      → AlwaysReturns (n, 0) rest
      → AlwaysReturns
          (suc n, 0)
          (with_article sv cfg lib false false msg_id fields rest (article_of fields))
  unfolding with_article replay_entry add_again drop_entry lift issue pure ◌>>◌
  with_article-AlwaysReturns msg_id fields rest n (article, url, has, printed) ih =
      let next : ℕ × ℕ → M sv (ℕ × ℕ) = λ x. pure (suc x.0, x.1) in
      let counted : M sv (ℕ × ℕ) = rest >>= next in
      let dropped : M sv (ℕ × ℕ) = drop_entry sv cfg lib false msg_id >> counted in
      let again : M sv (ℕ × ℕ) = add_again sv cfg lib article >> dropped in
      subst
        (λ o. AlwaysReturns (suc n, 0) (with_article sv cfg lib false false msg_id fields rest o))
        (sym has)
        (AlwaysReturns-bind (lift (entry_url lib fields article)) (λ _. again) url (suc n, 0)
          (λ s. printed)
          (AlwaysReturns-bind (add_again sv cfg lib article) (λ _. dropped) tt (suc n, 0)
            (λ s. standing.added _ s.world)
            (AlwaysReturns-bind (drop_entry sv cfg lib false msg_id) (λ _. counted) tt (suc n, 0)
              (λ s. refl) (AlwaysReturns-bind rest next (n, 0) (suc n, 0) ih (λ s. refl)))))

  replay_entries-AlwaysReturns :
      (es : List Entry)
      → All (Replayable lib) es
      → AlwaysReturns (length es, 0) (replay_entries sv cfg lib false false es)
  unfolding replay_entries pure
  replay_entries-AlwaysReturns [] h = λ s. refl
  replay_entries-AlwaysReturns ((msg_id, fields) ∷ es) h =
      with_article-AlwaysReturns msg_id fields (replay_entries sv cfg lib false false es)
        (length es) h.0 (replay_entries-AlwaysReturns es h.1)

  round-AlwaysReturns :
      All (Replayable lib) entries
      → AlwaysReturns (length entries, 0) (replay_round sv cfg lib batch false false)
  unfolding replay_round issue
  round-AlwaysReturns h =
      AlwaysReturns-bind (issue (Call.xrange cfg.dlq_stream batch) (sv.xrange cfg.dlq_stream batch))
        _ entries (length entries, 0) (λ s. standing.read s.world)
        (replay_entries-AlwaysReturns entries h)

  -- What the rounds issue: they read the entries, add each again, and ask for the length.
  abbrev pub times : ℕ → List Call
  times zero = []
  times (suc n) =
      Call.xrange cfg.dlq_stream batch
      ∷ (replay_calls cfg false entries ++ Call.xlen cfg.dlq_stream ∷ times n)

  round_calls_lem :
      All (Replayable lib) entries
      → (s : State sv)
      → (replay_round sv cfg lib batch false false s).calls
        ≡ Call.xrange cfg.dlq_stream batch ∷ replay_calls cfg false entries
  round_calls_lem h s =
      let (found, answered, same, _) =
        replay_round-calls sv cfg lib batch false s (length entries, 0) (round-AlwaysReturns h s) in
      let equal : found ≡ entries = ok-injective (sym answered ∙ standing.read s.world) in
      same
      ∙ ap (λ (es : List Entry). Call.xrange cfg.dlq_stream batch ∷ replay_calls cfg false es) equal

  going : (k : ℕ) → 0 < length entries → goes_on false (length entries) (suc k) ≡ true
  unfolding goes_on
  going k some_entry = ground arith

  -- Without `--delete`, on a dead-letter stream that nothing else changes, every one of the rounds
  -- adds the same entries to the main stream again: the loop does not come to an end before its
  -- rounds do. The entries have an article and a URL, and there is at least one.
  pub replay_loop-times :
      (rounds : ℕ) (s : State sv)
      → 0 < length entries
      → All (Replayable lib) entries
      → (replay_loop sv cfg lib batch false false rounds s).calls ≡ times rounds
  unfolding replay_loop pure dlq_length issue
  replay_loop-times zero s some_entry h = refl
  replay_loop-times (suc rounds) s some_entry h =
      let again : ℕ → ℕ → M sv (Unit {0}) = λ replayed remaining.
        if goes_on false replayed remaining
        then replay_loop sv cfg lib batch false false rounds
        else pure tt in
      let step : ℕ × ℕ → M sv (Unit {0}) = λ c. dlq_length sv cfg lib >>= again c.0 in
      let s' = (replay_round sv cfg lib batch false false s).state in
      let s'' = (dlq_length sv cfg lib s').state in
      let k =
        bind-Continued (replay_round sv cfg lib batch false false) step s (length entries, 0)
          (round-AlwaysReturns h s) in
      let k' =
        bind-Continued (dlq_length sv cfg lib) (again (length entries)) s' (suc standing.more)
          (standing.left s'.world) in
      let ih = replay_loop-times rounds s'' some_entry h in
      let rest : (again (length entries) (suc standing.more) s'').calls ≡ times rounds =
        rw (going standing.more some_entry) ih in
      k.calls
      ∙ ap (λ (l : List Call). l ++ (step (length entries, 0) s').calls) (round_calls_lem h s)
      ∙ ap
          (λ (l : List Call).
            Call.xrange cfg.dlq_stream batch ∷ (replay_calls cfg false entries ++ l))
          (k'.calls ∙ ap (λ (l : List Call). Call.xlen cfg.dlq_stream ∷ l) rest)
