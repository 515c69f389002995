-- ===== src/Pipeline/Batch/Untouched.antt =====
-- What a batch leaves alone before it acknowledges: any view of the world that the services it
-- calls leave alone.
use webspider.Prelude.{
  ℕ, suc, ◌≡◌, ◌∙◌, Bool-cases, inl, inr, refl, List, [], ◌∷◌, Option, none, some, Text, false,
}
use webspider.Config.{Config}
use webspider.Dedupe.{Hashing}
use webspider.Services.{Services, Message, Row, Fetched, Command, Call}
use webspider.Services.Run.{M, pure, issue}
use webspider.Services.Keeps.{
  Keeps, Spares, Keeps-pure, Keeps-bind, Keeps-then, Keeps-issue, Keeps-if, keeps_rules,
}
use webspider.Neardup.{probe, is_duplicate, index}
use webspider.Store.{insert_articles}
use webspider.Pipeline.{Article, Libraries}
use webspider.Pipeline.DeadLetter.{dlq_script, count_parked, park, push_dlq}
use webspider.Pipeline.Batch.{
  Item, Gathered, get_seen, append_seen, keep_page, take_pages, admit_unseen, admit, screen,
  screen_all, gather_routed, gather, count_stored, index_rows, store_rows, count_rejected, settle,
  reject,
}

-- The calls of a batch but for XACK.
pub record Untouched (sv : Services) {X : Type 0} (view : sv.World → X) : Type 0 where
  pub smembers : (k : Text) → Spares view (sv.smembers k)
  pub execute : (cs : List Command) → Spares view (sv.execute cs)
  -- a script leaves alone what its effect leaves alone, as SADD and XADD do
  pub eval :
      (f : sv.World → ℕ × sv.World)
      → ((w : sv.World) → view (f w).1 ≡ view w)
      → Spares view (sv.eval f)
  pub script_sadd : (k v : Text) (w : sv.World) → view (sv.script_sadd k v w) ≡ view w
  pub script_xadd :
      (k : Text) (n : ℕ) (fields : List (Text × Text)) (w : sv.World)
      → view (sv.script_xadd k n fields w) ≡ view w
  pub incr : (k : Text) (n : ℕ) → Spares view (sv.incr k n)
  pub fetch : (urls : List Text) → Spares view (sv.fetch urls)
  pub insert : (rows : List Row) → Spares view (sv.insert rows)
  pub commit : Spares view sv.commit

module _ {sv : Services} {X : Type 0} {view : sv.World → X} (u : Untouched sv view) (hs : Hashing)
    (cfg : Config) (lib : Libraries) where
  open u use {smembers, execute, eval, script_sadd, script_xadd, incr, fetch, insert, commit}

  probe-Keeps : (h i : ℕ) (bvs : List ℕ) → Keeps view (probe sv hs cfg h i bvs)
  unfolding probe
  probe-Keeps h i [] = Keeps-pure false
  probe-Keeps h i (bv ∷ bvs) =
      let ih = probe-Keeps h (suc i) bvs in search (keeps_rules, smembers) depth 7

  is_duplicate-Keeps : (text : Text) → Keeps view (is_duplicate sv hs cfg text)
  unfolding is_duplicate
  is_duplicate-Keeps text = search (keeps_rules, probe-Keeps) depth 7

  dlq_script-view :
      (id : Text) (fields : List (Text × Text)) (w : sv.World)
      → view (dlq_script sv cfg id fields w).1 ≡ view w
  unfolding dlq_script
  dlq_script-view id fields w = elim (Bool-cases (sv.sismember cfg.dlq_seen_key id w)) [
    | inl e ↦ rw e refl
    | inr e ↦ rw e (script_xadd _ _ _ _ ∙ script_sadd _ _ _)
  ]

  count_parked-Keeps : (n : ℕ) → Keeps view (count_parked sv cfg n)
  unfolding count_parked
  count_parked-Keeps n = search (keeps_rules, incr) depth 7

  park-Keeps : (id : Text) (fields : List (Text × Text)) → Keeps view (park sv cfg id fields)
  unfolding park
  park-Keeps id fields =
      Keeps-bind _ (count_parked sv cfg)
        (Keeps-issue (Call.eval id fields) (sv.eval (dlq_script sv cfg id fields))
          (eval (dlq_script sv cfg id fields) (dlq_script-view id fields)))
        count_parked-Keeps

  push_dlq-Keeps :
      (id reason detail : Text) (a : Article) → Keeps view (push_dlq sv cfg lib id a reason detail)
  unfolding push_dlq
  push_dlq-Keeps id reason detail a = search (keeps_rules, park-Keeps)

  append_seen-Keeps : (h : ℕ) → Keeps view (append_seen sv hs cfg lib h)
  unfolding append_seen pure
  append_seen-Keeps h = record { at = λ s. refl }

  get_seen-Keeps : Keeps view (get_seen sv hs cfg lib)
  unfolding get_seen pure
  get_seen-Keeps = record { at = λ s. refl }

  screen-Keeps : (it : Item) (g : Gathered) → Keeps view (screen sv hs cfg lib it g)
  unfolding screen admit admit_unseen
  screen-Keeps (id, a, content) g =
      search (keeps_rules, is_duplicate-Keeps, append_seen-Keeps, get_seen-Keeps) depth 12

  screen_all-Keeps :
      (items : List Item) (g : Gathered) → Keeps view (screen_all sv hs cfg lib items g)
  unfolding screen_all
  screen_all-Keeps [] g = Keeps-pure g
  screen_all-Keeps (it ∷ items) g =
      Keeps-bind (screen sv hs cfg lib it g) (λ g'. screen_all sv hs cfg lib items g')
        (screen-Keeps it g) (λ g'. screen_all-Keeps items g')

  keep_page-Keeps :
      (id : Text) (a : Article) (rest : Gathered → M sv (List Item × Gathered)) (g : Gathered)
      (o : Option Text)
      → ((g' : Gathered) → Keeps view (rest g'))
      → Keeps view (keep_page sv hs cfg lib id a rest g o)
  unfolding keep_page
  keep_page-Keeps id a rest g none ih = search (keeps_rules, push_dlq-Keeps) depth 7
  keep_page-Keeps id a rest g (some content) ih = search keeps_rules depth 7

  take_pages-Keeps :
      (f : Fetched) (todo : List (Text × Article)) (g : Gathered)
      → Keeps view (take_pages sv hs cfg lib f todo g)
  unfolding take_pages
  take_pages-Keeps f [] g = Keeps-pure ([], g)
  take_pages-Keeps f ((id, a) ∷ todo) g = Keeps-if _ _ _ (take_pages-Keeps f todo (reject _ a g)) (
      keep_page-Keeps id a (take_pages sv hs cfg lib f todo) g _ (λ g'. take_pages-Keeps f todo g'))

  gather-Keeps : (messages : List Message) → Keeps view (gather sv hs cfg lib messages)
  unfolding gather gather_routed
  gather-Keeps messages = search (keeps_rules, fetch, take_pages-Keeps, screen_all-Keeps) depth 9

  insert_articles-Keeps : (rows : List Row) → Keeps view (insert_articles sv rows)
  unfolding insert_articles
  insert_articles-Keeps [] = Keeps-pure 0
  insert_articles-Keeps (r ∷ rows) =
      let committed : Keeps view (issue Call.commit sv.commit) =
        Keeps-issue {sv = sv} Call.commit sv.commit commit in
      Keeps-bind (issue (Call.insert (r ∷ rows)) (sv.insert (r ∷ rows))) _
        (Keeps-issue (Call.insert (r ∷ rows)) (sv.insert (r ∷ rows)) (insert (r ∷ rows)))
        (λ n. Keeps-then _ (pure n) committed (Keeps-pure n))

  index_rows-Keeps : (rows : List Row) → Keeps view (index_rows sv hs cfg lib rows)
  unfolding index_rows index
  index_rows-Keeps [] = Keeps-pure tt
  index_rows-Keeps (r ∷ rows) =
      let ih = index_rows-Keeps rows in search (keeps_rules, execute) depth 7

  store_rows-Keeps : (rows : List Row) → Keeps view (store_rows sv hs cfg lib rows)
  unfolding store_rows count_stored
  store_rows-Keeps [] = Keeps-pure tt
  store_rows-Keeps (r ∷ rows) =
      search (keeps_rules, insert_articles-Keeps, index_rows-Keeps, incr, execute) depth 9

  count_rejected-Keeps : (g : Gathered) → Keeps view (count_rejected sv hs cfg lib g)
  unfolding count_rejected
  count_rejected-Keeps g = search (keeps_rules, execute)

  pub settle-Keeps : (messages : List Message) → Keeps view (settle sv hs cfg lib messages)
  unfolding settle
  settle-Keeps messages =
      search (keeps_rules, gather-Keeps, store_rows-Keeps, count_rejected-Keeps) depth 7
