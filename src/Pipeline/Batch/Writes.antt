-- ===== src/Pipeline/Batch/Writes.antt =====
-- Which calls the phases of a batch make, whatever the services answer.
use webspider.Prelude.{ℕ, false, List, [], ◌∷◌, Option, none, some, Text, codes, text_elem}
use webspider.Config.{Config}
use webspider.Dedupe.{Hashing}
use webspider.Services.{Services, Message, Fetched, Call}
use webspider.Services.Run.{M}
use webspider.Services.Emits.{Emits, Emits-pure, Emits-if, Emits-bind, emits_rules}
use webspider.Neardup.{probe, is_duplicate}
use webspider.Pipeline.{Article, Libraries}
use webspider.Pipeline.DeadLetter.{push_dlq}
use webspider.Pipeline.Batch.{
  Item, Gathered, url_of, reject, keep_page, take_pages, admit_unseen, admit, screen, screen_all,
  gather_routed, gather, get_seen, append_seen,
}

-- The calls of phases 1 to 3: page fetches, reads of the index, and the dead-letter stream. None
-- of them writes a row or a fingerprint, and none acknowledges.
abbrev pub IsPreparatory : Call → Type 0
IsPreparatory (Call.smembers k) = Unit
IsPreparatory (Call.eval id fields) = Unit
IsPreparatory (Call.incr k n) = Unit
IsPreparatory (Call.fetch urls) = Unit
IsPreparatory _ = ⊥

module _ (sv : Services) (hs : Hashing) (cfg : Config) (lib : Libraries) where
  push_dlq-Emits :
      (id : Text) (a : Article) (reason detail : Text)
      → Emits IsPreparatory (push_dlq sv cfg lib id a reason detail)
  unfolding push_dlq
  push_dlq-Emits id a reason detail = search emits_rules depth 9

  probe-Emits : (h i : ℕ) (bvs : List ℕ) → Emits IsPreparatory (probe sv hs cfg h i bvs)
  unfolding probe
  probe-Emits h i [] = Emits-pure false
  probe-Emits h i (bv ∷ bvs) = let ih = probe-Emits h (ℕ.suc i) bvs in search emits_rules

  is_duplicate-Emits : (text : Text) → Emits IsPreparatory (is_duplicate sv hs cfg text)
  unfolding is_duplicate
  is_duplicate-Emits text = search (emits_rules, probe-Emits)

  get_seen-Emits : Emits IsPreparatory (get_seen sv hs cfg lib)
  unfolding get_seen
  get_seen-Emits = record { at = λ s. tt }

  append_seen-Emits : (h : ℕ) → Emits IsPreparatory (append_seen sv hs cfg lib h)
  unfolding append_seen
  append_seen-Emits h = record { at = λ s. tt }

  admit_unseen-Emits :
      (a : Article) (content lang : Text) (score : ℕ) (g : Gathered) (chash : ℕ)
      → Emits IsPreparatory (admit_unseen sv hs cfg lib a content lang score g chash)
  unfolding admit_unseen
  admit_unseen-Emits a content lang score g chash =
      search (emits_rules, get_seen-Emits, append_seen-Emits) depth 9

  admit-Emits :
      (a : Article) (content lang : Text) (score : ℕ) (g : Gathered)
      → Emits IsPreparatory (admit sv hs cfg lib a content lang score g)
  unfolding admit
  admit-Emits a content lang score g = search (emits_rules, is_duplicate-Emits, admit_unseen-Emits)

  screen-Emits : (item : Item) (g : Gathered) → Emits IsPreparatory (screen sv hs cfg lib item g)
  unfolding screen
  screen-Emits (id, a, content) g = search (emits_rules, admit-Emits)

  screen_all-Emits :
      (items : List Item) (g : Gathered) → Emits IsPreparatory (screen_all sv hs cfg lib items g)
  unfolding screen_all
  screen_all-Emits [] g = Emits-pure g
  screen_all-Emits (item ∷ items) g =
      Emits-bind _ _ (screen-Emits item g) (λ g'. screen_all-Emits items g')

  keep_page-Emits :
      (id : Text) (a : Article) (rest : Gathered → M sv (List Item × Gathered)) (g : Gathered)
      (o : Option Text)
      → ((g' : Gathered) → Emits IsPreparatory (rest g'))
      → Emits IsPreparatory (keep_page sv hs cfg lib id a rest g o)
  unfolding keep_page
  keep_page-Emits id a rest g none h = search (emits_rules, push_dlq-Emits)
  keep_page-Emits id a rest g (some content) h = search emits_rules

  take_pages-Emits :
      (f : Fetched) (todo : List (Text × Article)) (g : Gathered)
      → Emits IsPreparatory (take_pages sv hs cfg lib f todo g)
  unfolding take_pages
  take_pages-Emits f [] g = Emits-pure ([], g)
  take_pages-Emits f ((id, a) ∷ todo) g =
      Emits-if (text_elem (url_of (id, a)) f.gone) _ _
        (take_pages-Emits f todo (reject (codes "not_found") a g))
        (keep_page-Emits id a (take_pages sv hs cfg lib f todo) g _ (take_pages-Emits f todo))

  -- Phases 1 to 3 write no row and no fingerprint and acknowledge nothing, whatever the services
  -- answer and wherever they raise.
  pub gather-Emits : (messages : List Message) → Emits IsPreparatory (gather sv hs cfg lib messages)
  unfolding gather gather_routed
  gather-Emits messages = search (emits_rules, take_pages-Emits, screen_all-Emits) depth 9
