-- ===== src/Pipeline/Batch/Kept.antt =====
-- About the rows that phases 1 to 3 of a batch gather.
use mathlib.Core.Path.{subst}
use webspider.Prelude.{
  ℕ, ◌≡◌, refl, sym, true, List, [], ◌∷◌, ◌++◌, Option, none, some, Text, codes, map, text_elem,
  elem, All, All-append,
}
use webspider.Config.{Config}
use webspider.Dedupe.{Hashing}
use webspider.Services.{Services, Message, Fetched, Call, Row}
use webspider.Services.Run.{M, lift, issue, State}
use webspider.Outcome.{ok}
use webspider.Services.Returns.{
  Returns, Returns-pure, Returns-if, Returns-bind, Returns-bind_any, Returns-then,
}
use webspider.Neardup.{is_duplicate}
use webspider.Pipeline.{Article, Libraries}
use webspider.Pipeline.Batch.{
  Item, Gathered, parse_messages, route, url_of, reject, reject_quietly, keep_page, take_pages,
  admit_unseen, admit, screen, screen_all, gather_routed, gather, nothing, get_seen, append_seen,
  make_row, detect_language,
}

-- The row's text passed the gate with the row's score, and its language is one that is kept.
abbrev pub RowKept : Config → Libraries → Row → Type 0
RowKept cfg lib row =
    ((lib.assess row.content).keep ≡ true)
    × (row.quality_score ≡ (lib.assess row.content).quality_score)
    × (row.language ≡ detect_language lib row.content)
    × (text_elem row.language cfg.lang_keep ≡ true)

module _ (sv : Services) (hs : Hashing) (cfg : Config) (lib : Libraries) where
  abbrev Clean : Gathered → Type 0
  Clean g = All (RowKept cfg lib) g.rows

  admit_unseen-Clean :
      (a : Article) (content : Text) (g : Gathered) (chash : ℕ)
      → (lib.assess content).keep ≡ true
      → text_elem (detect_language lib content) cfg.lang_keep ≡ true
      → Clean g
      → Returns Clean (
          admit_unseen sv hs cfg lib a content
            (detect_language lib content)
            (lib.assess content).quality_score
            g
            chash)
  unfolding admit_unseen make_row reject_quietly
  admit_unseen-Clean a content g chash kept known h =
      Returns-bind_any (get_seen sv hs cfg lib) _ (λ seen.
        Returns-if (elem chash seen) _ _ (λ _. Returns-pure _ h)
          (λ _. Returns-then (append_seen sv hs cfg lib chash) _ (
            Returns-pure _
              (All-append (RowKept cfg lib) g.rows _ h ((kept, refl, refl, known), tt)))))

  screen-Clean :
      (item : Item) (g : Gathered) → Clean g → Returns Clean (screen sv hs cfg lib item g)
  unfolding screen admit reject reject_quietly
  screen-Clean (id, a, content) g h =
      Returns-if (lib.assess content).keep _ _
        (λ kept.
          Returns-if (text_elem (detect_language lib content) cfg.lang_keep) _ _
            (λ known. Returns-bind_any (is_duplicate sv hs cfg content) _ (λ (dup, chash).
              Returns-if dup _ _ (λ _. Returns-pure _ h)
                (λ _. admit_unseen-Clean a content g chash kept known h)))
            (λ _. Returns-pure _ h))
        (λ _. Returns-pure _ h)

  screen_all-Clean :
      (items : List Item) (g : Gathered)
      → Clean g
      → Returns Clean (screen_all sv hs cfg lib items g)
  unfolding screen_all
  screen_all-Clean [] g h = Returns-pure g h
  screen_all-Clean (item ∷ items) g h =
      Returns-bind Clean (screen sv hs cfg lib item g) _ (screen-Clean item g h)
        (λ g' h'. screen_all-Clean items g' h')

  abbrev Empty : List Item × Gathered → Type 0
  Empty r = r.1.rows ≡ []

  keep_page-Empty :
      (id : Text) (a : Article) (rest : Gathered → M sv (List Item × Gathered)) (g : Gathered)
      (o : Option Text)
      → g.rows ≡ []
      → ((g' : Gathered) → g'.rows ≡ [] → Returns Empty (rest g'))
      → Returns Empty (keep_page sv hs cfg lib id a rest g o)
  unfolding keep_page reject
  keep_page-Empty id a rest g none h ih =
      Returns-then _ _ (ih (reject (codes "extract_fail") a g) h)
  keep_page-Empty id a rest g (some content) h ih =
      Returns-bind Empty (rest g) _ (ih g h)
        (λ (items, g') e. Returns-pure ((id, a, content) ∷ items, g') e)

  take_pages-Empty :
      (f : Fetched) (todo : List (Text × Article)) (g : Gathered)
      → g.rows ≡ []
      → Returns Empty (take_pages sv hs cfg lib f todo g)
  unfolding take_pages reject
  take_pages-Empty f [] g h = Returns-pure ([], g) h
  take_pages-Empty f ((id, a) ∷ todo) g h =
      Returns-if (text_elem (url_of (id, a)) f.gone) _ _
        (λ _. take_pages-Empty f todo (reject (codes "not_found") a g) h)
        (λ _.
          keep_page-Empty id a (take_pages sv hs cfg lib f todo) g _ h (take_pages-Empty f todo))

  gathered-Clean : (messages : List Message) → Returns Clean (gather sv hs cfg lib messages)
  unfolding gather gather_routed
  gathered-Clean messages = Returns-bind_any (lift (route (parse_messages lib messages))) _ (λ r.
      Returns-bind_any
        (issue (Call.fetch (map url_of r.to_fetch)) (sv.fetch (map url_of r.to_fetch))) _
        (λ f.
          Returns-bind Empty (take_pages sv hs cfg lib f r.to_fetch nothing) _
            (take_pages-Empty f r.to_fetch nothing refl)
            (λ (fetched, g) e.
              screen_all-Clean (r.direct ++ fetched) g (subst (All (RowKept cfg lib)) (sym e) tt))))

  -- When phases 1 to 3 return, every row to store has a text that passed the quality gate with the
  -- row's score, and the language found for it is one that is kept.
  pub gather-Clean :
      (messages : List Message) (s : State sv) (g : Gathered)
      → (gather sv hs cfg lib messages s).result ≡ ok g
      → All (RowKept cfg lib) g.rows
  gather-Clean messages s g r = (gathered-Clean messages).at s g r
