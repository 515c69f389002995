-- ===== src/Pipeline/Batch/Accounting.antt =====
-- Every message of a batch meets one fate: it is malformed, rejected for one reason, or stored.
use webspider.Prelude.{
  ℕ, suc, ◌+◌, ◌≡◌, refl, ap, ◌∙◌, arith, List, [], ◌∷◌, ◌++◌, Option, none, some, Text, codes, map,
  length, length-append, text_elem, elem,
}
use webspider.Outcome.{Outcome, ok, raise, ok-injective}
use webspider.Config.{Config}
use webspider.Dedupe.{Hashing}
use webspider.Services.{Services, Message, Fetched, Call}
use webspider.Services.Run.{State, M, lift, issue}
use webspider.Services.Returns.{
  Returns, Returns-pure, Returns-lift, Returns-if, Returns-bind, Returns-bind_any, Returns-then,
}
use webspider.Neardup.{is_duplicate}
use webspider.Pipeline.{Article, Json, object, other, Libraries}
use webspider.Pipeline.Counts.{total, total-bump}
use webspider.Pipeline.Batch.{
  Item, Gathered, decode, parse_messages, inline_content, Routed, route_one, add_route, route,
  url_of, reject, reject_quietly, take_pages, admit_unseen, admit, screen, screen_all,
  gather_routed, gather, nothing, keep_page, get_seen, append_seen, make_row, detect_language,
}

-- The messages without a JSON value: no `article` field, an empty one, or one that is not JSON.
unfoldable pub malformed : Libraries → List Message → ℕ
malformed lib [] = 0
malformed lib ((id, raw) ∷ ms) = elim (decode lib raw) [
  | none ↦ suc (malformed lib ms)
  | some j ↦ malformed lib ms
]

-- The fates that are counted: rejections and rows.
abbrev fates : Gathered → ℕ
fates g = total g.stats + length g.rows

length-parse_messages :
    (lib : Libraries) (ms : List Message)
    → length (parse_messages lib ms) + malformed lib ms ≡ length ms
unfolding parse_messages malformed
length-parse_messages lib [] = refl
length-parse_messages lib ((id, raw) ∷ ms) = ground (arith, length-parse_messages lib ms)

length-route_one :
    (id : Text) (a : Article) (o : Option Text) (r : Routed)
    → length (route_one id a o r).direct + length (route_one id a o r).to_fetch
      ≡ suc (length r.direct + length r.to_fetch)
unfolding route_one
length-route_one id a none r = omega arith
length-route_one id a (some md) r = omega arith

length-add_route :
    (id : Text) (a : Article) (o : Outcome Routed) (n : ℕ) (r : Routed)
    → ((r' : Routed) → o ≡ ok r' → length r'.direct + length r'.to_fetch ≡ n)
    → add_route id a o ≡ ok r
    → length r.direct + length r.to_fetch ≡ suc n
unfolding add_route
length-add_route id a (raise x) n r h e = cc
length-add_route id a (ok r') n r h e =
    rw (← ok-injective e) (length-route_one id a (inline_content a) r' ∙ ap suc (h r' refl))

length-route :
    (parsed : List (Text × Json)) (r : Routed)
    → route parsed ≡ ok r
    → length r.direct + length r.to_fetch ≡ length parsed
unfolding route
length-route [] r e = rw (← ok-injective e) (omega arith)
length-route ((id, other) ∷ parsed) r e = cc
length-route ((id, object a) ∷ parsed) r e =
    length-add_route id a (route parsed) (length parsed) r (length-route parsed) e

fates-reject : (k : Text) (a : Article) (g : Gathered) → fates (reject k a g) ≡ suc (fates g)
unfolding reject
fates-reject k a g = omega (arith, total-bump k g.stats)

fates-reject_quietly : (k : Text) (g : Gathered) → fates (reject_quietly k g) ≡ suc (fates g)
unfolding reject_quietly
fates-reject_quietly k g = omega (arith, total-bump k g.stats)

module _ (sv : Services) (hs : Hashing) (cfg : Config) (lib : Libraries) where
  abbrev Keeps : ℕ → Gathered → List Item × Gathered → Type 0
  Keeps n g r = length r.0 + fates r.1 ≡ n + fates g

  keep_page-fates :
      (id : Text) (a : Article) (rest : Gathered → M sv (List Item × Gathered)) (n : ℕ)
      (g : Gathered) (o : Option Text)
      → ((g' : Gathered) → Returns (Keeps n g') (rest g'))
      → Returns (Keeps (suc n) g) (keep_page sv hs cfg lib id a rest g o)
  unfolding keep_page
  keep_page-fates id a rest n g none ih = Returns-then _ _ (record {
    at = λ s r e. omega (arith, (ih _).at s r e, fates-reject (codes "extract_fail") a g);
  })
  keep_page-fates id a rest n g (some content) ih =
      Returns-bind (Keeps n g) (rest g) _ (ih g)
        (λ (items, g') e. Returns-pure ((id, a, content) ∷ items, g') (omega (arith, e)))

  take_pages-fates :
      (f : Fetched) (todo : List (Text × Article)) (g : Gathered)
      → Returns (Keeps (length todo) g) (take_pages sv hs cfg lib f todo g)
  unfolding take_pages
  take_pages-fates f [] g = Returns-pure ([], g) refl
  take_pages-fates f ((id, a) ∷ todo) g =
      Returns-if (text_elem (url_of (id, a)) f.gone) _ _
        (λ _. record {
          at = λ s r e. omega (
            arith,
            (take_pages-fates f todo (reject (codes "not_found") a g)).at s r e,
            fates-reject (codes "not_found") a g,
          );
        })
        (λ _.
          keep_page-fates id a (take_pages sv hs cfg lib f todo) (length todo) g _
            (take_pages-fates f todo))

  admit_unseen-fates :
      (a : Article) (content lang : Text) (score : ℕ) (g : Gathered) (chash : ℕ)
      → Returns
          (λ g'. fates g' ≡ suc (fates g))
          (admit_unseen sv hs cfg lib a content lang score g chash)
  unfolding admit_unseen
  admit_unseen-fates a content lang score g chash =
      Returns-bind_any (get_seen sv hs cfg lib) _ (λ seen.
        Returns-if (elem chash seen) _ _
          (λ _. Returns-pure _ (fates-reject_quietly (codes "dup") g))
          (λ _. Returns-then (append_seen sv hs cfg lib chash) _ (
            Returns-pure _ (
              omega (arith, length-append g.rows (make_row lib a content lang chash score ∷ []))))))

  admit-fates :
      (a : Article) (content lang : Text) (score : ℕ) (g : Gathered)
      → Returns (λ g'. fates g' ≡ suc (fates g)) (admit sv hs cfg lib a content lang score g)
  unfolding admit
  admit-fates a content lang score g =
      Returns-bind_any (is_duplicate sv hs cfg content) _ (λ (dup, chash).
        Returns-if dup _ _ (λ _. Returns-pure _ (fates-reject_quietly (codes "dup") g))
          (λ _. admit_unseen-fates a content lang score g chash))

  screen-fates :
      (item : Item) (g : Gathered)
      → Returns (λ g'. fates g' ≡ suc (fates g)) (screen sv hs cfg lib item g)
  unfolding screen
  screen-fates (id, a, content) g =
      Returns-if (lib.assess content).keep _ _
        (λ _.
          Returns-if (text_elem (detect_language lib content) cfg.lang_keep) _ _
            (λ _. admit-fates a content _ _ g)
            (λ _. Returns-pure _ (fates-reject_quietly (codes "lang") g)))
        (λ _. Returns-pure _ (fates-reject (lib.assess content).reason a g))

  screen_all-fates :
      (items : List Item) (g : Gathered)
      → Returns (λ g'. fates g' ≡ length items + fates g) (screen_all sv hs cfg lib items g)
  unfolding screen_all
  screen_all-fates [] g = Returns-pure g (omega arith)
  screen_all-fates (item ∷ items) g =
      Returns-bind _ (screen sv hs cfg lib item g) _ (screen-fates item g) (λ g' e. record {
        at = λ s g'' r. omega (arith, (screen_all-fates items g').at s g'' r, e);
      })

  gather-parsed :
      (messages : List Message)
      → Returns
          (λ g. fates g ≡ length (parse_messages lib messages))
          (gather sv hs cfg lib messages)
  unfolding gather gather_routed total
  gather-parsed messages =
      Returns-bind _ (lift (route (parse_messages lib messages))) _
        (Returns-lift _ (length-route (parse_messages lib messages)))
        (λ r e.
          Returns-bind_any
            (issue (Call.fetch (map url_of r.to_fetch)) (sv.fetch (map url_of r.to_fetch))) _
            (λ f.
              Returns-bind _ (take_pages sv hs cfg lib f r.to_fetch nothing) _
                (take_pages-fates f r.to_fetch nothing)
                (λ (fetched, g) e'. record {
                  at = λ s g' x. omega (
                    arith,
                    e,
                    e',
                    length-append r.direct fetched,
                    (screen_all-fates (r.direct ++ fetched) g).at s g' x,
                  );
                })))

  -- When phases 1 to 3 return, the counted rejections, the rows to store and the malformed
  -- messages add up to the number of messages of the batch.
  pub gather-fates :
      (messages : List Message) (s : State sv) (g : Gathered)
      → (gather sv hs cfg lib messages s).result ≡ ok g
      → total g.stats + length g.rows + malformed lib messages ≡ length messages
  gather-fates messages s g r =
      omega (arith, (gather-parsed messages).at s g r, length-parse_messages lib messages)
