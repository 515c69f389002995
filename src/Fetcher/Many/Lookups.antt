-- ===== src/Fetcher/Many/Lookups.antt =====
-- The maps of `fetch_many` in py-processor/fetcher.py, by URL.
use webspider.Prelude.{
  ◌≡◌, refl, sym, ap, ◌∙◌, Bool, true, false, ◌||◌, List, [], ◌∷◌, ◌++◌, Option, none, some, Text,
  codes, text_eq, text_eq_refl, eq_of_text_eq, text_elem, if◌then◌else◌, Bool-cases, inl, inr,
}
use webspider.Outcome.{Outcome, ok, raise, ok-injective}
use webspider.Str.{decimal}
use webspider.Fetcher.Retry.{FetchResult, text, failed, gone}
use webspider.Fetcher.Many.{Pages, Maps, put, add_result, collect, fetch_many}

unfoldable pub page_at : Text → Pages → Option Text
page_at k [] = none
page_at k ((j, v) ∷ d) = if text_eq k j then some v else page_at k d

-- What the future of a URL says of it, for each of the maps.
unfoldable pub body_of : Outcome FetchResult → Option Text
body_of (ok (text body)) = some body
body_of (ok failed) = none
body_of (ok (gone status)) = none
body_of (raise e) = none

unfoldable pub reason_of : Outcome FetchResult → Option Text
reason_of (ok (text body)) = none
reason_of (ok failed) = none
reason_of (ok (gone status)) = some (codes "HTTP " ++ decimal status)
reason_of (raise e) = none

-- What the future of a URL says, where the URL has one.
unfoldable pub told :
    (Outcome FetchResult → Option Text) → Text → List (Text × Outcome FetchResult) → Option Text
told f u [] = none
told f u ((k, r) ∷ futures) = if text_eq u k then f r else told f u futures

unfoldable pub urls_of : List (Text × Outcome FetchResult) → List Text
urls_of [] = []
urls_of ((k, r) ∷ futures) = k ∷ urls_of futures

-- No URL has two futures.
abbrev pub Distinct : List (Text × Outcome FetchResult) → Type 0
Distinct [] = Unit
Distinct ((k, r) ∷ futures) = (text_elem k (urls_of futures) ≡ false) × Distinct futures

unfoldable put_some : Text → Option Text → Pages → Pages
put_some k none d = d
put_some k (some v) d = put k v d

-- The loop for one of the maps.
unfoldable put_all :
    (Outcome FetchResult → Option Text) → Pages → List (Text × Outcome FetchResult) → Pages
unfolding put_some
put_all f d [] = d
put_all f d ((k, r) ∷ futures) = put_all f (put_some k (f r) d) futures

page_at-put :
    (u k v : Text) (d : Pages)
    → page_at u (put k v d) ≡ (if text_eq u k then some v else page_at u d)
unfolding page_at put
page_at-put u k v [] = refl
page_at-put u k v ((j, w) ∷ d) = by_key (text_eq k j) refl (page_at-put u k v d)
  where
    by_url :
        text_eq k j ≡ false
        → (b : Bool) → text_eq u k ≡ b
        → (c : Bool) → text_eq u j ≡ c
        → page_at u (put k v d) ≡ (if b then some v else page_at u d)
        → (if c then some w else page_at u (put k v d))
          ≡ (if b then some v else (if c then some w else page_at u d))
    by_url apart true e true f ih =
        let same : k ≡ j = sym (eq_of_text_eq u k e) ∙ eq_of_text_eq u j f in
        let clash : text_eq k j ≡ true = rw same (text_eq_refl j) in cc
    by_url apart true e false f ih = ih
    by_url apart false e true f ih = refl
    by_url apart false e false f ih = ih

    by_key :
        (b : Bool)
        → text_eq k j ≡ b
        → page_at u (put k v d) ≡ (if text_eq u k then some v else page_at u d)
        → page_at u (if b then (j, v) ∷ d else (j, w) ∷ put k v d)
          ≡ (if text_eq u k then some v else page_at u ((j, w) ∷ d))
    by_key true e ih =
        rw (eq_of_text_eq k j e)
          (elim (Bool-cases (text_eq u j)) [ inl f ↦ rw f refl | inr f ↦ rw f refl ])
    by_key false e ih = by_url e (text_eq u k) refl (text_eq u j) refl ih

told-absent :
    (f : Outcome FetchResult → Option Text) (u : Text) (futures : List (Text × Outcome FetchResult))
    → text_elem u (urls_of futures) ≡ false
    → told f u futures ≡ none
unfolding told urls_of text_elem
told-absent f u [] h = refl
told-absent f u ((k, r) ∷ futures) h = by (text_eq u k) h (told-absent f u futures)
  where
    by :
        (b : Bool)
        → b || text_elem u (urls_of futures) ≡ false
        → (text_elem u (urls_of futures) ≡ false → told f u futures ≡ none)
        → (if b then f r else told f u futures) ≡ none
    by true h ih = cc
    by false h ih = ih h

abbrev or_page : Option Text → Option Text → Option Text
or_page none old = old
or_page (some v) old = some v

page_at-put_some :
    (u k : Text) (o : Option Text) (d : Pages)
    → page_at u (put_some k o d) ≡ (if text_eq u k then or_page o (page_at u d) else page_at u d)
unfolding put_some
page_at-put_some u k none d = elim (Bool-cases (text_eq u k)) [
  | inl e ↦ rw e refl
  | inr e ↦ rw e refl
]
page_at-put_some u k (some v) d = page_at-put u k v d

page_at-put_all :
    (f : Outcome FetchResult → Option Text) (u : Text) (futures : List (Text × Outcome FetchResult))
    (d : Pages)
    → Distinct futures
    → page_at u (put_all f d futures) ≡ or_page (told f u futures) (page_at u d)
unfolding put_all told
page_at-put_all f u [] d h = refl
page_at-put_all f u ((k, r) ∷ futures) d h =
    page_at-put_all f u futures (put_some k (f r) d) h.1
    ∙ rw (page_at-put_some u k (f r) d) (by (text_eq u k) refl)
  where
    by :
        (b : Bool)
        → text_eq u k ≡ b
        → or_page (told f u futures) (if b then or_page (f r) (page_at u d) else page_at u d)
          ≡ or_page (if b then f r else told f u futures) (page_at u d)
    by true e =
        let alone : told f u futures ≡ none =
          told-absent f u futures (rw (eq_of_text_eq u k e) h.0) in
        rw alone refl
    by false e = refl

-- The loop is that of each map.
collect-put_all :
    (futures : List (Text × Outcome FetchResult)) (m n : Maps)
    → collect m futures ≡ ok n
    → (n.results ≡ put_all body_of m.results futures)
      × (n.permanent ≡ put_all reason_of m.permanent futures)
unfolding collect put_all body_of reason_of put_some add_result
collect-put_all [] m n e = (
  ap (λ (x : Maps). x.results) (sym (ok-injective e)),
  ap (λ (x : Maps). x.permanent) (sym (ok-injective e)),
)
collect-put_all ((k, ok (text body)) ∷ futures) m n e =
    collect-put_all futures (record m { results = put k body m.results }) n e
collect-put_all ((k, ok failed) ∷ futures) m n e = collect-put_all futures m n e
collect-put_all ((k, ok (gone status)) ∷ futures) m n e =
    collect-put_all futures
      (record m { permanent = put k (codes "HTTP " ++ decimal status) m.permanent }) n e
collect-put_all ((k, raise x) ∷ futures) m n e = (cc, cc)

-- For URLs that are all different, the maps of a `fetch_many` that returns hold for each URL just
-- what its own future says, the text of its page in `results` or the reason why it is gone in
-- `permanent`, whatever the order in which the futures complete; a URL without a future is in
-- neither.
pub fetch_many-told :
    (futures : List (Text × Outcome FetchResult)) (m : Maps) (u : Text)
    → Distinct futures
    → fetch_many futures ≡ ok m
    → (page_at u m.results ≡ told body_of u futures)
      × (page_at u m.permanent ≡ told reason_of u futures)
unfolding fetch_many page_at
fetch_many-told futures m u distinct e =
    let maps = collect-put_all futures (record { results = []; permanent = [] }) m e in
    (
      rw maps.0 (page_at-put_all body_of u futures [] distinct ∙ or_none (told body_of u futures)),
      rw maps.1
          (page_at-put_all reason_of u futures [] distinct ∙ or_none (told reason_of u futures)),
    )
  where
    or_none : (o : Option Text) → or_page o none ≡ o
    or_none none = refl
    or_none (some v) = refl
