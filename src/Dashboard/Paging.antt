-- ===== src/Dashboard/Paging.antt =====
-- About the pages of the article list.
use native.Mathlib.Numerals.{unary_clauses}
use webspider.Prelude.{
  ℕ, zero, suc, ◌+◌, ◌-◌, ◌*◌, ◌≤◌, ◌≡◌, refl, sym, ap, ◌∙◌, arith, List, [], ◌∷◌, ◌++◌, map, take,
  drop, length,
}
use webspider.Dedupe.{ℤ, pos}
use webspider.Outcome.{ok}
use webspider.Action.{Action, pure, ◌>>=◌, ◌>>◌, finally, outcome_of, continue}
use webspider.Dashboard.{
  Listed, Database, Item, Page, item_of, Filters, count_statement, list_statement, both, connected,
  articles, clamp_page, clamp_size, offset_of,
}

-- A database whose answers to the two statements of the list, for these filters, are the number of
-- `rows` and a window of them.
pub record Serves (db : Database) (f : Filters) (rows : List Listed) : Type 0 where
  pub opens : (w : db.World) → (db.get_conn w).0 ≡ ok tt
  pub closes : (w : db.World) → (db.put_conn w).0 ≡ ok tt
  pub counted : (w : db.World) → (db.count (count_statement f) w).0 ≡ ok (length rows)
  pub window :
      (limit offset : ℕ) (w : db.World)
      → (db.listed (list_statement f limit offset) w).0 ≡ ok (take limit (drop offset rows))

module _ {W : Type 0} {A B : Type 0} where
  -- A first part that returns goes on with its value.
  bind-ok :
      (m : Action W A) (g : A → Action W B) (w : W) (a : A)
      → (m w).0 ≡ ok a
      → ((m >>= g) w).0 ≡ (g a (m w).1).0
  unfolding ◌>>=◌ continue
  bind-ok m g w a e = rw e refl

  finally-ok :
      (m : Action W A) (n : Action W B) (w : W) (a : A) (b : B)
      → (m w).0 ≡ ok a
      → ((w' : W) → (n w').0 ≡ ok b)
      → (finally m n w).0 ≡ ok a
  unfolding finally outcome_of
  finally-ok m n w a b e h = rw (e, h (m w).1) refl

module _ {A : Type 0} where
  take-add : (m n : ℕ) (xs : List A) → take (m + n) xs ≡ take m xs ++ take n (drop m xs)
  take-add zero n xs = let none_more : 0 + n ≡ n = omega arith in ap (λ k. take k xs) none_more
  take-add (suc m) zero [] = simp unary_clauses
  take-add (suc m) (suc n) [] = simp unary_clauses
  take-add (suc m) n (x ∷ xs) =
      let one_more : suc m + n ≡ suc (m + n) = omega arith in
      ap (λ k. take k (x ∷ xs)) one_more ∙ ap (λ (l : List A). x ∷ l) (take-add m n xs)

  map-append : {B : Type 0} → (g : A → B) (xs ys : List A) → map g (xs ++ ys) ≡ map g xs ++ map g ys
  map-append g [] ys = refl
  map-append {B} g (x ∷ xs) ys = ap (λ (l : List B). g x ∷ l) (map-append g xs ys)

  -- The items of the first `k` pages, page by page.
  abbrev pub up_to : ℕ → (ℕ → List A) → List A
  up_to zero items = []
  up_to (suc k) items = up_to k items ++ items k

up_to-windows :
    (size k : ℕ) (rows : List Listed)
    → up_to k (λ i. map item_of (take size (drop (i * size) rows)))
      ≡ map item_of (take (k * size) rows)
up_to-windows size zero rows =
    let nothing : 0 * size ≡ 0 = omega arith in ap (λ n. map item_of (take n rows)) (sym nothing)
up_to-windows size (suc k) rows =
    let next = k * size in
    let more : suc k * size ≡ next + size = omega arith in
    ap (λ l. l ++ map item_of (take size (drop next rows))) (up_to-windows size k rows)
    ∙ sym (map-append item_of (take next rows) (take size (drop next rows)))
    ∙ ap (map item_of) (sym (take-add next size rows))
    ∙ ap (λ n. map item_of (take n rows)) (sym more)

offset_lem : (i n : ℕ) → offset_of (suc i) n ≡ i * n
unfolding offset_of
offset_lem i n = let one_less : suc i - 1 ≡ i = omega arith in ap (λ p. p * n) one_less

in_range : (n : ℕ) → 1 ≤ n → n ≤ 100 → clamp_size (pos n) ≡ n
unfolding clamp_size
in_range n low high = omega arith

positive : (i : ℕ) → clamp_page (pos (suc i)) ≡ suc i
unfolding clamp_page
positive i = omega arith

module _ (db : Database) (f : Filters) (rows : List Listed) (serves : Serves db f rows) where
  both-ok :
      (size offset : ℕ) (w : db.World)
      → (both db f size offset w).0 ≡ ok (length rows, take size (drop offset rows))
  unfolding both pure
  both-ok size offset w =
      bind-ok _ _ w (length rows) (serves.counted w)
      ∙ bind-ok _ _ (db.count (count_statement f) w).1 (take size (drop offset rows))
          (serves.window size offset _)

  connected-ok :
      {A : Type 0} (m : Action db.World A) (a : A)
      → ((w : db.World) → (m w).0 ≡ ok a)
      → (w : db.World) → (connected db m w).0 ≡ ok a
  unfolding connected ◌>>◌
  connected-ok m a h w =
      bind-ok db.get_conn _ w tt (serves.opens w)
      ∙ finally-ok m db.put_conn (db.get_conn w).1 a tt (h _) serves.closes

  -- Whatever page and size are asked for, the page that is returned is the one of the clamped
  -- numbers: the window of the rows that it names, with the number of all rows.
  articles-ok :
      (page size : ℤ) (w : db.World)
      → (articles db f page size w).0
        ≡ ok (record {
          page = clamp_page page;
          page_size = clamp_size size;
          total = length rows;
          items =
              map item_of (
                take (clamp_size size) (drop (offset_of (clamp_page page) (clamp_size size)) rows));
        })
  unfolding articles pure
  articles-ok page size w =
      let n = clamp_size size in
      let window = both db f n (offset_of (clamp_page page) n) in
      bind-ok (connected db window) _ w
        (length rows, take n (drop (offset_of (clamp_page page) n) rows))
        (connected-ok window _ (both-ok n (offset_of (clamp_page page) n)) w)

  abbrev at_offset : ℕ → ℕ → ℕ → Page
  at_offset size page offset = record {
    page = page;
    page_size = size;
    total = length rows;
    items = map item_of (take size (drop offset rows));
  }

  abbrev pub page_at : ℕ → ℕ → List Item → Page
  page_at size i items = record {
    page = suc i;
    page_size = size;
    total = length rows;
    items = items;
  }

  window-ok :
      (size i : ℕ) (w : db.World)
      → 1 ≤ size
      → size ≤ 100
      → (articles db f (pos (suc i)) (pos size) w).0
        ≡ ok (page_at size i (map item_of (take size (drop (i * size) rows))))
  window-ok size i w low high =
      rw
        (← ap (λ n. page_at n i (map item_of (take n (drop (i * n) rows))))
          (in_range size low high))
        (articles-ok (pos (suc i)) (pos size) w
          ∙ ap
              (λ (p : ℕ).
                ok (at_offset (clamp_size (pos size)) p (offset_of p (clamp_size (pos size)))))
              (positive i)
          ∙ ap (λ o. ok (at_offset (clamp_size (pos size)) (suc i) o))
              (offset_lem i (clamp_size (pos size))))

  -- The pages one to `k`, asked for at any times, return, and their items are the first `k` times
  -- `size` rows, each once and in order, whatever size from 1 to 100 is asked for.
  pub articles-pages :
      (size k : ℕ)
      → 1 ≤ size
      → size ≤ 100
      → (w : ℕ → db.World)
      → (items : ℕ → List Item) × ((i : ℕ)
          → (articles db f (pos (suc i)) (pos size) (w i)).0 ≡ ok (page_at size i (items i)))
        × (up_to k items ≡ map item_of (take (k * size) rows))
  articles-pages size k low high w = (
    λ i. map item_of (take size (drop (i * size) rows)),
    λ i. window-ok size i (w i) low high,
    up_to-windows size k rows,
  )
