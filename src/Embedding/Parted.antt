-- ===== src/Embedding/Parted.antt =====
-- The chunks of a file of py-processor/embed_chunks.py, parted by what becomes of them.
use webspider.Prelude.{◌≡◌, Bool-cases, true, false, inl, inr, List, [], ◌∷◌, ◌++◌, Text, text_elem}
use webspider.Embedding.{Item, not_embedded}

-- Items in order, each of them in one of the two lists.
pub data Split : List Item → List Item → List Item → Type 0 where
  nothing : Split [] [] []
  left : {e f l : List Item} (x : Item) → Split e f l → Split (x ∷ e) f (x ∷ l)
  right : {e f l : List Item} (x : Item) → Split e f l → Split e (x ∷ f) (x ∷ l)

-- The items of a chunk file, in order: those whose id is known, those that are embedded and those
-- that have failed, each item in one place.
pub data Parted (seen : List Text) : List Item → List Item → List Item → Type 0 where
  no_item : Parted seen [] [] []
  known :
      {e f l : List Item} (x : Item)
      → text_elem x.chunk_id seen ≡ true
      → Parted seen e f l
      → Parted seen e f (x ∷ l)
  embedded :
      {e f l : List Item} (x : Item)
      → text_elem x.chunk_id seen ≡ false
      → Parted seen e f l
      → Parted seen (x ∷ e) f (x ∷ l)
  failed :
      {e f l : List Item} (x : Item)
      → text_elem x.chunk_id seen ≡ false
      → Parted seen e f l
      → Parted seen e (x ∷ f) (x ∷ l)

pub Split-append :
    {e f l e' f' l' : List Item}
    → Split e f l
    → Split e' f' l'
    → Split (e ++ e') (f ++ f') (l ++ l')
Split-append nothing t = t
Split-append (left x s) t = left x (Split-append s t)
Split-append (right x s) t = right x (Split-append s t)

pub Split-left : (l : List Item) → Split l [] l
Split-left [] = nothing
Split-left (x ∷ l) = left x (Split-left l)

pub Split-right : (l : List Item) → Split [] l l
Split-right [] = nothing
Split-right (x ∷ l) = right x (Split-right l)

pub not_embedded-Parted :
    (seen : List Text) (items e f : List Item)
    → Split e f (not_embedded seen items)
    → Parted seen e f items
unfolding not_embedded
not_embedded-Parted seen [] e f s = last s
  where
    last : {e f : List Item} → Split e f [] → Parted seen e f []
    last nothing = no_item
not_embedded-Parted seen (it ∷ items) e f s = elim (Bool-cases (text_elem it.chunk_id seen)) [
  | inl there ↦ known it there (not_embedded-Parted seen items e f (rw there at s))
  | inr new ↦ next new (rw new at s) (not_embedded-Parted seen items)
]
  where
    next :
        {e f : List Item}
        → text_elem it.chunk_id seen ≡ false
        → Split e f (it ∷ not_embedded seen items)
        → ((e f : List Item) → Split e f (not_embedded seen items) → Parted seen e f items)
        → Parted seen e f (it ∷ items)
    next new (left x s) ih = embedded it new (ih _ _ s)
    next new (right x s) ih = failed it new (ih _ _ s)
