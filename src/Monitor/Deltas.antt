-- ===== src/Monitor/Deltas.antt =====
-- The changes per source of py-processor/monitor.py.
use webspider.Prelude.{
  ℕ, zero, suc, ◌+◌, ◌-◌, max, ◌≡◌, refl, sym, ap, ◌∙◌, arith, Bool, true, false, ◌||◌, List, [],
  ◌∷◌, ◌++◌, some, Text, text_eq, eq_of_text_eq, text_elem, text_elem-append, if◌then◌else◌,
  Bool-cases, inl, inr,
}
use webspider.Pipeline.Counts.{Counts}
use webspider.Monitor.{
  Sample, Delta, count_of, insert_all, keys, sources_of, delta, delta_of, tabulate,
  compute_by_source,
}

-- The values of all the entries of a name.
unfoldable pub entries : Text → List (Text × Delta) → List Delta
entries k [] = []
entries k ((j, d) ∷ ds) = if text_eq k j then d ∷ entries k ds else entries k ds

-- A source that one of the maps of a sample names.
unfoldable pub names : Sample → Text → Bool
names s src =
    text_elem src (keys s.produced_by_source)
    || text_elem src (keys s.stored_by_source)
    || text_elem src (keys s.rejected_by_source)

-- Adding a name that is there already changes no membership.
text_elem-add :
    (k j : Text) (set : List Text)
    → text_elem k (if text_elem j set then set else set ++ j ∷ []) ≡ text_eq k j || text_elem k set
unfolding text_elem
text_elem-add k j set = elim (Bool-cases (text_elem j set)) [
  | inl there ↦ rw there (known (text_eq k j) refl there)
  | inr absent ↦ rw absent (let added = text_elem-append k set (j ∷ []) in ground arith)
]
  where
    known :
        (b : Bool)
        → text_eq k j ≡ b
        → text_elem j set ≡ true
        → text_elem k set ≡ b || text_elem k set
    known true e there = rw (eq_of_text_eq k j e) there
    known false e there = refl

text_elem-insert_all :
    (k : Text) (ks set : List Text)
    → text_elem k (insert_all ks set) ≡ text_elem k ks || text_elem k set
unfolding insert_all text_elem
text_elem-insert_all k [] set = refl
text_elem-insert_all k (j ∷ ks) set =
    let ih = text_elem-insert_all k ks (if text_elem j set then set else set ++ j ∷ []) in
    let added = text_elem-add k j set in ground arith

-- How often a name is in a list.
times : Text → List Text → ℕ
times k [] = 0
times k (j ∷ ks) = if text_eq k j then suc (times k ks) else times k ks

bit : Bool → ℕ
bit b = if b then 1 else 0

copies : {A : Type 0} → ℕ → A → List A
copies zero x = []
copies (suc n) x = x ∷ copies n x

times-append : (k : Text) (s t : List Text) → times k (s ++ t) ≡ times k s + times k t
unfolding times
times-append k [] t = omega arith
times-append k (j ∷ s) t =
    let ih = times-append k s t in
    elim (Bool-cases (text_eq k j)) [ inl e ↦ rw e (omega arith) | inr e ↦ rw e ih ]

entries-tabulate :
    (f : Text → Delta) (k : Text) (ks : List Text)
    → entries k (tabulate f ks) ≡ copies (times k ks) (f k)
unfolding entries tabulate times copies
entries-tabulate f k [] = refl
entries-tabulate f k (j ∷ ks) = by (text_eq k j) refl (entries-tabulate f k ks)
  where
    by :
        (b : Bool)
        → text_eq k j ≡ b
        → entries k (tabulate f ks) ≡ copies (times k ks) (f k)
        → (if b then f j ∷ entries k (tabulate f ks) else entries k (tabulate f ks))
          ≡ copies (if b then suc (times k ks) else times k ks) (f k)
    by true e ih =
        ap (λ ds. f j ∷ ds) ih
        ∙ ap (λ (d : Delta). d ∷ copies (times k ks) (f k)) (ap f (sym (eq_of_text_eq k j e)))
    by false e ih = ih

-- A set has each of its members once.
times-add :
    (k j : Text) (set : List Text)
    → times k set ≡ bit (text_elem k set)
    → times k (if text_elem j set then set else set ++ j ∷ [])
      ≡ bit (text_elem k (if text_elem j set then set else set ++ j ∷ []))
unfolding times bit text_elem
times-add k j set h = elim (Bool-cases (text_elem j set)) [
  | inl there ↦ rw there h
  | inr absent ↦
      rw (absent, times-append k set (j ∷ []), text_elem-append k set (j ∷ []))
        (by (text_eq k j) refl absent h)
]
  where
    by :
        (b : Bool)
        → text_eq k j ≡ b
        → text_elem j set ≡ false
        → times k set ≡ bit (text_elem k set)
        → times k set + (if b then 1 else 0) ≡ bit (text_elem k set || (b || false))
    by true e absent h =
        let gone : text_elem k set ≡ false = rw (eq_of_text_eq k j e) absent in rw (h, gone) refl
    by false e absent h = ground arith

times-insert_all :
    (k : Text) (ks set : List Text)
    → times k set ≡ bit (text_elem k set)
    → times k (insert_all ks set) ≡ bit (text_elem k (insert_all ks set))
unfolding insert_all
times-insert_all k [] set h = h
times-insert_all k (j ∷ ks) set h = times-insert_all k ks _ (times-add k j set h)

-- The deltas of two samples have one entry for each source that a map of either names, and none for
-- any other name; it has what each of the three counters of the source has grown by since the
-- earlier sample, 0 where the counter has gone back, a missing counter being 0.
pub compute_by_source-entries :
    (prev cur : Sample) (src : Text)
    → entries src (compute_by_source (some prev) cur) ≡ (
        if names prev src || names cur src
        then (record {
          produced_delta =
              count_of src cur.produced_by_source - count_of src prev.produced_by_source;
          stored_delta = count_of src cur.stored_by_source - count_of src prev.stored_by_source;
          rejected_delta =
              some (count_of src cur.rejected_by_source - count_of src prev.rejected_by_source);
        })
          ∷ []
        else [])
unfolding compute_by_source sources_of names text_elem delta_of delta copies times bit
compute_by_source-entries prev cur src =
    entries-tabulate (delta_of prev cur) src (sources_of prev cur)
    ∙ ap (λ (n : ℕ). copies n (delta_of prev cur src)) (once ∙ ap bit members)
    ∙ by (names prev src || names cur src)
  where
    members : text_elem src (sources_of prev cur) ≡ names prev src || names cur src
    members = simp text_elem-insert_all (ground arith)

    once : times src (sources_of prev cur) ≡ bit (text_elem src (sources_of prev cur))
    once = search times-insert_all depth 10

    by :
        (b : Bool)
        → copies (bit b) (delta_of prev cur src) ≡ (if b then delta_of prev cur src ∷ [] else [])
    by true = refl
    by false = refl

-- A counter that has not gone back.
pub count-delta :
    (src : Text) (prev cur : Counts)
    → count_of src prev + delta src prev cur ≡ max (count_of src prev) (count_of src cur)
unfolding delta
count-delta src prev cur = omega arith
