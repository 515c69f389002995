-- ===== src/SftExport/Titles.antt =====
-- The titles of the samples that py-processor/export_sft.py writes.
use webspider.Prelude.{
  ℕ, ◌≡◌, refl, ◌∙◌, Bool, true, false, ◌||◌, List, [], ◌∷◌, Option, none, some, Text, text_eq,
  text_eq_refl, eq_of_text_eq, text_elem, if◌then◌else◌, Bool-cases, inl, inr,
}
use webspider.SftExport.{
  Post, Record, to_record, sample_of, write_new, write_sample, export_from, export_sft,
}

unfoldable pub find_record : Text → List (Text × Record) → Option Record
find_record k [] = none
find_record k ((j, r) ∷ out) = if text_eq k j then some r else find_record k out

unfoldable pub titles_of : List (Text × Record) → List Text
titles_of [] = []
titles_of ((k, r) ∷ out) = k ∷ titles_of out

-- No title stands twice.
abbrev pub NoRepeat : List (Text × Record) → Type 0
NoRepeat [] = Unit
NoRepeat ((k, r) ∷ out) = (text_elem k (titles_of out) ≡ false) × NoRepeat out

module _ (lower : Text → Text) (is_alpaca : Bool) (min_quality min_answer_chars : ℕ) where
  unfoldable pub pick : Text → Option (Text × Text × Text) → Post → Option Record → Option Record
  pick k none p rest = rest
  pick k (some (title, question, answer)) p rest =
      if text_eq k (lower title)
      then some (to_record is_alpaca (title, question, answer) p)
      else rest

  -- The record of the first row that has a sample with this title.
  unfoldable pub first_of : Text → List Post → Option Record
  unfolding pick
  first_of k [] = none
  first_of k (p ∷ posts) = pick k (sample_of min_quality min_answer_chars p) p (first_of k posts)

  abbrev out_of : List Text → List Post → List (Text × Record)
  out_of = export_from lower is_alpaca min_quality min_answer_chars

  -- What a title finds in the output of the rest, after one sample.
  write_new-lookup :
      (k key : Text) (r : Record) (posts : List Post) (seen : List Text) (known : Bool)
      → text_elem key seen ≡ known
      → ((seen' : List Text)
          → find_record k (out_of seen' posts)
            ≡ (if text_elem k seen' then none else first_of k posts))
      → find_record k (
          write_new lower is_alpaca min_quality min_answer_chars known
            (λ seen'. out_of seen' posts)
            seen
            key
            r)
        ≡ (if text_elem k seen then none else (if text_eq k key then some r else first_of k posts))
  unfolding write_new find_record text_elem
  write_new-lookup k key r posts seen true h ih = ih seen ∙ skipped (text_eq k key) refl
    where
      skipped :
          (b : Bool)
          → text_eq k key ≡ b
          → (if text_elem k seen then none else first_of k posts)
            ≡ (if text_elem k seen then none else (if b then some r else first_of k posts))
      skipped true e =
          let there : text_elem k seen ≡ true = rw (eq_of_text_eq k key e) h in rw there refl
      skipped false e = refl
  write_new-lookup k key r posts seen false h ih = taken (text_eq k key) refl (ih (key ∷ seen))
    where
      taken :
          (b : Bool)
          → text_eq k key ≡ b
          → find_record k (out_of (key ∷ seen) posts)
            ≡ (if text_eq k key || text_elem k seen then none else first_of k posts)
          → (if b then some r else find_record k (out_of (key ∷ seen) posts))
            ≡ (if text_elem k seen then none else (if b then some r else first_of k posts))
      taken true e rest =
          let absent : text_elem k seen ≡ false = rw (eq_of_text_eq k key e) h in rw absent refl
      taken false e rest = rest ∙ rw e refl

  write_sample-lookup :
      (k : Text) (posts : List Post) (seen : List Text) (p : Post) (o : Option (Text × Text × Text))
      → ((seen' : List Text)
          → find_record k (out_of seen' posts)
            ≡ (if text_elem k seen' then none else first_of k posts))
      → find_record k (
          write_sample lower is_alpaca min_quality min_answer_chars
            (λ seen'. out_of seen' posts)
            seen
            p
            o)
        ≡ (if text_elem k seen then none else pick k o p (first_of k posts))
  unfolding write_sample pick
  write_sample-lookup k posts seen p none ih = ih seen
  write_sample-lookup k posts seen p (some (title, question, answer)) ih =
      write_new-lookup k (lower title) (to_record is_alpaca (title, question, answer) p) posts seen
        (text_elem (lower title) seen) refl ih

  export_from-lookup :
      (k : Text) (posts : List Post) (seen : List Text)
      → find_record k (out_of seen posts) ≡ (if text_elem k seen then none else first_of k posts)
  unfolding export_from first_of find_record
  export_from-lookup k [] seen = elim (Bool-cases (text_elem k seen)) [
    | inl e ↦ rw e refl
    | inr e ↦ rw e refl
  ]
  export_from-lookup k (p ∷ posts) seen =
      let ih = export_from-lookup k posts in
      write_sample-lookup k posts seen p (sample_of min_quality min_answer_chars p) ih

  text_elem-titles_of :
      (k : Text) (out : List (Text × Record))
      → find_record k out ≡ none
      → text_elem k (titles_of out) ≡ false
  unfolding find_record titles_of text_elem
  text_elem-titles_of k [] h = refl
  text_elem-titles_of k ((j, r) ∷ out) h = by (text_eq k j) refl h (text_elem-titles_of k out)
    where
      by :
          (b : Bool)
          → text_eq k j ≡ b
          → (if b then some r else find_record k out) ≡ none
          → (find_record k out ≡ none → text_elem k (titles_of out) ≡ false)
          → b || text_elem k (titles_of out) ≡ false
      by true e bad ih = cc
      by false e h ih = ih h

  write_new-NoRepeat :
      (key : Text) (r : Record) (posts : List Post) (seen : List Text) (known : Bool)
      → ((seen' : List Text) → NoRepeat (out_of seen' posts))
      → NoRepeat (
          write_new lower is_alpaca min_quality min_answer_chars known
            (λ seen'. out_of seen' posts)
            seen
            key
            r)
  unfolding write_new text_elem
  write_new-NoRepeat key r posts seen true ih = ih seen
  write_new-NoRepeat key r posts seen false ih = (
    text_elem-titles_of key (out_of (key ∷ seen) posts)
        (export_from-lookup key posts (key ∷ seen) ∙ marked),
    ih (key ∷ seen),
  )
    where
      marked : (if text_elem key (key ∷ seen) then none else first_of key posts) ≡ none
      marked = rw (text_eq_refl key) refl

  export_from-NoRepeat : (posts : List Post) (seen : List Text) → NoRepeat (out_of seen posts)
  unfolding export_from write_sample
  export_from-NoRepeat [] seen = tt
  export_from-NoRepeat (p ∷ posts) seen =
      by_sample (sample_of min_quality min_answer_chars p) (export_from-NoRepeat posts)
    where
      by_sample :
          (o : Option (Text × Text × Text))
          → ((seen' : List Text) → NoRepeat (out_of seen' posts))
          → NoRepeat (
              write_sample lower is_alpaca min_quality min_answer_chars
                (λ seen'. out_of seen' posts)
                seen
                p
                o)
      by_sample none ih = ih seen
      by_sample (some (title, question, answer)) ih =
          write_new-NoRepeat (lower title) _ posts seen _ ih

  -- The export has one record for each title, up to case, that a qualifying row has, and it is the
  -- one of the first such row; no title stands twice.
  pub export_sft-first :
      (posts : List Post)
      → ((k : Text)
          → find_record k (export_sft lower is_alpaca min_quality min_answer_chars posts)
            ≡ first_of k posts)
        × NoRepeat (export_sft lower is_alpaca min_quality min_answer_chars posts)
  unfolding export_sft text_elem
  export_sft-first posts = ((λ k. export_from-lookup k posts []), export_from-NoRepeat posts [])
