-- ===== src/Regex/Found.antt =====
-- A search and the texts that a pattern describes.
use mathlib.Core.Path.{subst}
use mathlib.Core.List.{reverse_aux}
use webspider.Prelude.{
  ℕ, ◌≡◌, ◌⊎◌, ◌↔◌, inl, inr, refl, sym, ap, ◌∙◌, Bool, true, false, [], ◌∷◌, ◌++◌, Option, none,
  some, Text, All, if◌then◌else◌,
}
use webspider.Regex.{
  Pattern, empty, one, many, seq, alt, boundary, group, Place, at_place, match_many, match_one,
  at_boundary, close_group, match_at, match_here, is_some, found_from, is_found,
}
use webspider.Regex.Choice.{
  or_else-cases, or_else-left, or_else-right, is_some-true, true-is_some, or-cases, or-left,
  or-right, tried-cases, tried-here, tried-more,
}

module _ (is_word : ℕ → Bool) where
  -- What a pattern describes between two places, with no order of search in it.
  unfoldable pub Matches : Pattern → Place → Place → Type 0
  Matches empty p q = q ≡ p
  Matches (one cls) p q =
      (c : ℕ) × (p.rest ≡ c ∷ q.rest)
      × (cls c ≡ true)
      × (q.before ≡ c ∷ p.before)
      × (q.captured ≡ p.captured)
  Matches (many greedy cls) p q =
      (run : Text) × (p.rest ≡ run ++ q.rest)
      × All (λ c. cls c ≡ true) run
      × (q.before ≡ reverse_aux run p.before)
      × (q.captured ≡ p.captured)
  Matches (seq r r') p q = (m : Place) × Matches r p m × Matches r' m q
  Matches (alt r r') p q = Matches r p q ⊎ Matches r' p q
  Matches boundary p q = (at_boundary is_word p ≡ true) × (q ≡ p)
  Matches (group r) p q = (m : Place) × Matches r p m × (q ≡ close_group p m)

  -- A repetition that goes on to give a match is one that the pattern describes.
  match_many_sound :
      (greedy : Bool) (cls : ℕ → Bool) (before rest : Text) (n : ℕ) (k : Place → Option Place)
      (t : Place)
      → match_many greedy cls before rest n k ≡ some t
      → (q : Place) × Matches (many greedy cls) (at_place before rest n) q × (k q ≡ some t)
  unfolding Matches match_many
  match_many_sound greedy cls before [] n k t e =
      (at_place before [] n, ([], refl, tt, refl, refl), e)
  match_many_sound greedy cls before (c ∷ rest) n k t e =
      let more = match_many greedy cls (c ∷ before) rest n k in
      let here = k (at_place before (c ∷ rest) n) in
      elim (tried-cases greedy (cls c) more here t e) [
        | inl (holds, e') ↦
            let (q, (run, er, all, eb, en), ek) =
              match_many_sound greedy cls (c ∷ before) rest n k t e' in
            (q, (c ∷ run, ap (λ (l : Text). c ∷ l) er, (holds, all), eb, en), ek)
        | inr e' ↦ (at_place before (c ∷ rest) n, ([], refl, tt, refl, refl), e')
      ]

  match_many_complete :
      (greedy : Bool) (cls : ℕ → Bool) (before run rest : Text) (n : ℕ) (k : Place → Option Place)
      → All (λ c. cls c ≡ true) run
      → (t : Place) × (k (at_place (reverse_aux run before) rest n) ≡ some t)
      → (t : Place) × (match_many greedy cls before (run ++ rest) n k ≡ some t)
  unfolding match_many
  match_many_complete greedy cls before [] [] n k all r = r
  match_many_complete greedy cls before [] (c ∷ rest) n k all r =
      tried-here greedy (cls c) (match_many greedy cls (c ∷ before) rest n k)
        (k (at_place before (c ∷ rest) n)) r
  match_many_complete greedy cls before (c ∷ run) rest n k all r =
      tried-more greedy (cls c) (match_many greedy cls (c ∷ before) (run ++ rest) n k)
        (k (at_place before (c ∷ (run ++ rest)) n)) all.0
        (match_many_complete greedy cls (c ∷ before) run rest n k all.1 r)

  match_one_sound :
      (cls : ℕ → Bool) (before rest : Text) (n : ℕ) (k : Place → Option Place) (t : Place)
      → match_one cls before rest n k ≡ some t
      → (q : Place) × Matches (one cls) (at_place before rest n) q × (k q ≡ some t)
  unfolding Matches match_one
  match_one_sound cls before [] n k t e = let no : ⊥ = cc in elim no [ ]
  match_one_sound cls before (c ∷ rest) n k t e = by (cls c) refl e
    where
      by :
          (b : Bool)
          → cls c ≡ b
          → (if b then k (at_place (c ∷ before) rest n) else none) ≡ some t
          → (q : Place) × Matches (one cls) (at_place before (c ∷ rest) n) q × (k q ≡ some t)
      by true here e = (at_place (c ∷ before) rest n, (c, refl, here, refl, refl), e)
      by false here e = let no : ⊥ = cc in elim no [ ]

  -- A match that the search gives is one that the pattern describes.
  match_at_sound :
      (r : Pattern) (p : Place) (k : Place → Option Place) (t : Place)
      → match_at is_word r p k ≡ some t
      → (q : Place) × Matches r p q × (k q ≡ some t)
  unfolding Matches match_at
  match_at_sound empty p k t e = (p, refl, e)
  match_at_sound (one cls) p k t e = match_one_sound cls p.before p.rest p.captured k t e
  match_at_sound (many greedy cls) p k t e =
      match_many_sound greedy cls p.before p.rest p.captured k t e
  match_at_sound (seq r r') p k t e =
      let (m, left, e') = match_at_sound r p (λ p'. match_at is_word r' p' k) t e in
      let (q, right, e'') = match_at_sound r' m k t e' in (q, (m, left, right), e'')
  match_at_sound (alt r r') p k t e =
      elim (or_else-cases (match_at is_word r p k) (match_at is_word r' p k) t e) [
        | inl e' ↦ let (q, left, ek) = match_at_sound r p k t e' in (q, inl left, ek)
        | inr e' ↦ let (q, right, ek) = match_at_sound r' p k t e' in (q, inr right, ek)
      ]
  match_at_sound boundary p k t e = by (at_boundary is_word p) refl e
    where
      by :
          (b : Bool)
          → at_boundary is_word p ≡ b
          → (if b then k p else none) ≡ some t
          → (q : Place) × Matches boundary p q × (k q ≡ some t)
      by true here e = (p, (here, refl), e)
      by false here e = let no : ⊥ = cc in elim no [ ]
  match_at_sound (group r) p k t e =
      let (m, inside, e') = match_at_sound r p (λ p'. k (close_group p p')) t e in
      (close_group p m, (m, inside, refl), e')

  place_at :
      (q : Place) (before : Text) (n : ℕ)
      → q.before ≡ before
      → q.captured ≡ n
      → q ≡ at_place before q.rest n
  place_at q before n eb en =
      ap (λ b. at_place b q.rest q.captured) eb ∙ ap (λ c. at_place before q.rest c) en

  -- Where the pattern describes a match with which what follows succeeds, the search gives one.
  match_at_complete :
      (r : Pattern) (p q : Place) (k : Place → Option Place)
      → Matches r p q
      → (t : Place) × (k q ≡ some t)
      → (t : Place) × (match_at is_word r p k ≡ some t)
  unfolding Matches match_at match_one
  match_at_complete empty p q k m (t, e) = (t, ap k (sym m) ∙ e)
  match_at_complete (one cls) p q k (c, er, here, eb, en) (t, e) =
      let arrived : k (at_place (c ∷ p.before) q.rest p.captured) ≡ some t =
        ap k (sym (place_at q (c ∷ p.before) p.captured eb en)) ∙ e in
      (t, rw (er, here) arrived)
  match_at_complete (many greedy cls) p q k (run, er, all, eb, en) (t, e) =
      let at_end = place_at q (reverse_aux run p.before) p.captured eb en in
      let (t', e') =
        match_many_complete greedy cls p.before run q.rest p.captured k all
          (t, ap k (sym at_end) ∙ e) in
      (t', ap (λ l. match_many greedy cls p.before l p.captured k) er ∙ e')
  match_at_complete (seq r r') p q k (m, left, right) found =
      match_at_complete r p m (λ p'. match_at is_word r' p' k) left
        (match_at_complete r' m q k right found)
  match_at_complete (alt r r') p q k (inl left) found =
      or_else-left (match_at is_word r p k) (match_at is_word r' p k)
        (match_at_complete r p q k left found)
  match_at_complete (alt r r') p q k (inr right) found =
      or_else-right (match_at is_word r p k) (match_at is_word r' p k)
        (match_at_complete r' p q k right found)
  match_at_complete boundary p q k (here, e') (t, e) =
      let same : k p ≡ some t = ap k (sym e') ∙ e in (t, rw here same)
  match_at_complete (group r) p q k (m, inside, e') (t, e) =
      match_at_complete r p m (λ p'. k (close_group p p')) inside (t, ap k (sym e') ∙ e)

  match_here_iff :
      (r : Pattern) (before rest : Text)
      → (is_some (match_here is_word r before rest) ≡ true)
        ↔ ((q : Place) × Matches r (at_place before rest 0) q)
  unfolding match_here
  match_here_iff r before rest = (
    λ e.
        let (t, e') = is_some-true (match_here is_word r before rest) e in
        let (q, m, _) = match_at_sound r (at_place before rest 0) (λ p. some p) t e' in (q, m),
    λ (q, m).
        true-is_some (match_here is_word r before rest)
          (match_at_complete r (at_place before rest 0) q (λ p. some p) m (q, refl)),
  )

  -- A place of the text from which the pattern describes a match.
  abbrev Occurs : Pattern → Text → Text → Type 0
  Occurs r before rest =
      (gone : Text) × (left : Text) × (rest ≡ gone ++ left)
      × (q : Place) × Matches r (at_place (reverse_aux gone before) left 0) q

  found_from_sound :
      (r : Pattern) (before rest : Text)
      → found_from is_word r before rest ≡ true
      → Occurs r before rest
  unfolding found_from
  found_from_sound r before [] e =
      let (q, m) = (match_here_iff r before []).0 e in ([], [], refl, q, m)
  found_from_sound r before (c ∷ rest) e =
      elim (or-cases (is_some (match_here is_word r before (c ∷ rest)))
        (found_from is_word r (c ∷ before) rest) e) [
          | inl e' ↦
              let (q, m) = (match_here_iff r before (c ∷ rest)).0 e' in ([], c ∷ rest, refl, q, m)
          | inr e' ↦
              let (gone, left, er, q, m) = found_from_sound r (c ∷ before) rest e' in
              (c ∷ gone, left, ap (λ (l : Text). c ∷ l) er, q, m)
        ]

  found_from_complete :
      (r : Pattern) (before gone left : Text) (q : Place)
      → Matches r (at_place (reverse_aux gone before) left 0) q
      → found_from is_word r before (gone ++ left) ≡ true
  unfolding found_from
  found_from_complete r before [] [] q m = (match_here_iff r before []).1 (q, m)
  found_from_complete r before [] (c ∷ left) q m =
      or-left (is_some (match_here is_word r before (c ∷ left)))
        (found_from is_word r (c ∷ before) left) ((match_here_iff r before (c ∷ left)).1 (q, m))
  found_from_complete r before (c ∷ gone) left q m =
      or-right (is_some (match_here is_word r before (c ∷ (gone ++ left))))
        (found_from is_word r (c ∷ before) (gone ++ left))
        (found_from_complete r (c ∷ before) gone left q m)

  -- `search` finds a pattern in a text exactly when the text has a place from which the pattern,
  -- read with no order of search, describes a match.
  pub is_found_iff :
      (r : Pattern) (text : Text)
      → (is_found is_word r text ≡ true) ↔ (
          (gone : Text) × (left : Text) × (text ≡ gone ++ left)
          × (q : Place) × Matches r (at_place (reverse_aux gone []) left 0) q)
  unfolding is_found
  is_found_iff r text = (
    λ e. found_from_sound r [] text e,
    λ (gone, left, er, q, m).
        subst (λ s. found_from is_word r [] s ≡ true) (sym er)
          (found_from_complete r [] gone left q m),
  )
