-- ===== src/Quality/Decided.antt =====
-- About the decision of the quality gate.
use webspider.Prelude.{
  ℕ, ◌*◌, ◌≤◌, ◌≡◌, ◌≢◌, ◌↔◌, ◌⊎◌, inl, inr, refl, ltb, leb, arith, Bool, true, false, ◌&&◌, [],
  ◌∷◌, Text, length, if◌then◌else◌,
}
use webspider.Regex.{is_found}
use webspider.Quality.{Ratio, spam, help, code_chars, word_count, link_ratio, unique_word_ratio}
use webspider.Quality.Gate.{Limits, Assessed, less, gates, assess}

-- `x ≤ y` of ratios.
abbrev AtMost : Ratio → Ratio → Type 0
AtMost x y = x.over * y.under ≤ y.over * x.under

-- The chain of gates, with the outcome of each test.
chain :
    (spam rich dump low short thin asks : Bool)
    → ((if spam
          then false
          else if rich
          then true
          else if dump
          then false
          else if low
          then false
          else if short
          then false
          else if thin
          then false
          else if asks
          then false
          else true)
        ≡ true)
      ↔ ((spam ≡ false)
          × ((rich ≡ true)
              ⊎ ((dump ≡ false)
                  × (low ≡ false)
                  × (short ≡ false)
                  × (thin ≡ false)
                  × (asks ≡ false))))
chain spam rich dump low short thin asks = ground arith

not_ltb_iff : (a b : ℕ) → (ltb a b ≡ false) ↔ (b ≤ a)
not_ltb_iff a b = ground arith

leb_iff : (a b : ℕ) → (leb a b ≡ true) ↔ (a ≤ b)
leb_iff a b = ground arith

and_false_iff : (a b : Bool) → ((a && b) ≡ false) ↔ ((a ≡ false) ⊎ (b ≡ false))
and_false_iff a b = ground arith

keep_if : (b : Bool) (x y : Assessed) → (if b then x else y).keep ≡ (if b then x.keep else y.keep)
keep_if true x y = refl
keep_if false x y = refl

module _ (is_word : ℕ → Bool) (lower : Text → Text) (limits : Limits) where
  -- Prose that passes every gate behind the one for code.
  abbrev pub Passes : Text → Type 0
  Passes text =
      AtMost (link_ratio is_word text) limits.max_link_ratio
      × AtMost limits.min_unique_ratio (unique_word_ratio is_word lower text)
      × (limits.min_content_len ≤ length text)
      × (limits.min_words_no_code ≤ word_count is_word text)
      × ((is_found is_word help text ≡ false)
          ⊎ (limits.min_words_no_code * 2 ≤ word_count is_word text))

  abbrev Tested : Text → Type 0
  Tested text =
      (less limits.max_link_ratio (link_ratio is_word text) ≡ false)
      × (less (unique_word_ratio is_word lower text) limits.min_unique_ratio ≡ false)
      × (ltb (length text) limits.min_content_len ≡ false)
      × (ltb (word_count is_word text) limits.min_words_no_code ≡ false)
      × ((is_found is_word help text
            && ltb (word_count is_word text) (limits.min_words_no_code * 2))
          ≡ false)

  Tested-Passes : (text : Text) → Tested text → Passes text
  Tested-Passes text (dump, low, short, thin, asks) = (
    (not_ltb_iff _ _).0 dump,
    (not_ltb_iff _ _).0 low,
    (not_ltb_iff _ _).0 short,
    (not_ltb_iff _ _).0 thin,
    elim ((and_false_iff _ _).0 asks) [
      | inl no_help ↦ inl no_help
      | inr few ↦ inr ((not_ltb_iff _ _).0 few)
    ],
  )

  Passes-Tested : (text : Text) → Passes text → Tested text
  Passes-Tested text (dump, low, short, thin, asks) = (
    (not_ltb_iff _ _).1 dump,
    (not_ltb_iff _ _).1 low,
    (not_ltb_iff _ _).1 short,
    (not_ltb_iff _ _).1 thin,
    (and_false_iff _ _).1
        (elim asks [ inl no_help ↦ inl no_help | inr many ↦ inr ((not_ltb_iff _ _).1 many) ]),
  )

  gates-keep :
      (text : Text)
      → ((gates is_word lower limits text).keep ≡ true) ↔ (
          (is_found is_word spam text ≡ false)
          × ((limits.min_code_chars ≤ code_chars is_word text) ⊎ Passes text))
  unfolding gates
  gates-keep text =
      let decided =
        chain (is_found is_word spam text) (leb limits.min_code_chars (code_chars is_word text))
          (less limits.max_link_ratio (link_ratio is_word text))
          (less (unique_word_ratio is_word lower text) limits.min_unique_ratio)
          (ltb (length text) limits.min_content_len)
          (ltb (word_count is_word text) limits.min_words_no_code)
          (is_found is_word help text
            && ltb (word_count is_word text) (limits.min_words_no_code * 2)) in
      simp (keep_if) (
        λ e.
            let (clean, rest) = decided.0 e in
            (
              clean,
              elim rest [
                | inl rich ↦ inl ((leb_iff _ _).0 rich)
                | inr tested ↦ inr (Tested-Passes text tested)
              ],
            ),
        λ (clean, rest). decided.1 (
          clean,
          elim rest [
            | inl rich ↦ inl ((leb_iff _ _).1 rich)
            | inr passes ↦ inr (Passes-Tested text passes)
          ],
        ),
      )

  -- The gate keeps a text exactly when it is not empty, has no promotional phrase, and either has
  -- enough code or passes all of: not too many links, enough distinct words, long enough, enough
  -- words, and no request for help unless it has twice those words.
  pub assess-keep :
      (text : Text)
      → ((assess is_word lower limits text).keep ≡ true) ↔ (
          (text ≢ [])
          × (is_found is_word spam text ≡ false)
          × ((limits.min_code_chars ≤ code_chars is_word text) ⊎ Passes text))
  unfolding assess
  assess-keep [] = (λ e. let no : ⊥ = cc in elim no [ ], λ h. absurd (h.0 refl))
  assess-keep (c ∷ text) = (
    λ e. let (clean, rest) = (gates-keep (c ∷ text)).0 e in (λ same. cc, clean, rest),
    λ (_, clean, rest). (gates-keep (c ∷ text)).1 (clean, rest),
  )
