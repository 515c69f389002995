-- ===== src/Regex/Choice.antt =====
-- Choices between two results, and tests of them.
use webspider.Prelude.{
  ◌≡◌, ◌⊎◌, inl, inr, refl, Bool, true, false, ◌||◌, Option, none, some, if◌then◌else◌,
}
use webspider.Regex.{or_else, is_some}

pub or_else-cases {ℓ} :
    {A : Type ℓ} (o o' : Option A) (a : A) → or_else o o' ≡ some a → (o ≡ some a) ⊎ (o' ≡ some a)
unfolding or_else
or_else-cases none o' a e = inr e
or_else-cases (some x) o' a e = inl e

pub or_else-left {ℓ} :
    {A : Type ℓ} (o o' : Option A) → (a : A) × (o ≡ some a) → (a : A) × (or_else o o' ≡ some a)
unfolding or_else
or_else-left none o' (a, e) = let no : ⊥ = cc in elim no [ ]
or_else-left (some x) o' (a, e) = (x, refl)

pub or_else-right {ℓ} :
    {A : Type ℓ} (o o' : Option A) → (a : A) × (o' ≡ some a) → (a : A) × (or_else o o' ≡ some a)
unfolding or_else
or_else-right none o' r = r
or_else-right (some x) o' r = (x, refl)

pub is_some-true {ℓ} : {A : Type ℓ} (o : Option A) → is_some o ≡ true → (a : A) × (o ≡ some a)
unfolding is_some
is_some-true none e = let no : ⊥ = cc in elim no [ ]
is_some-true (some a) e = (a, refl)

pub true-is_some {ℓ} : {A : Type ℓ} (o : Option A) → (a : A) × (o ≡ some a) → is_some o ≡ true
unfolding is_some
true-is_some none (a, e) = let no : ⊥ = cc in elim no [ ]
true-is_some (some x) (a, e) = refl

pub or-cases : (a b : Bool) → (a || b) ≡ true → (a ≡ true) ⊎ (b ≡ true)
or-cases true b e = inl refl
or-cases false b e = inr e

pub or-left : (a b : Bool) → a ≡ true → (a || b) ≡ true
or-left true b e = refl
or-left false b e = let no : ⊥ = cc in elim no [ ]

pub or-right : (a b : Bool) → b ≡ true → (a || b) ≡ true
or-right true b e = refl
or-right false b e = e

module _ {ℓ} {A : Type ℓ} where
  -- What `match_many` makes of a longer repetition and of stopping here.
  abbrev pub tried : Bool → Bool → Option A → Option A → Option A
  tried greedy here_in more here =
      if here_in then (if greedy then or_else more here else or_else here more) else here

  pub tried-cases :
      (greedy b : Bool) (more here : Option A) (a : A)
      → tried greedy b more here ≡ some a
      → ((b ≡ true) × (more ≡ some a)) ⊎ (here ≡ some a)
  tried-cases greedy false more here a e = inr e
  tried-cases true true more here a e = elim (or_else-cases more here a e) [
    | inl e' ↦ inl (refl, e')
    | inr e' ↦ inr e'
  ]
  tried-cases false true more here a e = elim (or_else-cases here more a e) [
    | inl e' ↦ inr e'
    | inr e' ↦ inl (refl, e')
  ]

  pub tried-here :
      (greedy b : Bool) (more here : Option A)
      → (a : A) × (here ≡ some a)
      → (a : A) × (tried greedy b more here ≡ some a)
  tried-here greedy false more here r = r
  tried-here true true more here r = or_else-right more here r
  tried-here false true more here r = or_else-left here more r

  pub tried-more :
      (greedy b : Bool) (more here : Option A)
      → b ≡ true
      → (a : A) × (more ≡ some a)
      → (a : A) × (tried greedy b more here ≡ some a)
  tried-more greedy false more here e r = let no : ⊥ = cc in elim no [ ]
  tried-more true true more here e r = or_else-left more here r
  tried-more false true more here e r = or_else-right here more r
