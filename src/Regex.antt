-- ===== src/Regex.antt =====
-- What the gate uses of Python's `re`: patterns of characters, repeated characters, alternatives, a
-- word boundary and one group, matched by backtracking in the order in which `re` tries, and the
-- scans of `search`, `findall`, `finditer` and `sub`.
pub mod Choice
pub mod Found
use mathlib.Core.List.{reverse}
use webspider.Prelude.{
  ℕ, zero, suc, ◌-◌, ◌==◌, Bool, true, false, not, ◌&&◌, ◌||◌, List, [], ◌∷◌, ◌++◌, Option, none,
  some, Text, length, take, if◌then◌else◌,
}

-- A pattern. `one` is a character of a class; `many` repeats one, as often as it can (greedy) or as
-- rarely.
pub data Pattern : Type 0 where
  empty : Pattern
  one : (ℕ → Bool) → Pattern
  many : Bool → (ℕ → Bool) → Pattern
  seq : Pattern → Pattern → Pattern
  alt : Pattern → Pattern → Pattern
  boundary : Pattern
  group : Pattern → Pattern

-- A position: the characters before it, the nearest first, those after it, and the length of the
-- text that the group has matched.
pub record Place : Type 0 where
  pub before : Text
  pub rest : Text
  pub captured : ℕ

-- `x+` for a character of a class.
unfoldable pub some_of : (ℕ → Bool) → Pattern
some_of cls = seq (one cls) (many true cls)

-- The first of two results.
unfoldable pub or_else {ℓ} : {A : Type ℓ} → Option A → Option A → Option A
or_else none o = o
or_else (some a) o = some a

abbrev pub at_place : Text → Text → ℕ → Place
at_place before rest captured = record { before = before; rest = rest; captured = captured }

-- The repetitions from a position, each with what follows the pattern.
unfoldable pub match_many :
    Bool → (ℕ → Bool) → Text → Text → ℕ → (Place → Option Place) → Option Place
unfolding or_else
match_many greedy cls before [] n k = k (at_place before [] n)
match_many greedy cls before (c ∷ rest) n k =
    let more = match_many greedy cls (c ∷ before) rest n k in
    let here = k (at_place before (c ∷ rest) n) in
    if cls c then (if greedy then or_else more here else or_else here more) else here

-- `is_word` is `str.isalnum` of a character, or an underscore.
unfoldable pub first_is : (ℕ → Bool) → Text → Bool
first_is is_word [] = false
first_is is_word (c ∷ s) = is_word c

unfoldable pub differ : Bool → Bool → Bool
differ true b = not b
differ false b = b

unfoldable pub at_boundary : (ℕ → Bool) → Place → Bool
unfolding first_is differ
at_boundary is_word p = differ (first_is is_word p.before) (first_is is_word p.rest)

unfoldable pub match_one : (ℕ → Bool) → Text → Text → ℕ → (Place → Option Place) → Option Place
match_one cls before [] n k = none
match_one cls before (c ∷ rest) n k = if cls c then k (at_place (c ∷ before) rest n) else none

-- The place behind a group that began at `p`.
unfoldable pub close_group : Place → Place → Place
close_group p q = record q { captured = length q.before - length p.before }

-- A match of the pattern at a place, and of what follows it.
unfoldable pub match_at : (ℕ → Bool) → Pattern → Place → (Place → Option Place) → Option Place
unfolding match_one match_many at_boundary close_group or_else
match_at is_word empty p k = k p
match_at is_word (one cls) p k = match_one cls p.before p.rest p.captured k
match_at is_word (many greedy cls) p k = match_many greedy cls p.before p.rest p.captured k
match_at is_word (seq r q) p k = match_at is_word r p (λ p'. match_at is_word q p' k)
match_at is_word (alt r q) p k = or_else (match_at is_word r p k) (match_at is_word q p k)
match_at is_word boundary p k = if at_boundary is_word p then k p else none
match_at is_word (group r) p k = match_at is_word r p (λ p'. k (close_group p p'))

unfoldable pub match_here : (ℕ → Bool) → Pattern → Text → Text → Option Place
unfolding match_at
match_here is_word r before rest = match_at is_word r (at_place before rest 0) (λ p. some p)

unfoldable pub is_some {ℓ} : {A : Type ℓ} → Option A → Bool
is_some none = false
is_some (some a) = true

-- `pattern.search(text) is not None`, from a place on.
unfoldable pub found_from : (ℕ → Bool) → Pattern → Text → Text → Bool
unfolding match_here is_some
found_from is_word r before [] = is_some (match_here is_word r before [])
found_from is_word r before (c ∷ rest) =
    is_some (match_here is_word r before (c ∷ rest)) || found_from is_word r (c ∷ before) rest

unfoldable pub is_found : (ℕ → Bool) → Pattern → Text → Bool
unfolding found_from
is_found is_word r text = found_from is_word r [] text

-- What `finditer` gives of a match: `m.group(0)` and the length of `m.group(1)`.
pub record Match : Type 0 where
  pub text : Text
  pub group_length : ℕ

-- The matches of the rest of a text, of which `skip` characters belong to the last match. A pattern
-- that matches the empty text is not used.
unfoldable pub matches_from : (ℕ → Bool) → Pattern → Text → ℕ → Text → List Match
unfolding match_here
matches_from is_word r before skip [] = []
matches_from is_word r before (suc skip) (c ∷ rest) = matches_from is_word r (c ∷ before) skip rest
matches_from is_word r before zero (c ∷ rest) = elim (match_here is_word r before (c ∷ rest)) [
  | none ↦ matches_from is_word r (c ∷ before) zero rest
  | some p ↦
      let n = length p.before - length before in
      record { text = take n (c ∷ rest); group_length = p.captured }
      ∷ matches_from is_word r (c ∷ before) (n - 1) rest
]

unfoldable pub find_all : (ℕ → Bool) → Pattern → Text → List Match
unfolding matches_from
find_all is_word r text = matches_from is_word r [] 0 text

-- `pattern.sub(" ", text)`, in the same way.
unfoldable pub sub_from : (ℕ → Bool) → Pattern → Text → ℕ → Text → Text
unfolding match_here
sub_from is_word r before skip [] = []
sub_from is_word r before (suc skip) (c ∷ rest) = sub_from is_word r (c ∷ before) skip rest
sub_from is_word r before zero (c ∷ rest) = elim (match_here is_word r before (c ∷ rest)) [
  | none ↦ c ∷ sub_from is_word r (c ∷ before) zero rest
  | some p ↦ b' ' ∷ sub_from is_word r (c ∷ before) (length p.before - length before - 1) rest
]

unfoldable pub sub_space : (ℕ → Bool) → Pattern → Text → Text
unfolding sub_from
sub_space is_word r text = sub_from is_word r [] 0 text
