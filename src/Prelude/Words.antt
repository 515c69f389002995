-- ===== src/Prelude/Words.antt =====
-- Texts as lists of code points, their equality test, and membership in a list by a test.
use Prim.Native.Nat.{ℕ}
use Prim.Native.Char.{code}
use Prim.Native.String.{String}
use mathlib.Core.Path.{◌≡◌, refl}
use mathlib.Core.Logic.{◌↔◌}
use mathlib.Core.Bool.{Bool, true, false, ◌&&◌, ◌||◌}
use mathlib.Core.List.{List, [], ◌∷◌, ◌++◌}
use native.Mathlib.Omega.{arith}
use webspider.Prelude.Tests.{◌==◌}

abbrev pub Text : Type 0
Text = List ℕ

-- The code points of a literal.
abbrev pub codes : String → Text
codes String.[] = []
codes (String.◌∷◌ c s) = code c ∷ codes s

unfoldable pub text_eq : Text → Text → Bool
text_eq [] [] = true
text_eq [] (d ∷ t) = false
text_eq (c ∷ s) [] = false
text_eq (c ∷ s) (d ∷ t) = c == d && text_eq s t

pub text_eq_refl : (s : Text) → text_eq s s ≡ true
unfolding text_eq
text_eq_refl [] = refl
text_eq_refl (c ∷ s) = ground (arith, text_eq_refl s)

pub eq_of_text_eq : (s t : Text) → text_eq s t ≡ true → s ≡ t
unfolding text_eq
eq_of_text_eq [] [] h = refl
eq_of_text_eq [] (d ∷ t) h = ground arith
eq_of_text_eq (c ∷ s) [] h = ground arith
eq_of_text_eq (c ∷ s) (d ∷ t) h = ground (arith, eq_of_text_eq s t)

text_eq_of_eq : (s t : Text) → s ≡ t → text_eq s t ≡ true
text_eq_of_eq s t e = rw e (text_eq_refl t)

pub text_eq_iff : (s t : Text) → (text_eq s t ≡ true) ↔ (s ≡ t)
text_eq_iff s t = (eq_of_text_eq s t, text_eq_of_eq s t)

-- `x in xs`
unfoldable pub elem : ℕ → List ℕ → Bool
elem x [] = false
elem x (y ∷ ys) = x == y || elem x ys

unfoldable pub text_elem : Text → List Text → Bool
unfolding text_eq
text_elem x [] = false
text_elem x (y ∷ ys) = text_eq x y || text_elem x ys

pub text_elem-append :
    (x : Text) (s t : List Text) → text_elem x (s ++ t) ≡ text_elem x s || text_elem x t
unfolding text_elem
text_elem-append x [] t = refl
text_elem-append x (y ∷ s) t = ground (arith, text_elem-append x s t)
