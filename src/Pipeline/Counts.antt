-- ===== src/Pipeline/Counts.antt =====
-- The dictionaries of counts that a batch fills, as association lists in order of insertion.
use webspider.Prelude.{
  ℕ, suc, ◌+◌, ◌≡◌, refl, arith, List, [], ◌∷◌, Text, text_eq, if◌then◌else◌, Bool-cases, inl, inr,
}

abbrev pub Counts : Type 0
Counts = List (Text × ℕ)

-- `d[k] = d.get(k, 0) + 1`
unfoldable pub bump : Text → Counts → Counts
bump k [] = (k, 1) ∷ []
bump k ((j, n) ∷ d) = if text_eq k j then (j, n + 1) ∷ d else (j, n) ∷ bump k d

-- `sum(d.values())`
unfoldable pub total : Counts → ℕ
total [] = 0
total ((k, n) ∷ d) = n + total d

pub total-bump : (k : Text) (d : Counts) → total (bump k d) ≡ suc (total d)
unfolding total bump
total-bump k [] = refl
total-bump k ((j, n) ∷ d) = elim (Bool-cases (text_eq k j)) [
  | inl e ↦ rw e (omega arith)
  | inr e ↦ rw e (omega (arith, total-bump k d))
]
