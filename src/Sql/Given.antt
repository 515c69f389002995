-- ===== src/Sql/Given.antt =====
-- About conditions that are added where a text is given.
use webspider.Prelude.{◌≡◌, refl, Bool, true, false, List, [], ◌∷◌, Option, none, some, Text}
use webspider.Sql.{Condition, sql_of, where_given}

-- `if value:` of a text.
abbrev pub is_given : Option Text → Bool
is_given none = false
is_given (some []) = false
is_given (some (c ∷ s)) = true

-- The condition is left out or is the first.
pub where_given-elim {ℓ} :
    (condition : Text → Condition) (o : Option Text) (cs : List Condition)
    (P : List Condition → Type ℓ)
    → P cs
    → ((t : Text) → P (condition t ∷ cs))
    → P (where_given condition o cs)
unfolding where_given
where_given-elim condition none cs P out in_front = out
where_given-elim condition (some []) cs P out in_front = out
where_given-elim condition (some (c ∷ s)) cs P out in_front = in_front (c ∷ s)

-- The SQL depends on whether the text is given, where that of the condition is fixed.
pub sql_of-where_given :
    (condition : Text → Condition) (o o' : Option Text) (cs cs' : List Condition)
    → ((t t' : Text) → (condition t).sql ≡ (condition t').sql)
    → is_given o ≡ is_given o'
    → sql_of cs ≡ sql_of cs'
    → sql_of (where_given condition o cs) ≡ sql_of (where_given condition o' cs')
unfolding where_given sql_of
sql_of-where_given condition none none cs cs' fixed e h = h
sql_of-where_given condition none (some []) cs cs' fixed e h = h
sql_of-where_given condition none (some (d ∷ t)) cs cs' fixed e h = let no : ⊥ = cc in elim no [ ]
sql_of-where_given condition (some []) none cs cs' fixed e h = h
sql_of-where_given condition (some []) (some []) cs cs' fixed e h = h
sql_of-where_given condition (some []) (some (d ∷ t)) cs cs' fixed e h =
    let no : ⊥ = cc in elim no [ ]
sql_of-where_given condition (some (c ∷ s)) none cs cs' fixed e h = let no : ⊥ = cc in elim no [ ]
sql_of-where_given condition (some (c ∷ s)) (some []) cs cs' fixed e h =
    let no : ⊥ = cc in elim no [ ]
sql_of-where_given condition (some (c ∷ s)) (some (d ∷ t)) cs cs' fixed e h =
    rw (fixed (c ∷ s) (d ∷ t), h) refl
