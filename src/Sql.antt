-- ===== src/Sql.antt =====
-- SQL statements as the Python code builds them: a text with a placeholder "%s" for each parameter.
pub mod Given
use webspider.Prelude.{
  ℕ, ◌+◌, ◌==◌, Bool, false, ◌&&◌, List, [], ◌∷◌, ◌++◌, Option, none, some, Text, if◌then◌else◌,
}

pub data Param : Type 0 where
  text_param : Text → Param
  number_param : ℕ → Param

pub record Statement : Type 0 where
  pub sql : Text
  pub params : List Param

-- `sep.join(parts)`
unfoldable pub join : Text → List Text → Text
join sep [] = []
join sep (part ∷ []) = part
join sep (part ∷ next ∷ parts) = part ++ (sep ++ join sep (next ∷ parts))

-- The placeholders of a statement; the first argument says that a "%" was just read.
unfoldable pub placeholders_from : Bool → Text → ℕ
placeholders_from percent [] = 0
placeholders_from percent (c ∷ s) =
    let rest = placeholders_from (c == b'%') s in if percent && c == b's' then 1 + rest else rest

unfoldable pub placeholders : Text → ℕ
unfolding placeholders_from
placeholders s = placeholders_from false s

-- A condition of the WHERE clause, and its parameters.
pub record Condition : Type 0 where
  pub sql : Text
  pub params : List Param

unfoldable pub sql_of : List Condition → List Text
sql_of [] = []
sql_of (c ∷ cs) = c.sql ∷ sql_of cs

unfoldable pub params_of : List Condition → List Param
params_of [] = []
params_of (c ∷ cs) = c.params ++ params_of cs

-- `if value:` of a text, which adds a condition.
unfoldable pub where_given : (Text → Condition) → Option Text → List Condition → List Condition
where_given condition none cs = cs
where_given condition (some []) cs = cs
where_given condition (some (c ∷ s)) cs = condition (c ∷ s) ∷ cs
