-- ===== src/RagSearch/Search/Gated.antt =====
-- About the gate in front of a search, and the statement behind it.
use mathlib.Core.Path.{subst}
use native.Mathlib.Omega.{div_any}
use native.Mathlib.Nat.{mod-lt}
use webspider.Prelude.{
  ℕ, ◌+◌, ◌*◌, ◌/◌, ◌≤◌, ◌<◌, ◌≡◌, ◌≢◌, refl, sym, ap, arith, [], ◌∷◌, ◌++◌, List, Option, none,
  some, Text, codes, length,
}
use webspider.Outcome.{Outcome, ok, raise}
use webspider.Sql.{Condition, text_param, number_param, join, placeholders, sql_of, params_of}
use webspider.Sql.Given.{where_given-elim}
use webspider.RagSearch.{Gate, allowed, limited, throttle}
use webspider.RagSearch.Search.{
  Retrieval, Settings, Filters, Searched, ChunkRow, api_search, too_many, failed, found, refused,
  searched_of, retrieve, retrieve_by, source_is, since_is, quality_is, where_quality, conditions,
  search_sql, order_sql, search_statement, past_gate, behind_gate, search_for, query_text,
  semantic_search,
}

where_quality-elim {ℓ} :
    (o : Option ℕ) (cs : List Condition) (P : List Condition → Type ℓ)
    → P cs
    → ((q : ℕ) → P (quality_is q ∷ cs))
    → P (where_quality o cs)
unfolding where_quality
where_quality-elim none cs P out in_front = out
where_quality-elim (some q) cs P out in_front = in_front q

conditions-elim {ℓ} :
    (f : Filters) (P : List Condition → Type ℓ)
    → ((s t : Text) (q : ℕ)
        → P []
          × P (since_is t ∷ [])
          × P (quality_is q ∷ [])
          × P (quality_is q ∷ since_is t ∷ [])
          × P (source_is s ∷ [])
          × P (source_is s ∷ since_is t ∷ [])
          × P (source_is s ∷ quality_is q ∷ [])
          × P (source_is s ∷ quality_is q ∷ since_is t ∷ []))
    → P (conditions f)
unfolding conditions
conditions-elim f P h =
    where_given-elim source_is f.source _ P
      (where_quality-elim f.min_quality _ P
        (where_given-elim since_is f.since [] P (h [] [] 0).0 (λ t. (h [] t 0).1))
        (λ q.
          where_given-elim since_is f.since [] (λ cs. P (quality_is q ∷ cs)) (h [] [] q).2
            (λ t. (h [] t q).3)))
      (λ s.
        where_quality-elim f.min_quality _ (λ cs. P (source_is s ∷ cs))
          (where_given-elim since_is f.since [] (λ cs. P (source_is s ∷ cs)) (h s [] 0).4
            (λ t. (h s t 0).5))
          (λ q.
            where_given-elim since_is f.since [] (λ cs. P (source_is s ∷ quality_is q ∷ cs))
              (h s [] q).6 (λ t. (h s t q).7)))

-- The search has one placeholder for each parameter, whatever filters are given.
search-placeholders :
    (literal : Text) (f : Filters) (k : ℕ)
    → placeholders (search_statement literal f k).sql ≡ length (search_statement literal f k).params
unfolding search_statement placeholders sql_of params_of join
search-placeholders literal f k =
    conditions-elim f
      (λ cs.
        placeholders
          (codes search_sql ++ (join (codes " AND ") (codes "1=1" ∷ sql_of cs) ++ codes order_sql))
        ≡ length (text_param literal ∷ (params_of cs ++ text_param literal ∷ number_param k ∷ [])))
      (λ s t q. (refl, refl, refl, refl, refl, refl, refl, refl))

throttle-limited :
    (period next_ok now wait : ℕ)
    → throttle period next_ok now ≡ limited wait
    → (now + wait ≡ next_ok + period) × (1 ≤ wait)
unfolding throttle
throttle-limited period next_ok now wait e = ground arith

throttle-late :
    (period next_ok now : ℕ)
    → next_ok + period ≤ now
    → throttle period next_ok now ≡ allowed (now + period)
unfolding throttle
throttle-late period next_ok now h = ground arith

-- The seconds of Retry-After are more than the ticks to wait.
seconds-enough : (ticks wait : ℕ) → 0 < ticks → wait ≤ (wait / ticks + 1) * ticks
seconds-enough ticks wait h =
    let parts = div_any wait ticks in let less = mod-lt wait h in omega arith

module _ (rt : Retrieval) (cfg : Settings) (f : Filters) (k : ℕ) where
  retrieve_by-passes :
      (o : Outcome (List rt.Float)) (w : rt.World) (wait : ℕ)
      → (retrieve_by rt cfg f k o w).0 ≢ refused wait
  unfolding retrieve_by retrieve
  retrieve_by-passes (raise e) w wait same = cc
  retrieve_by-passes (ok vec) w wait same = by _ same
    where
      by : (o : Outcome (List ChunkRow)) → searched_of o ≡ refused wait → ⊥
      by (ok rows) same = cc
      by (raise e) same = cc

  -- A search behind an open gate runs, and moves the gate.
  behind_gate-allowed :
      (query : Text) (next next_ok : ℕ) (w : rt.World) (wait : ℕ)
      → ((behind_gate rt cfg (allowed next) query f k next_ok w).1 ≡ next)
        × ((behind_gate rt cfg (allowed next) query f k next_ok w).0 ≢ refused wait)
  unfolding behind_gate past_gate
  behind_gate-allowed query next next_ok w wait = (refl, retrieve_by-passes _ _ wait)

  limited-too_many :
      (ticks wait : ℕ) (n : ℕ) → api_search ticks (refused wait) ≡ too_many n → wait / ticks + 1 ≡ n
  unfolding api_search
  limited-too_many ticks wait n e = cc

  too_many-refused :
      (ticks n : ℕ) (r : Searched)
      → api_search ticks r ≡ too_many n
      → (wait : ℕ) × (r ≡ refused wait)
  unfolding api_search
  too_many-refused ticks n (found rows) e = let no : ⊥ = cc in elim no [ ]
  too_many-refused ticks n (refused wait) e = (wait, refl)
  too_many-refused ticks n (failed x) e = let no : ⊥ = cc in elim no [ ]

  -- Only a query that the gate limits is answered with too many, and it leaves the gate alone.
  behind_gate-too_many :
      (ticks : ℕ) (g : Gate) (query : Text) (next_ok n : ℕ) (w : rt.World)
      → api_search ticks (behind_gate rt cfg g query f k next_ok w).0 ≡ too_many n
      → (wait : ℕ) × (g ≡ limited wait)
        × (wait / ticks + 1 ≡ n)
        × (behind_gate rt cfg g query f k next_ok w ≡ (refused wait, next_ok, w))
  unfolding behind_gate
  behind_gate-too_many ticks (limited wait) query next_ok n w e =
      (wait, refl, limited-too_many ticks wait n e, refl)
  behind_gate-too_many ticks (allowed next) query next_ok n w e =
      let (wait, same) = too_many-refused ticks n (past_gate rt cfg query f k w).0 e in
      absurd ((behind_gate-allowed query next next_ok w wait).1 same)

  search_for-again :
      (ticks : ℕ) (query : Text) (now later next_ok n : ℕ) (w w' : rt.World)
      → 0 < ticks
      → api_search ticks (search_for rt cfg query f k now next_ok w).0 ≡ too_many n
      → now + n * ticks ≤ later
      → ((search_for rt cfg query f k now next_ok w).1 ≡ next_ok)
        × ((search_for rt cfg query f k now next_ok w).2 ≡ w)
        × ((search_for rt cfg query f k later next_ok w').1 ≡ later + cfg.period)
        × ((wait : ℕ) → (search_for rt cfg query f k later next_ok w').0 ≢ refused wait)
  unfolding search_for api_search
  search_for-again ticks [] now later next_ok n w w' h e late = cc
  search_for-again ticks (c ∷ query) now later next_ok n w w' h e late =
      let g = throttle cfg.period next_ok now in
      let (wait, is_limited, rounded, same) =
        behind_gate-too_many ticks g (c ∷ query) next_ok n w e in
      let (due, _) = throttle-limited cfg.period next_ok now wait is_limited in
      let enough = seconds-enough ticks wait h in
      let bound : now + (wait / ticks + 1) * ticks ≤ later =
        subst (λ m. now + m * ticks ≤ later) (sym rounded) late in
      let passes : throttle cfg.period next_ok later ≡ allowed (later + cfg.period) =
        throttle-late cfg.period next_ok later (omega arith) in
      (
        ap (λ r. r.1) same,
        ap (λ r. r.2) same,
        rw passes (behind_gate-allowed (c ∷ query) (later + cfg.period) next_ok w' 0).0,
        λ wait'.
            rw passes (behind_gate-allowed (c ∷ query) (later + cfg.period) next_ok w' wait').1,
      )

  -- A search that is answered with 429 leaves the gate and the world as they were, and the same
  -- search passes the gate once the seconds of its Retry-After have gone by, where no other search
  -- has moved the gate in between.
  pub retry_after-passes :
      (ticks : ℕ) (query : Option Text) (now later next_ok n : ℕ) (w w' : rt.World)
      → 0 < ticks
      → api_search ticks (semantic_search rt cfg query f k now next_ok w).0 ≡ too_many n
      → now + n * ticks ≤ later
      → ((semantic_search rt cfg query f k now next_ok w).1 ≡ next_ok)
        × ((semantic_search rt cfg query f k now next_ok w).2 ≡ w)
        × ((semantic_search rt cfg query f k later next_ok w').1 ≡ later + cfg.period)
        × ((wait : ℕ) → (semantic_search rt cfg query f k later next_ok w').0 ≢ refused wait)
  unfolding semantic_search
  retry_after-passes ticks query now later next_ok n w w' h e late =
      search_for-again ticks (query_text query) now later next_ok n w w' h e late
