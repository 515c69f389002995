-- ===== src/Dashboard/Routes/Guarded.antt =====
-- About the bearer guard and the statuses of the routes.
use mathlib.Core.Path.{subst}
use webspider.Prelude.{
  ◌≡◌, ◌≢◌, ◌↔◌, ◌⊎◌, refl, sym, ap, ◌∙◌, arith, Bool, true, false, not, ◌&&◌, Bool-cases, [], ◌∷◌,
  ◌++◌, Text, codes, text_eq, text_eq_iff, if◌then◌else◌, inl, inr,
}
use webspider.Outcome.{ok}
use webspider.Action.{Action, pure}
use webspider.Dashboard.Routes.{Request, Response, failed, starts_with, header, refuses, auth_guard}

starts_with_sound : (p s : Text) → starts_with p s ≡ true → (rest : Text) × (s ≡ p ++ rest)
unfolding starts_with text_eq
starts_with_sound [] s e = (s, refl)
starts_with_sound (c ∷ p) [] e = let no : ⊥ = cc in elim no [ ]
starts_with_sound (c ∷ p) (d ∷ s) e =
    let same : c ≡ d = ground arith in
    let later : starts_with p s ≡ true = ground arith in
    let (rest, e') = starts_with_sound p s later in
    (rest, ap (λ x. x ∷ s) (sym same) ∙ ap (λ (l : Text). c ∷ l) e')

starts_with_complete : (p rest : Text) → starts_with p (p ++ rest) ≡ true
unfolding starts_with text_eq
starts_with_complete [] rest = refl
starts_with_complete (c ∷ p) rest = let ih = starts_with_complete p rest in ground arith

-- A request to an API route without the token that is set.
abbrev pub Unauthorized : Text → Request → Type 0
Unauthorized token request =
    (token ≢ [])
    × ((rest : Text) × (request.path ≡ codes "/api/" ++ rest))
    × (header request.authorization ≢ (codes "Bearer " ++ token))

and_iff : (a b : Bool) → ((a && b) ≡ true) ↔ ((a ≡ true) × (b ≡ true))
and_iff a b = ground arith

not_iff : (b : Bool) → (not b ≡ true) ↔ (b ≡ false)
not_iff b = ground arith

refuses_sound :
    (token : Text) (request : Request) → refuses token request ≡ true → Unauthorized token request
unfolding refuses
refuses_sound [] request e = let no : ⊥ = cc in elim no [ ]
refuses_sound (c ∷ token) request e =
    let (api, other) = (and_iff _ _).0 e in
    let differs = (not_iff _).0 other in
    (
      λ e'. cc,
      starts_with_sound (codes "/api/") request.path api,
      λ same. let equal = (text_eq_iff _ _).1 same in let no : ⊥ = cc in elim no [ ],
    )

refuses_complete :
    (token : Text) (request : Request) → Unauthorized token request → refuses token request ≡ true
unfolding refuses
refuses_complete [] request (set, _, _) = absurd (set refl)
refuses_complete (c ∷ token) request (_, (rest, api), other) = (and_iff _ _).1 (
  subst (λ p. starts_with (codes "/api/") p ≡ true) (sym api)
      (starts_with_complete (codes "/api/") rest),
  (not_iff _).1
      (elim (Bool-cases (text_eq (header request.authorization) (codes "Bearer " ++ (c ∷ token)))) [
        | inl equal ↦ absurd (other ((text_eq_iff _ _).0 equal))
        | inr differs ↦ differs
      ]),
)

-- A request to an API route without the token, where one is set, is answered with 401 and does not
-- reach the route; every other request is left to the route.
pub auth_guard-refuses :
    {W A : Type 0} (token : Text) (request : Request) (call_next : Action W (Response A)) (w : W)
    → (Unauthorized token request × (auth_guard token request call_next w ≡ (ok (failed 401), w)))
      ⊎ ((Unauthorized token request → ⊥) × (auth_guard token request call_next w ≡ call_next w))
unfolding auth_guard pure
auth_guard-refuses token request call_next w = by (refuses token request) refl
  where
    by :
        (b : Bool)
        → refuses token request ≡ b
        → (Unauthorized token request
            × ((if b then pure (failed 401) else call_next) w ≡ (ok (failed 401), w)))
          ⊎ ((Unauthorized token request → ⊥)
              × ((if b then pure (failed 401) else call_next) w ≡ call_next w))
    by true e = inl (refuses_sound token request e, refl)
    by false e =
        inr (λ u. let e' = refuses_complete token request u in let no : ⊥ = cc in elim no [ ], refl)
