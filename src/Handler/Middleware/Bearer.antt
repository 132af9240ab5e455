-- ===== src/Handler/Middleware/Bearer.antt =====
-- Which Authorization headers app/internal/handler/middlewares.go lets pass with claims.
use strike_reserve.Base.{
  ◌≡◌, ◌≢◌, refl, sym, ap, ◌∙◌, true, List, [], ◌∷◌, ◌++◌, append_assoc, append-nil, Option, some,
  Bool-cases, inl, inr, ◌==◌, ==_iff, arith,
}
use strike_reserve.Models.{Claims}
use strike_reserve.Models.Hms.{Text}
use strike_reserve.Handler.Middleware.{
  split_from, split_space, same_text, bearer, next, admit, check_parts, jwt_middleware,
}

-- The parts again, with a space between each two.
join : List Text → Text
join [] = []
join (part ∷ []) = part
join (part ∷ next_part ∷ parts) = part ++ b' ' ∷ join (next_part ∷ parts)

join-closed :
    (part : Text) (parts : List Text) (text : Text)
    → (join parts ≡ text) × (parts ≢ [])
    → join (part ∷ parts) ≡ part ++ b' ' ∷ text
unfolding join
join-closed part [] text h = absurd (h.1 refl)
join-closed part (p ∷ parts) text h = ap (λ t. part ++ b' ' ∷ t) h.0

join-split_from :
    (part text : Text) → (join (split_from part text) ≡ part ++ text) × (split_from part text ≢ [])
unfolding split_from join
join-split_from part [] = (sym (append-nil part), λ e. cc e)
join-split_from part (c ∷ text) = elim (Bool-cases (c == b' ')) [
  | inl k ↦
      let e : c ≡ b' ' = (==_iff c b' ').0 k in
      rw k (
        join-closed part (split_from [] text) text (join-split_from [] text)
            ∙ ap (λ d. part ++ d ∷ text) (sym e),
        λ f. cc f,
      )
  | inr k ↦
      let (e, f) = join-split_from (part ++ c ∷ []) text in
      rw k (e ∙ append_assoc part (c ∷ []) text, f)
]

same_text-eq : (s t : Text) → same_text s t ≡ true → s ≡ t
same_text-eq [] [] h = refl
same_text-eq [] (d ∷ t) h = absurd (cc h)
same_text-eq (c ∷ s) [] h = absurd (cc h)
same_text-eq (c ∷ s) (d ∷ t) h = ground (arith, same_text-eq s t)

admitted :
    (validate : Text → Option Claims) (token : Text) (claims : Claims)
    → admit (validate token) ≡ next (some claims)
    → validate token ≡ some claims
admitted validate token claims h = ground arith

check_parts_passed :
    (validate : Text → Option Claims) (parts : List Text) (claims : Claims)
    → check_parts validate parts ≡ next (some claims)
    → (token : Text) × (join parts ≡ bearer ++ b' ' ∷ token) × (validate token ≡ some claims)
unfolding join
check_parts_passed validate [] claims h = absurd (cc h)
check_parts_passed validate (scheme ∷ []) claims h = absurd (cc h)
check_parts_passed validate (scheme ∷ token ∷ other ∷ parts) claims h = absurd (cc h)
check_parts_passed validate (scheme ∷ token ∷ []) claims h =
    elim (Bool-cases (same_text scheme bearer)) [
      | inl k ↦ (
        token,
        ap (λ t. t ++ b' ' ∷ token) (same_text-eq scheme bearer k),
        admitted validate token claims (rw k at h),
      )
      | inr k ↦ absurd (ground arith)
    ]

-- A request reaches its handler with claims only where its header is "Bearer", a space and a token
-- for which the service finds these claims.
pub jwt_middleware_passed :
    (validate : Text → Option Claims) (header : Text) (claims : Claims)
    → jwt_middleware validate header ≡ next (some claims)
    → (token : Text) × (header ≡ bearer ++ b' ' ∷ token) × (validate token ≡ some claims)
unfolding jwt_middleware split_space
jwt_middleware_passed validate [] claims h = absurd (cc h)
jwt_middleware_passed validate (c ∷ header) claims h =
    let (token, e, v) = check_parts_passed validate (split_from [] (c ∷ header)) claims h in
    (token, sym (join-split_from [] (c ∷ header)).0 ∙ e, v)
