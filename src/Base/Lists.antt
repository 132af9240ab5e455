-- ===== src/Base/Lists.antt =====
-- Lists measured by native numbers, tested, searched and updated by Boolean tests.
use Prim.Native.Nat.{ℕ, zero, suc, ◌+◌}
use mathlib.Core.Path.{◌≡◌, refl}
use mathlib.Core.Bool.{Bool, true, false, ◌||◌}
use mathlib.Core.List.{List, [], ◌∷◌, ◌++◌}
use mathlib.Core.Option.{Option, none, some}
use native.Mathlib.Omega.{arith}
use strike_reserve.Base.Tests.{if◌then◌else◌}

module _ {ℓ} {A : Type ℓ} where
  abbrev pub length : List A → ℕ
  length [] = 0
  length (x ∷ xs) = suc (length xs)

  abbrev pub take : ℕ → List A → List A
  take zero xs = []
  take (suc n) [] = []
  take (suc n) (x ∷ xs) = x ∷ take n xs

  abbrev pub drop : ℕ → List A → List A
  drop zero xs = xs
  drop (suc n) [] = []
  drop (suc n) (x ∷ xs) = drop n xs

  -- Some element passes.
  abbrev pub any : (A → Bool) → List A → Bool
  any p [] = false
  any p (x ∷ xs) = p x || any p xs

  -- The elements that pass, in order.
  abbrev pub select : (A → Bool) → List A → List A
  select p [] = []
  select p (x ∷ xs) = if p x then x ∷ select p xs else select p xs

  -- The first element that passes.
  abbrev pub first : (A → Bool) → List A → Option A
  first p [] = none
  first p (x ∷ xs) = if p x then some x else first p xs

  pub length-append : (xs ys : List A) → length (xs ++ ys) ≡ length xs + length ys
  length-append [] ys = omega arith
  length-append (x ∷ xs) ys = omega (arith, length-append xs ys)

  -- What is found is there.
  pub any-first : (p : A → Bool) (xs : List A) (x : A) → first p xs ≡ some x → any p xs ≡ true
  any-first p [] x h = cc
  any-first p (y ∷ xs) x h = ground (arith, any-first p xs x)

  pub first-any : (p : A → Bool) (xs : List A) → any p xs ≡ false → first p xs ≡ none
  first-any p [] h = refl
  first-any p (y ∷ xs) h = ground (arith, first-any p xs)

  -- It passes the test.
  pub first-passes : (p : A → Bool) (xs : List A) (x : A) → first p xs ≡ some x → p x ≡ true
  first-passes p [] x h = cc
  first-passes p (y ∷ xs) x h = ground (arith, first-passes p xs x)

  -- What is found fails every test that nothing passes.
  pub first-not_any :
      (p q : A → Bool) (xs : List A) (x : A) → first p xs ≡ some x → any q xs ≡ false → q x ≡ false
  first-not_any p q [] x h k = cc
  first-not_any p q (y ∷ xs) x h k = ground (arith, first-not_any p q xs x)

  pub any-first-none : (p : A → Bool) (xs : List A) → first p xs ≡ none → any p xs ≡ false
  any-first-none p [] h = refl
  any-first-none p (y ∷ xs) h = ground (arith, any-first-none p xs)

  -- What is found is found with more behind it too, and what passes behind what does not is found.
  pub first-append :
      (p : A → Bool) (xs ys : List A) (x : A) → first p xs ≡ some x → first p (xs ++ ys) ≡ some x
  first-append p [] ys x h = cc
  first-append p (y ∷ xs) ys x h = ground (arith, first-append p xs ys x)

  pub first-append_one :
      (p : A → Bool) (xs : List A) (x : A)
      → any p xs ≡ false
      → p x ≡ true
      → first p (xs ++ x ∷ []) ≡ some x
  first-append_one p [] x h k = ground arith
  first-append_one p (y ∷ xs) x h k = ground (arith, first-append_one p xs x)
