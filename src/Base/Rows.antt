-- ===== src/Base/Rows.antt =====
-- What holds of every row of a table, and of every two rows of it.
use mathlib.Core.Option.{some}
use mathlib.Core.Bool.{Bool, true, false, ◌||◌}
use mathlib.Core.List.{List, [], ◌∷◌, ◌++◌, map}
use mathlib.Core.Path.{◌≡◌, refl}
use native.Mathlib.Omega.{arith}
use strike_reserve.Base.Lists.{any, first}

module _ {ℓ κ} {A : Type ℓ} (P : A → Type κ) where
  abbrev pub All : List A → Type κ
  All [] = Unit
  All (x ∷ xs) = P x × All xs

  pub All-append : (xs ys : List A) → All xs → All ys → All (xs ++ ys)
  All-append [] ys hx hy = hy
  All-append (x ∷ xs) ys hx hy = (hx.0, All-append xs ys hx.1 hy)

module _ {ℓ κ} {A : Type ℓ} (P Q : A → Type κ) where
  pub All-imp : ((x : A) → P x → Q x) → (xs : List A) → All P xs → All Q xs
  All-imp f [] h = tt
  All-imp f (x ∷ xs) h = (f x h.0, All-imp f xs h.1)

  pub All-map :
      (f : A → A) → ((x : A) → P x → Q (f x)) → (xs : List A) → All P xs → All Q (map f xs)
  All-map f g [] h = tt
  All-map f g (x ∷ xs) h = (g x h.0, All-map f g xs h.1)

module _ {ℓ} {A : Type ℓ} where
  -- No row clashes with a later one.
  abbrev pub Apart : (A → A → Bool) → List A → Type 0
  Apart clash [] = Unit
  Apart clash (x ∷ xs) = (any (clash x) xs ≡ false) × Apart clash xs

  pub any-append_one :
      (p : A → Bool) (xs : List A) (x : A) → any p (xs ++ x ∷ []) ≡ (any p xs || p x)
  any-append_one p [] x = ground arith
  any-append_one p (y ∷ xs) x = ground (arith, any-append_one p xs x)

  pub any-append : (p : A → Bool) (xs ys : List A) → any p (xs ++ ys) ≡ (any p xs || any p ys)
  any-append p [] ys = ground arith
  any-append p (y ∷ xs) ys = ground (arith, any-append p xs ys)

  pub Apart-append_one :
      (clash : A → A → Bool) (xs : List A) (x : A)
      → Apart clash xs
      → any (λ y. clash y x) xs ≡ false
      → Apart clash (xs ++ x ∷ [])
  Apart-append_one clash [] x h e = ground arith
  Apart-append_one clash (y ∷ xs) x h e =
      ground (arith, any-append_one (clash y) xs x, Apart-append_one clash xs x h.1)

  pub any-map-false :
      (p q : A → Bool) (f : A → A)
      → ((x : A) → q (f x) ≡ true → p x ≡ true)
      → (xs : List A) → any p xs ≡ false
      → any q (map f xs) ≡ false
  any-map-false p q f h [] e = refl
  any-map-false p q f h (x ∷ xs) e = ground (arith, h x, any-map-false p q f h xs)

  pub Apart-map :
      (clash : A → A → Bool) (f : A → A)
      → ((x y : A) → clash (f x) (f y) ≡ true → clash x y ≡ true)
      → (xs : List A) → Apart clash xs
      → Apart clash (map f xs)
  Apart-map clash f h [] a = tt
  Apart-map clash f h (x ∷ xs) a =
      (any-map-false (clash x) (clash (f x)) f (h x) xs a.0, Apart-map clash f h xs a.1)

  pub any-map-true :
      (p q : A → Bool) (f : A → A)
      → ((x : A) → p x ≡ true → q (f x) ≡ true)
      → (xs : List A) → any p xs ≡ true
      → any q (map f xs) ≡ true
  any-map-true p q f h [] e = e
  any-map-true p q f h (x ∷ xs) e = ground (arith, h x, any-map-true p q f h xs)

  -- What holds of every row holds of the one that is found.
  pub All-first {κ} :
      (P : A → Type κ) (p : A → Bool) (xs : List A) (x : A) → All P xs → first p xs ≡ some x → P x
  All-first P p [] x h e = cc
  All-first P p (y ∷ xs) x h e = ground (arith, All-first P p xs x h.1)
