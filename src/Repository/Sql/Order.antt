-- ===== src/Repository/Sql/Order.antt =====
-- ORDER BY: the rows stay the same, and come in order.
use mathlib.Core.List.{Memᴰ, Permᴰ}
use mathlib.Core.List.Permᴰ
use mathlib.Core.List.Memᴰ
use strike_reserve.Base.{
  ◌≡◌, Bool, true, false, List, [], ◌∷◌, All, All-imp, Bool-cases, inl, inr, length, suc, ap, ◌∙◌,
  refl,
}
use strike_reserve.Repository.Sql.{insert_row, order_by}

module _ {A : Type 0} (le : A → A → Bool) where
  -- Each row may stand before every later one.
  abbrev pub Sorted : List A → Type 0
  Sorted [] = Unit
  Sorted (x ∷ xs) = All (λ y. le x y ≡ true) xs × Sorted xs

  insert_row-All :
      (P : A → Type 0) (x : A) (xs : List A) → P x → All P xs → All P (insert_row le x xs)
  unfolding insert_row
  insert_row-All P x [] p h = (p, tt)
  insert_row-All P x (y ∷ xs) p h = elim (Bool-cases (le x y)) [
    | inl k ↦ rw k (p, h)
    | inr k ↦ rw k (h.0, insert_row-All P x xs p h.1)
  ]

  pub order_by-All : (P : A → Type 0) (xs : List A) → All P xs → All P (order_by le xs)
  unfolding order_by
  order_by-All P [] h = tt
  order_by-All P (x ∷ xs) h = insert_row-All P x (order_by le xs) h.0 (order_by-All P xs h.1)

  Permᴰ-insert_row : (x : A) (xs : List A) → Permᴰ (insert_row le x xs) (x ∷ xs)
  unfolding insert_row
  Permᴰ-insert_row x [] = Permᴰ.refl (x ∷ [])
  Permᴰ-insert_row x (y ∷ xs) = elim (Bool-cases (le x y)) [
    | inl k ↦ rw k (Permᴰ.refl (x ∷ y ∷ xs))
    | inr k ↦ rw k (Permᴰ.trans (Permᴰ.cons refl (Permᴰ-insert_row x xs)) (Permᴰ.swap refl refl))
  ]

  pub Permᴰ-order_by : (xs : List A) → Permᴰ (order_by le xs) xs
  unfolding order_by
  Permᴰ-order_by [] = Permᴰ.refl []
  Permᴰ-order_by (x ∷ xs) =
      Permᴰ.trans (Permᴰ-insert_row x (order_by le xs)) (Permᴰ.cons refl (Permᴰ-order_by xs))

  Memᴰ-insert_row-head : (z x : A) (xs : List A) → z ≡ x → Memᴰ z (insert_row le x xs)
  unfolding insert_row
  Memᴰ-insert_row-head z x [] e = Memᴰ.head e
  Memᴰ-insert_row-head z x (y ∷ xs) e = elim (Bool-cases (le x y)) [
    | inl k ↦ rw k (Memᴰ.head e)
    | inr k ↦ rw k (Memᴰ.tail (Memᴰ-insert_row-head z x xs e))
  ]

  Memᴰ-insert_row : (z x : A) (xs : List A) → Memᴰ z xs → Memᴰ z (insert_row le x xs)
  unfolding insert_row
  Memᴰ-insert_row z x [] m = Memᴰ.tail m
  Memᴰ-insert_row z x (y ∷ xs) m = elim (Bool-cases (le x y)) [
    | inl k ↦ rw k (Memᴰ.tail m)
    | inr k ↦ rw k (elim (Memᴰ.cases_cons m) [
      | inl e ↦ Memᴰ.head e
      | inr n ↦ Memᴰ.tail (Memᴰ-insert_row z x xs n)
    ])
  ]

  pub Memᴰ-order_by : (z : A) (xs : List A) → Memᴰ z xs → Memᴰ z (order_by le xs)
  unfolding order_by
  Memᴰ-order_by z [] m = m
  Memᴰ-order_by z (x ∷ xs) m = elim (Memᴰ.cases_cons m) [
    | inl e ↦ Memᴰ-insert_row-head z x (order_by le xs) e
    | inr n ↦ Memᴰ-insert_row z x (order_by le xs) (Memᴰ-order_by z xs n)
  ]

  length-insert_row : (x : A) (xs : List A) → length (insert_row le x xs) ≡ suc (length xs)
  unfolding insert_row
  length-insert_row x [] = refl
  length-insert_row x (y ∷ xs) = elim (Bool-cases (le x y)) [
    | inl k ↦ rw k refl
    | inr k ↦ rw k (ap suc (length-insert_row x xs))
  ]

  pub length-order_by : (xs : List A) → length (order_by le xs) ≡ length xs
  unfolding order_by
  length-order_by [] = refl
  length-order_by (x ∷ xs) = length-insert_row x (order_by le xs) ∙ ap suc (length-order_by xs)

  module _ (total : (x y : A) → le x y ≡ false → le y x ≡ true)
      (trans : (x y z : A) → le x y ≡ true → le y z ≡ true → le x z ≡ true) where
    insert_row-Sorted : (x : A) (xs : List A) → Sorted xs → Sorted (insert_row le x xs)
    unfolding insert_row
    insert_row-Sorted x [] h = (tt, tt)
    insert_row-Sorted x (y ∷ xs) h = elim (Bool-cases (le x y)) [
      | inl k ↦ rw k ((k, All-imp _ _ (λ z. trans x y z k) xs h.0), h)
      | inr k ↦
          rw k
            (insert_row-All (λ z. le y z ≡ true) x xs (total x y k) h.0, insert_row-Sorted x xs h.1)
    ]

    pub order_by-Sorted : (xs : List A) → Sorted (order_by le xs)
    unfolding order_by
    order_by-Sorted [] = tt
    order_by-Sorted (x ∷ xs) = insert_row-Sorted x (order_by le xs) (order_by-Sorted xs)
