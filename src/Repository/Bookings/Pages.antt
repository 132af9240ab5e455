-- ===== src/Repository/Bookings/Pages.antt =====
-- The pages of `GetList` of app/internal/repository/booking.go, read one after another.
use mathlib.Core.List.{Permᴰ}
use strike_reserve.Base.{
  ℕ, zero, suc, ◌+◌, ◌*◌, ◌%◌, ◌≤◌, ◌<◌, ◌≡◌, refl, sym, ap, ◌∙◌, List, [], ◌∷◌, ◌++◌, none, take,
  drop, length, arith, leb, false,
}
use strike_reserve.Base.Int.{u64_mod}
use strike_reserve.Models.{Booking}
use strike_reserve.Db.{Db, done}
use strike_reserve.World.{Env, World}
use strike_reserve.Exec.{Exec, ok, pure, ◌>>=◌, query, query_rows_unchecked}
use strike_reserve.Repository.Sql.{order_by, bigint_end}
use strike_reserve.Repository.Sql.Order.{Sorted, length-order_by, Permᴰ-order_by, order_by-Sorted}
use strike_reserve.Repository.Bookings.{by_creation, page_of, list_statement, get_list}

-- All bookings in the order of the pages.
abbrev pub ordered : {C : Type 0} → World C → List Booking
ordered w = order_by by_creation w.db.bookings

take-nil : {A : Type 0} (n : ℕ) → take {A = A} n [] ≡ []
take-nil zero = refl
take-nil (suc n) = refl

take-split :
    {A : Type 0} (a b : ℕ) (xs : List A) → take (a + b) xs ≡ take a xs ++ take b (drop a xs)
take-split zero b xs = let e : zero + b ≡ b = omega arith in ap (λ n. take n xs) e
take-split (suc a) b [] = take-nil (suc a + b) ∙ sym (take-nil b)
take-split (suc a) b (x ∷ xs) =
    let e : suc a + b ≡ suc (a + b) = omega arith in
    ap (λ n. take n (x ∷ xs)) e ∙ ap (◌∷◌ x) (take-split a b xs)

take-all : {A : Type 0} (n : ℕ) (xs : List A) → length xs ≤ n → take n xs ≡ xs
take-all zero [] h = refl
take-all zero (x ∷ xs) h = absurd (omega arith)
take-all (suc n) [] h = refl
take-all (suc n) (x ∷ xs) h = ap (◌∷◌ x) (take-all n xs (omega arith))

list_statement-page :
    (size page : ℕ) (db : Db)
    → size < bigint_end
    → page * size < bigint_end
    → list_statement size (page * size % u64_mod) db
      ≡ done (page_of size (page * size) db.bookings) db
unfolding list_statement
list_statement-page size page db h k =
    let e : page * size % u64_mod ≡ page * size = omega arith in
    let small : leb bigint_end size ≡ false = ground arith in
    let near : leb bigint_end (page * size) ≡ false = ground arith in rw (e, small, near) refl

module _ {C : Type 0} (env : Env C) (quiet : (n : ℕ) → env.fault n ≡ none) where
  -- Where the driver does its work and the numbers are in the range of bigint, a page is the cut
  -- of its size out of all bookings, with the number of them all.
  pub get_list_page :
      (size page : ℕ) (w : World C)
      → size < bigint_end
      → page * size < bigint_end
      → get_list env size page w ≡ (
        ok (record {
          bookings = page_of size (page * size) w.db.bookings;
          total = length w.db.bookings;
        }),
        record w { ticks = suc (suc w.ticks) },
      )
  unfolding get_list ◌>>=◌ query query_rows_unchecked
  get_list_page size page w h k =
      rw (quiet w.ticks, quiet (suc w.ticks), list_statement-page size page w.db h k) refl

  -- A client that reads as many pages as it is told, from the first one on.
  pub read_pages : ℕ → ℕ → Exec C (List Booking)
  read_pages size zero = pure []
  read_pages size (suc n) = do
    before ← read_pages size n
    page ← get_list env size n
    pure (before ++ page.bookings)

  read_pages-take :
      (size n : ℕ) (w : World C)
      → size < bigint_end
      → n * size < bigint_end
      → (v : World C) × (v.db ≡ w.db)
        × (read_pages size n w ≡ (ok (take (n * size) (ordered w)), v))
  unfolding read_pages ◌>>=◌ page_of
  read_pages-take size zero w h k =
      let e : zero * size ≡ 0 = omega arith in
      (w, refl, ap (λ m. (ok (take m (ordered w)), w)) (sym e))
  read_pages-take size (suc n) w h k =
      let less : n * size < bigint_end = grind arith in
      let (v, same, run) = read_pages-take size n w h less in
      let more : suc n * size ≡ n * size + size = grind arith in
      let grown : take (n * size) (ordered w) ++ page_of size (n * size) v.db.bookings
          ≡ take (suc n * size) (ordered w) =
        ap (λ (x : Db). take (n * size) (ordered w) ++ page_of size (n * size) x.bookings) same
        ∙ sym (take-split (n * size) size (ordered w))
        ∙ ap (λ m. take m (ordered w)) (sym more) in
      (
        record v { ticks = suc (suc v.ticks) },
        same,
        rw (run, get_list_page size n v h less)
            (ap (λ xs. (ok xs, record v { ticks = suc (suc v.ticks) })) grown),
      )

  -- Where the driver does its work, and the numbers are in the range of bigint, enough pages make
  -- a list of all bookings, each as often as the table has it, by the time of creation and then
  -- the identifier.
  pub read_pages_all :
      (size n : ℕ) (w : World C)
      → size < bigint_end
      → n * size < bigint_end
      → length w.db.bookings ≤ n * size
      → (rows : List Booking) × ((read_pages size n w).0 ≡ ok rows)
        × Permᴰ rows w.db.bookings
        × Sorted by_creation rows
  read_pages_all size n w h k l =
      let (v, same, run) = read_pages-take size n w h k in
      let enough =
        take-all (n * size) (ordered w)
          (omega (arith, length-order_by by_creation w.db.bookings)) in
      (
        ordered w,
        ap (λ x. x.0) run ∙ ap ok enough,
        Permᴰ-order_by by_creation w.db.bookings,
        order_by-Sorted by_creation (λ b c e. ground arith) (λ a b c e f. ground arith)
            w.db.bookings,
      )
