-- ===== src/Repository/Sql.antt =====
-- The parts of SQL that the statements of app/internal/repository share.
pub mod Order
use strike_reserve.Base.{ℕ, ◌^◌, Bool, List, [], ◌∷◌, Option, none, some, first, if◌then◌else◌}
use strike_reserve.Db.{Db, Effect, done, violates, no_row}

-- SELECT … scanned into one row.
abbrev pub one_row : {A : Type 0} → Option A → Db → Effect A
one_row none db = no_row
one_row (some a) db = done a db

unfoldable pub select_one : {A : Type 0} → (A → Bool) → List A → Db → Effect A
select_one p rows db = one_row (first p rows) db

-- INSERT … RETURNING
abbrev pub map_effect : {A B : Type 0} → (A → B) → Effect A → Effect B
map_effect f (done a db) = done (f a) db
map_effect f (violates v) = violates v
map_effect f no_row = no_row

abbrev pub returning : {A B : Type 0} → B → Effect A → Effect B
returning b = map_effect (λ _. b)

-- One write after another in the same transaction.
abbrev pub and_then : {A B : Type 0} → Effect A → (Db → Effect B) → Effect B
and_then (done a db) k = k db
and_then (violates v) k = violates v
and_then no_row k = no_row

-- ORDER BY, by a test for "not after". Equal rows keep the order of the table.
pub insert_row : {A : Type 0} → (A → A → Bool) → A → List A → List A
insert_row le a [] = a ∷ []
insert_row le a (b ∷ rows) = if le a b then a ∷ b ∷ rows else b ∷ insert_row le a rows

unfoldable pub order_by : {A : Type 0} → (A → A → Bool) → List A → List A
unfolding insert_row
order_by le [] = []
order_by le (a ∷ rows) = insert_row le a (order_by le rows)

-- The range of bigint, in which LIMIT and OFFSET must lie.
abbrev pub bigint_end : ℕ
bigint_end = 2 ^ 63
