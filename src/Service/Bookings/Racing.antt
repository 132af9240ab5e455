-- ===== src/Service/Bookings/Racing.antt =====
-- Bookings that are made and cancelled at the same time, by app/internal/service/booking.go: the
-- statements of the transactions interleave. A statement sees the rows that are committed; an
-- insertion waits while a row that another transaction has inserted, and not committed yet, has the
-- same key, as READ COMMITTED has it.
pub mod Safe
pub mod Winner
pub mod Alone
use strike_reserve.Base.{
  ℕ, ◌≡◌, ◌≢◌, Bool, false, List, [], ◌∷◌, ◌++◌, map, Option, none, some, ◌==◌, ==_refl, refl,
  if◌then◌else◌,
}
use strike_reserve.Models.{Booking, Slot, active}
use strike_reserve.Errors.{Error, service, slot_not_existing, wrap_db_error, pg_error}
use strike_reserve.Db.{Db, Violation, done, violates, insert_booking, bookings_clash, sql_state}
use strike_reserve.World.{Env}
use strike_reserve.Repository.Bookings.{set_cancelled}
use strike_reserve.Service.Bookings.{or_slot_is_used}
use strike_reserve.Service.Bookings.Create.{find_slot}

-- How far a call of `Create` is.
pub data Phase : Type 0 where
  waiting : (user_id : ℕ) → (slot_id : ℕ) → Phase
  found : (user_id : ℕ) → Slot → Phase
  inserted : Booking → Slot → Phase
  made : Booking → Slot → Phase
  refused : Error → Phase

-- The committed tables, and the calls, by number.
pub record Site : Type 0 where
  pub db : Db
  pub phase : ℕ → Phase

abbrev pub update : {A : Type 0} → ℕ → A → (ℕ → A) → ℕ → A
update i a f j = if j == i then a else f j

pub at_itself : {A : Type 0} (i : ℕ) (a : A) (f : ℕ → A) → update i a f i ≡ a
at_itself i a f = rw (==_refl i) refl

abbrev pub move : ℕ → Phase → Site → Site
move i p st = record st { phase = update i p st.phase }

abbrev pub with_bookings : List Booking → Site → Site
with_bookings bookings st = record st { db = record st.db { bookings = bookings } }

abbrev pub pending : Phase → Option Booking
pending (inserted b s) = some b
pending _ = none

abbrev pub finished : Phase → Option Booking
finished (made b s) = some b
finished _ = none

-- The row that `Create` inserts, with the identifier and the time of the server.
abbrev pub row : ℕ → ℕ → ℕ → Slot → Booking
row id at user_id s = record {
  id = id;
  user_id = user_id;
  slot_id = s.id;
  status = active;
  created_at = at;
}

module _ {C : Type 0} (env : Env C) where
  pub data Step : Site → Site → Type 0 where
    -- GetByID
    find :
        (st : Site) (i user_id slot_id : ℕ) (s : Slot)
        → st.phase i ≡ waiting user_id slot_id
        → find_slot slot_id st.db ≡ some s
        → Step st (move i (found user_id s) st)
    missing :
        (st : Site) (i user_id slot_id : ℕ)
        → st.phase i ≡ waiting user_id slot_id
        → find_slot slot_id st.db ≡ none
        → Step st (move i (refused (service slot_not_existing)) st)
    -- bookingRepo.Create, where no other transaction holds the key
    insert :
        (st : Site) (db : Db) (i id at user_id : ℕ) (s : Slot)
        → st.phase i ≡ found user_id s
        → insert_booking (row id at user_id s) st.db ≡ done tt db
        → ((j : ℕ) (c : Booking)
            → j ≢ i
            → pending (st.phase j) ≡ some c
            → bookings_clash c (row id at user_id s) ≡ false)
        → Step st (move i (inserted (row id at user_id s) s) st)
    used :
        (st : Site) (v : Violation) (i id at user_id : ℕ) (s : Slot)
        → st.phase i ≡ found user_id s
        → insert_booking (row id at user_id s) st.db ≡ violates v
        → Step st (
            move i
              (refused (
                or_slot_is_used
                  (wrap_db_error (pg_error (sql_state v) (env.detail v) (env.message v)))))
              st)
    commit :
        (st : Site) (i : ℕ) (b : Booking) (s : Slot)
        → st.phase i ≡ inserted b s
        → Step st (with_bookings (st.db.bookings ++ b ∷ []) (move i (made b s) st))
    -- a statement or a commit that fails
    fail :
        (st : Site) (i : ℕ) (e : Error)
        → finished (st.phase i) ≡ none
        → Step st (move i (refused e) st)
    -- the commit of `Cancel`
    cancel :
        (st : Site) (id : ℕ) → Step st (with_bookings (map (set_cancelled id) st.db.bookings) st)
    -- what else is written
    other : (st : Site) (db : Db) → db.bookings ≡ st.db.bookings → Step st (record st { db = db })

  pub data Reach (start : Site) : Site → Type 0 where
    here : Reach start start
    next : {st st' : Site} → Reach start st → Step st st' → Reach start st'
