-- ===== src/Service/Bookings/Racing/Winner.antt =====
-- Of the calls of app/internal/service/booking.go that race for a slot, at most one gets it.
use strike_reserve.Base.{
  ℕ, ◌≡◌, ◌≢◌, refl, true, false, ◌&&◌, List, [], ◌∷◌, none, some, ◌==◌, Apart, any, arith,
}
use strike_reserve.Models.{Booking, is_active}
use strike_reserve.Db.{Db, done, insert_booking, bookings_clash}
use strike_reserve.World.{Env}
use strike_reserve.Service.Bookings.Racing.{
  found, refused, Site, pending, finished, row, Step, find, missing, insert, used, commit, fail,
  cancel, other, Reach, here, next,
}
use strike_reserve.Service.Bookings.Racing.Safe.{
  Safe, Safe-quiet, Safe-inserted, Safe-committed, Safe-cancelled, Safe-other,
}

clash-inserted :
    (b : Booking) (db db' : Db)
    → insert_booking b db ≡ done tt db'
    → any (λ c. bookings_clash c b) db.bookings ≡ false
unfolding insert_booking
clash-inserted b db db' h = ground arith

-- The booking is in the table and still active.
abbrev pub Holds : Booking → Site → Type 0
Holds b st =
    any (λ r. r.id == b.id && is_active r.status && r.slot_id == b.slot_id) st.db.bookings ≡ true

-- An active row leaves no active row of its slot behind it.
shadowed :
    (r c : Booking) (rows : List Booking)
    → any (bookings_clash r) rows ≡ false
    → is_active r.status ≡ true
    → r.slot_id ≡ c.slot_id
    → any (λ x. x.id == c.id && is_active x.status && x.slot_id == c.slot_id) rows ≡ false
shadowed r c [] h k e = refl
shadowed r c (x ∷ rows) h k e = ground (arith, shadowed r c rows)

holders :
    (b c : Booking) (rows : List Booking)
    → Apart bookings_clash rows
    → (b.id == c.id) ≡ false
    → any (λ r. r.id == b.id && is_active r.status && r.slot_id == b.slot_id) rows ≡ true
    → any (λ r. r.id == c.id && is_active r.status && r.slot_id == c.slot_id) rows ≡ true
    → b.slot_id ≢ c.slot_id
holders b c [] a n h k e = cc h
holders b c (r ∷ rows) a n h k e =
    ground (arith, shadowed r b rows, shadowed r c rows, holders b c rows a.1)

-- Calls that have not begun.
pub record Fresh (st : Site) : Type 0 where
  pub apart : Apart bookings_clash st.db.bookings
  pub not_pending : (i : ℕ) → pending (st.phase i) ≡ none
  pub not_finished : (i : ℕ) → finished (st.phase i) ≡ none

Fresh-Safe : (st : Site) → Fresh st → Safe st
Fresh-Safe st f = record {
  apart = f.apart;
  free = λ i b h. absurd (cc (f.not_pending i));
  pairs = λ i j b c n h k. absurd (cc (f.not_pending i));
  kept = λ i b h. absurd (cc (f.not_finished i));
  own = λ i j b c n h k. absurd (cc (f.not_finished i));
}

module _ {C : Type 0} (env : Env C) where
  Safe-step : (st st' : Site) → Step env st st' → Safe st → Safe st'
  Safe-step _ _ (find st i user_id slot_id s e f) safe =
      Safe-quiet i (found user_id s) st refl refl safe
  Safe-step _ _ (missing st i user_id slot_id e f) safe = Safe-quiet i _ st refl refl safe
  Safe-step _ _ (insert st db i id at user_id s e f apart) safe =
      Safe-inserted i (row id at user_id s) s st (clash-inserted (row id at user_id s) st.db db f)
        apart safe
  Safe-step _ _ (used st v i id at user_id s e f) safe = Safe-quiet i _ st refl refl safe
  Safe-step _ _ (commit st i b s e) safe = Safe-committed i b s st e safe
  Safe-step _ _ (fail st i e f) safe = Safe-quiet i (refused e) st refl refl safe
  Safe-step _ _ (cancel st id) safe = Safe-cancelled id st safe
  Safe-step _ _ (other st db e) safe = Safe-other db st e safe

  Safe-reach : (start st : Site) → Safe start → Reach env start st → Safe st
  Safe-reach start st safe here = safe
  Safe-reach start st safe (next r s) = Safe-step _ _ s (Safe-reach start _ safe r)

  -- In every state that interleaved calls of `Create` and `Cancel` reach, from one in which no call
  -- has begun and no two rows clash, no two rows clash: identifiers are unique, and a slot has one
  -- active booking at most.
  pub racing-Apart :
      (start st : Site) → Fresh start → Reach env start st → Apart bookings_clash st.db.bookings
  racing-Apart start st f r = (Safe-reach start st (Fresh-Safe start f) r).apart

  -- In a state that interleaved calls of `Create` and `Cancel` reach, from one in which no call has
  -- begun and no two rows clash: two calls of `Create` that have answered with bookings that are both
  -- still active have answered with bookings of different slots.
  pub racing_winner :
      (start st : Site) (i j : ℕ) (b c : Booking)
      → Fresh start
      → Reach env start st
      → i ≢ j
      → finished (st.phase i) ≡ some b
      → finished (st.phase j) ≡ some c
      → Holds b st
      → Holds c st
      → b.slot_id ≢ c.slot_id
  racing_winner start st i j b c f r n h k hb hc =
      let safe = Safe-reach start st (Fresh-Safe start f) r in
      holders b c st.db.bookings safe.apart (safe.own i j b c n h k) hb hc
