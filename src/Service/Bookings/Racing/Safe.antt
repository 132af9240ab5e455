-- ===== src/Service/Bookings/Racing/Safe.antt =====
-- That interleaved calls of app/internal/service/booking.go leave at most one active booking of a slot.
use strike_reserve.Base.{
  ℕ, ◌≡◌, ◌≢◌, refl, sym, ap, subst, ◌∙◌, Bool, true, false, List, [], ◌∷◌, ◌++◌, map, Option, none,
  some, ◌==◌, ==_iff, Apart, Apart-append_one, Apart-map, any, any-append_one, any-map-false,
  any-map-true, arith, Bool-cases, inl, inr, ◌⊎◌, some_inj, ==_refl, ◌||◌,
}
use strike_reserve.Models.{Booking, Slot}
use strike_reserve.Db.{Db, bookings_clash}
use strike_reserve.Repository.Bookings.{set_cancelled}
use strike_reserve.Repository.Integrity.{set_cancelled-clash}
use strike_reserve.Service.Bookings.Racing.{
  Phase, inserted, made, Site, update, move, with_bookings, pending, finished,
}

pub record Safe (st : Site) : Type 0 where
  pub apart : Apart bookings_clash st.db.bookings
  -- a row that is not committed clashes with no row, committed or not
  pub free :
      (i : ℕ) (b : Booking)
      → pending (st.phase i) ≡ some b
      → any (λ c. bookings_clash c b) st.db.bookings ≡ false
  pub pairs :
      (i j : ℕ) (b c : Booking)
      → i ≢ j
      → pending (st.phase i) ≡ some b
      → pending (st.phase j) ≡ some c
      → bookings_clash b c ≡ false
  -- a booking that was answered is in the table, and is the caller's own
  pub kept :
      (i : ℕ) (b : Booking)
      → finished (st.phase i) ≡ some b
      → any (λ r. r.id == b.id) st.db.bookings ≡ true
  pub own :
      (i j : ℕ) (b c : Booking)
      → i ≢ j
      → finished (st.phase i) ≡ some b
      → finished (st.phase j) ≡ some c
      → (b.id == c.id) ≡ false

-- What a call is at after one call has moved: it is the one, or it has stayed.
pub came_from :
    (f : Phase → Option Booking) (i : ℕ) (p : Phase) (phase : ℕ → Phase) (j : ℕ) (b : Booking)
    → f (update i p phase j) ≡ some b
    → ((j ≡ i) × (f p ≡ some b)) ⊎ ((j ≢ i) × (f (phase j) ≡ some b))
came_from f i p phase j b h = elim (Bool-cases (j == i)) [
  | inl k ↦ inl ((==_iff j i).0 k, rw k at h)
  | inr k ↦ inr (λ e. absurd (cc ((==_iff j i).1 e)), rw k at h)
]

-- A call that moves to neither an insertion nor an answer.
pub stayed :
    (f : Phase → Option Booking) (i : ℕ) (p : Phase) (phase : ℕ → Phase) (j : ℕ) (b : Booking)
    → f p ≡ none
    → f (update i p phase j) ≡ some b
    → f (phase j) ≡ some b
stayed f i p phase j b q h = elim (came_from f i p phase j b h) [
  | inl (e, k) ↦ absurd (cc k)
  | inr (e, k) ↦ k
]

pub Safe-quiet :
    (i : ℕ) (p : Phase) (st : Site)
    → pending p ≡ none
    → finished p ≡ none
    → Safe st
    → Safe (move i p st)
Safe-quiet i p st q r s = record {
  apart = s.apart;
  free = λ j b h. s.free j b (stayed pending i p st.phase j b q h);
  pairs = λ j k b c n h l.
      s.pairs j k b c n (stayed pending i p st.phase j b q h) (stayed pending i p st.phase k c q l);
  kept = λ j b h. s.kept j b (stayed finished i p st.phase j b r h);
  own = λ j k b c n h l.
      s.own j k b c n (stayed finished i p st.phase j b r h) (stayed finished i p st.phase k c r l);
}

clash_sym : (b c : Booking) → bookings_clash b c ≡ bookings_clash c b
clash_sym b c = ground arith

-- The insertion of a row that clashes with nothing.
pub Safe-inserted :
    (i : ℕ) (b : Booking) (s : Slot) (st : Site)
    → any (λ c. bookings_clash c b) st.db.bookings ≡ false
    → ((j : ℕ) (c : Booking) → j ≢ i → pending (st.phase j) ≡ some c → bookings_clash c b ≡ false)
    → Safe st
    → Safe (move i (inserted b s) st)
Safe-inserted i b s st new apart safe = record {
  apart = safe.apart;
  free = λ j c h. elim (came_from pending i (inserted b s) st.phase j c h) [
    | inl (e, k) ↦
        subst (λ x. any (λ d. bookings_clash d x) st.db.bookings ≡ false) (some_inj k) new
    | inr (e, k) ↦ safe.free j c k
  ];
  pairs = λ j k c d n h l.
      both j k c d n (came_from pending i (inserted b s) st.phase j c h)
        (came_from pending i (inserted b s) st.phase k d l);
  kept = λ j c h. safe.kept j c (stayed finished i (inserted b s) st.phase j c refl h);
  own = λ j k c d n h l.
      safe.own j k c d n (stayed finished i (inserted b s) st.phase j c refl h)
        (stayed finished i (inserted b s) st.phase k d refl l);
}
  where
    both :
        (j k : ℕ) (c d : Booking)
        → j ≢ k
        → ((j ≡ i) × (some b ≡ some c)) ⊎ ((j ≢ i) × (pending (st.phase j) ≡ some c))
        → ((k ≡ i) × (some b ≡ some d)) ⊎ ((k ≢ i) × (pending (st.phase k) ≡ some d))
        → bookings_clash c d ≡ false
    both j k c d n (inl (e, p)) (inl (f, q)) = absurd (n (e ∙ sym f))
    both j k c d n (inl (e, p)) (inr (f, q)) =
        subst (λ x. bookings_clash x d ≡ false) (some_inj p) (clash_sym b d ∙ apart k d f q)
    both j k c d n (inr (e, p)) (inl (f, q)) =
        subst (λ x. bookings_clash c x ≡ false) (some_inj q) (apart j c e p)
    both j k c d n (inr (e, p)) (inr (f, q)) = safe.pairs j k c d n p q

-- A row that clashes with none of a table has an identifier of its own.
id-free :
    (b c : Booking) (rows : List Booking)
    → any (λ r. bookings_clash r b) rows ≡ false
    → any (λ r. r.id == c.id) rows ≡ true
    → (b.id == c.id) ≡ false
id-free b c [] h k = cc
id-free b c (r ∷ rows) h k = ground (arith, id-free b c rows)

any_one_more :
    (p : Booking → Bool) (rows : List Booking) (b : Booking)
    → any p rows ≡ true
    → any p (rows ++ b ∷ []) ≡ true
any_one_more p rows b h = rw (any-append_one p rows b, h) refl

any_last :
    (p : Booking → Bool) (rows : List Booking) (b : Booking)
    → p b ≡ true
    → any p (rows ++ b ∷ []) ≡ true
any_last p rows b h = rw (any-append_one p rows b, h) (or_true (any p rows))
  where
    or_true : (x : Bool) → (x || true) ≡ true
    or_true x = ground arith

none_more :
    (p : Booking → Bool) (rows : List Booking) (b : Booking)
    → any p rows ≡ false
    → p b ≡ false
    → any p (rows ++ b ∷ []) ≡ false
none_more p rows b h k = rw (any-append_one p rows b, h, k) refl

id_sym : (b c : Booking) → (b.id == c.id) ≡ (c.id == b.id)
id_sym b c = ground arith

pub Safe-committed :
    (i : ℕ) (b : Booking) (s : Slot) (st : Site)
    → st.phase i ≡ inserted b s
    → Safe st
    → Safe (with_bookings (st.db.bookings ++ b ∷ []) (move i (made b s) st))
Safe-committed i b s st at safe = record {
  apart = Apart-append_one bookings_clash st.db.bookings b safe.apart new;
  free = λ j c h. elim (came_from pending i (made b s) st.phase j c h) [
    | inl (e, k) ↦ absurd (cc k)
    | inr (e, k) ↦
        none_more _ st.db.bookings b (safe.free j c k)
          (safe.pairs i j b c (λ f. absurd (e (sym f))) mine k)
  ];
  pairs = λ j k c d n h l.
      safe.pairs j k c d n (stayed pending i (made b s) st.phase j c refl h)
        (stayed pending i (made b s) st.phase k d refl l);
  kept = λ j c h. elim (came_from finished i (made b s) st.phase j c h) [
    | inl (e, k) ↦
        any_last _ st.db.bookings b (subst (λ x. (b.id == x.id) ≡ true) (some_inj k) (==_refl b.id))
    | inr (e, k) ↦ any_one_more _ st.db.bookings b (safe.kept j c k)
  ];
  own = λ j k c d n h l.
      apart j k c d n (came_from finished i (made b s) st.phase j c h)
        (came_from finished i (made b s) st.phase k d l);
}
  where
    mine : pending (st.phase i) ≡ some b
    mine = ap pending at

    new : any (λ c. bookings_clash c b) st.db.bookings ≡ false
    new = safe.free i b mine

    apart :
        (j k : ℕ) (c d : Booking)
        → j ≢ k
        → ((j ≡ i) × (some b ≡ some c)) ⊎ ((j ≢ i) × (finished (st.phase j) ≡ some c))
        → ((k ≡ i) × (some b ≡ some d)) ⊎ ((k ≢ i) × (finished (st.phase k) ≡ some d))
        → (c.id == d.id) ≡ false
    apart j k c d n (inl (e, p)) (inl (f, q)) = absurd (n (e ∙ sym f))
    apart j k c d n (inl (e, p)) (inr (f, q)) =
        subst (λ x. (x.id == d.id) ≡ false) (some_inj p)
          (id-free b d st.db.bookings new (safe.kept k d q))
    apart j k c d n (inr (e, p)) (inl (f, q)) =
        subst (λ x. (c.id == x.id) ≡ false) (some_inj q)
          (id_sym c b ∙ id-free b c st.db.bookings new (safe.kept j c p))
    apart j k c d n (inr (e, p)) (inr (f, q)) = safe.own j k c d n p q

-- Cancelling makes no clash.
clash-cancel :
    (id : ℕ) (b c : Booking)
    → bookings_clash (set_cancelled id b) c ≡ true
    → bookings_clash b c ≡ true
unfolding set_cancelled
clash-cancel id b c h = ground arith

id-cancel : (id n : ℕ) (b : Booking) → (b.id == n) ≡ true → ((set_cancelled id b).id == n) ≡ true
unfolding set_cancelled
id-cancel id n b h = ground arith

pub Safe-cancelled :
    (id : ℕ) (st : Site) → Safe st → Safe (with_bookings (map (set_cancelled id) st.db.bookings) st)
Safe-cancelled id st safe = record {
  apart =
      Apart-map bookings_clash (set_cancelled id) (set_cancelled-clash id) st.db.bookings
        safe.apart;
  free = λ i b h.
      any-map-false (λ c. bookings_clash c b) (λ c. bookings_clash c b) (set_cancelled id)
        (λ c. clash-cancel id c b) st.db.bookings (safe.free i b h);
  pairs = safe.pairs;
  kept = λ i b h.
      any-map-true (λ r. r.id == b.id) (λ r. r.id == b.id) (set_cancelled id) (id-cancel id b.id)
        st.db.bookings (safe.kept i b h);
  own = safe.own;
}

pub Safe-other :
    (db : Db) (st : Site) → db.bookings ≡ st.db.bookings → Safe st → Safe (record st { db = db })
Safe-other db st e safe = record {
  apart = rw e safe.apart;
  free = λ i b h. rw e (safe.free i b h);
  pairs = safe.pairs;
  kept = λ i b h. rw e (safe.kept i b h);
  own = safe.own;
}
