-- ===== src/Service/Lanes/Sharing/Grounded.antt =====
-- The slots that calls of app/internal/service/booking.go hold are those of the table, since a slot
-- never changes: app/internal/repository/slot.go only adds slots.
use mathlib.Core.List.{Memᴰ}
use mathlib.Core.List.Memᴰ
use strike_reserve.Base.{
  first-append, ℕ, ◌≡◌, refl, sym, ap, subst, ◌∙◌, Bool, false, List, [], ◌∷◌, some, ◌==◌, ==_iff,
  ==_refl, Apart, Apart-append_one, any, arith, Bool-cases, inl, inr, first, first-passes,
}
use strike_reserve.Models.{Slot, Booking}
use strike_reserve.Db.{Db, done, slots_clash}
use strike_reserve.World.{Env}
use strike_reserve.Repository.Slots.{insert_slots}
use strike_reserve.Repository.Slots.Batch.{
  all, none as refused_batch, with_slots, insert_slot-Outcome, insert_slots-Outcome,
  insert_slot-done,
}
use strike_reserve.Service.Bookings.Create.{find_slot}
use strike_reserve.Service.Bookings.Racing.{
  Phase, Site, Step, move, found, inserted, made, refused, find, missing, insert, used, commit,
  fail, cancel, other, row,
}

-- No two slots clash, and what calls of `Create` have found is in the table.
pub record Grounded (site : Site) : Type 0 where
  pub apart : Apart slots_clash site.db.slots
  pub at_found :
      (i user_id : ℕ) (s : Slot) → site.phase i ≡ found user_id s → find_slot s.id site.db ≡ some s
  pub at_inserted :
      (i : ℕ) (b : Booking) (s : Slot)
      → site.phase i ≡ inserted b s
      → find_slot b.slot_id site.db ≡ some s

any-Memᴰ :
    (p : Slot → Bool) (xs : List Slot) (x : Slot) → any p xs ≡ false → Memᴰ x xs → p x ≡ false
any-Memᴰ p [] x h m = elim m [ ]
any-Memᴰ p (y ∷ xs) x h m = elim (Memᴰ.cases_cons m) [
  | inl e ↦ rw e (ground arith)
  | inr n ↦ any-Memᴰ p xs x (ground arith) n
]

-- A slot is found by its identifier.
pub found-Memᴰ :
    (slots : List Slot) (s : Slot)
    → Apart slots_clash slots
    → Memᴰ s slots
    → first (λ (r : Slot). r.id == s.id) slots ≡ some s
found-Memᴰ [] s a m = elim m [ ]
found-Memᴰ (r ∷ slots) s a m = elim (Memᴰ.cases_cons m) [
  | inl e ↦ rw (ap (λ (x : Slot). x.id == s.id) (sym e) ∙ ==_refl s.id) (ap some (sym e))
  | inr n ↦
      let other = any-Memᴰ (slots_clash r) slots s a.0 n in
      let rest = found-Memᴰ slots s a.1 n in ground arith
]

insert_slots-Apart :
    (slots : List Slot) (db db' : Db)
    → insert_slots slots db ≡ done tt db'
    → Apart slots_clash db.slots
    → Apart slots_clash db'.slots
unfolding insert_slots
insert_slots-Apart [] db db' h a =
    let same : db ≡ db' = cc h in subst (λ (d : Db). Apart slots_clash d.slots) same a
insert_slots-Apart (s ∷ slots) db db' h a = elim (insert_slot-Outcome s db) [
  | refused_batch v e ↦ absurd (cc (rw e at h))
  | all e ↦
      insert_slots-Apart slots (with_slots db (s ∷ [])) db' (rw e at h)
        (Apart-append_one slots_clash db.slots s a (insert_slot-done s db _ e))
]

-- A batch that was saved is the only change, and makes no clash.
pub record Grown (db db' : Db) : Type 0 where
  pub apart : Apart slots_clash db.slots → Apart slots_clash db'.slots
  pub found : (id : ℕ) (s : Slot) → find_slot id db ≡ some s → find_slot id db' ≡ some s
  pub bookings : db'.bookings ≡ db.bookings

pub insert_slots-Grown :
    (slots : List Slot) (db db' : Db) → insert_slots slots db ≡ done tt db' → Grown db db'
insert_slots-Grown slots db db' h = elim (insert_slots-Outcome slots db) [
  | refused_batch v e ↦ absurd (cc (e, h))
  | all e ↦
      let same : with_slots db slots ≡ db' = cc (e, h) in
      record {
        apart = insert_slots-Apart slots db db' h;
        found = λ id s f.
            subst (λ d. find_slot id d ≡ some s) same
              (first-append (λ (r : Slot). r.id == id) db.slots slots s f);
        bookings = ap (λ (d : Db). d.bookings) (sym same);
      }
]

pub Grounded-Grown :
    (st : Site) (db : Db) → Grown st.db db → Grounded st → Grounded (record st { db = db })
Grounded-Grown st db g k = record {
  apart = g.apart k.apart;
  at_found = λ i u s h. g.found s.id s (k.at_found i u s h);
  at_inserted = λ i b s h. g.found b.slot_id s (k.at_inserted i b s h);
}

-- What a phase says of the slots.
abbrev Holds : Phase → Db → Type 0
Holds (found u s) db = find_slot s.id db ≡ some s
Holds (inserted b s) db = find_slot b.slot_id db ≡ some s
Holds _ db = Unit

Holds-at : (st : Site) → Grounded st → (i : ℕ) (p : Phase) → st.phase i ≡ p → Holds p st.db
Holds-at st k i (found u s) h = k.at_found i u s h
Holds-at st k i (inserted b s) h = k.at_inserted i b s h
Holds-at st k i _ h = tt

Grounded-of :
    (st : Site)
    → Apart slots_clash st.db.slots
    → ((i : ℕ) (p : Phase) → st.phase i ≡ p → Holds p st.db)
    → Grounded st
Grounded-of st a h = record {
  apart = a;
  at_found = λ i u s e. h i (found u s) e;
  at_inserted = λ i b s e. h i (inserted b s) e;
}

-- A call moves to a phase that holds.
pub Grounded-move :
    (st : Site) (i : ℕ) (p : Phase) → Holds p st.db → Grounded st → Grounded (move i p st)
Grounded-move st i p h k = Grounded-of (move i p st) k.apart (λ j q e. elim (Bool-cases (j == i)) [
  | inl same ↦ subst (λ x. Holds x st.db) (sym (rw same refl) ∙ e) h
  | inr n ↦ Holds-at st k j q (sym (rw n refl) ∙ e)
])

-- Other tables are written, or bookings.
pub Grounded-tables :
    (st : Site) (db : Db) → db.slots ≡ st.db.slots → Grounded st → Grounded (record st { db = db })
Grounded-tables st db same k = record {
  apart = subst (Apart slots_clash) (sym same) k.apart;
  at_found = λ i u s h. ap (first (λ (r : Slot). r.id == s.id)) same ∙ k.at_found i u s h;
  at_inserted =
      λ i b s h. ap (first (λ (r : Slot). r.id == b.slot_id)) same ∙ k.at_inserted i b s h;
}

module _ {C : Type 0} (env : Env C) where
  -- A step of a call keeps the slots that are held.
  pub Grounded-step :
      (st st' : Site) → Step env st st' → st'.db.slots ≡ st.db.slots → Grounded st → Grounded st'
  Grounded-step _ _ (find st i user_id slot_id s e f) _ k =
      Grounded-move st i (found user_id s)
        (let id =
            (==_iff s.id slot_id).0
              (first-passes (λ (r : Slot). r.id == slot_id) st.db.slots s f) in
          subst (λ n. find_slot n st.db ≡ some s) (sym id) f)
        k
  Grounded-step _ _ (missing st i user_id slot_id e f) _ k = Grounded-move st i _ tt k
  Grounded-step _ _ (insert st db i id at user_id s e f apart) _ k =
      Grounded-move st i (inserted (row id at user_id s) s) (k.at_found i user_id s e) k
  Grounded-step _ _ (used st v i id at user_id s e f) _ k = Grounded-move st i _ tt k
  Grounded-step _ _ (commit st i b s e) _ k =
      Grounded-tables (move i (made b s) st) _ refl (Grounded-move st i (made b s) tt k)
  Grounded-step _ _ (fail st i e f) _ k = Grounded-move st i (refused e) tt k
  Grounded-step _ _ (cancel st id) _ k = Grounded-tables st _ refl k
  Grounded-step _ _ (other st db e) same k = Grounded-tables st db same k
