-- ===== src/Service/Lanes/Sharing/Honest.antt =====
-- When a list that app/internal/service/lane.go has cached offers no slot that
-- app/internal/service/booking.go has given away.
use strike_reserve.Base.{
  Apart, first, ℕ, ◌≡◌, refl, sym, ap, subst, ◌∙◌, true, false, List, none, some, ◌==◌, All,
  All-imp, inl, inr,
}
use strike_reserve.Clock.{midnight}
use strike_reserve.Models.{Slot}
use strike_reserve.Db.{slots_clash}
use strike_reserve.World.{Env, SlotCacheKey}
use strike_reserve.Repository.Slots.{is_booked, available_slots}
use strike_reserve.Service.Availability.{InUtc}
use strike_reserve.Service.Cache.{cache_key}
use strike_reserve.Service.Bookings.Racing.{waiting, made, move}
use strike_reserve.Service.Lanes.Sharing.{
  asked, missed, known, loaded, answered, failed, Shared, Due, with_cache, owe, list_at, Step, hit,
  miss, lane_there, no_lane, load, store, fail, ask, create, cancel, invalidate, elsewhere,
  slots_made, expire, Reach, here, next,
}
use strike_reserve.Service.Lanes.Sharing.Grounded.{
  Grounded-Grown, Grounded-move, Grounded-step, Grounded-tables, insert_slots-Grown,
}
use strike_reserve.Service.Lanes.Sharing.Fair.{
  IsCache, Fair, Fair-mono, Fair-created, Fair-paid, Fair-loaded, Due-owe, Around, cached, held,
  Honest,
}
use strike_reserve.Service.Lanes.Sharing.Holding.{
  NotLoaded, loaded_inj, held_by, All-both, booked-cancelled, Honest-by, Fair-same, Honest-moved,
  Honest-written,
}

-- The key is not deleted while a call holds a list of it, loaded and not stored yet, that offers a
-- slot that is booked.
module _ {C : Type 0} (env : Env C) where
  abbrev pub Timely : (st st' : Shared C) → Step env st st' → Type 0
  Timely _ _ (invalidate st i key h) =
      (j lane_id date : ℕ) (slots : List Slot)
      → st.listing j ≡ loaded lane_id date slots
      → cache_key lane_id date ≡ key
      → All (λ s. is_booked st.site.db.bookings s ≡ false) slots
  Timely _ _ _ = Unit

  abbrev pub AllTimely : (start st : Shared C) → Reach env start st → Type 0
  AllTimely start _ here = Unit
  AllTimely start _ (next r s) = AllTimely start _ r × Timely _ _ s

module _ {C : Type 0} (env : Env C) where
  module _ (cache : IsCache env) (utc : InUtc env) where
    Honest-loaded :
        (st : Shared C) (i lane_id date : ℕ)
        → Honest env st
        → Honest env (
            list_at i (loaded lane_id date (available_slots lane_id (midnight date) st.site.db)) st)
    Honest-loaded st i lane_id date h = record {
      grounded = h.grounded;
      fair = λ key slots a. All-imp _ _ (Fair-same env st _ st.cache key) slots (fair key slots a);
    }
      where
        fair :
            (key : SlotCacheKey) (slots : List Slot)
            → Around env key slots (
                list_at i
                  (loaded lane_id date (available_slots lane_id (midnight date) st.site.db))
                  st)
            → All (Fair env key st) slots
        fair key slots (cached e) = h.fair key slots (cached e)
        fair key slots (held j lane d e k) = elim (held_by i _ st.listing j lane d slots e) [
          | inl x ↦
              let (l, date', list) = loaded_inj x in
              subst (λ xs. All (Fair env key st) xs) list
                (subst
                  (λ y. All (Fair env y st) (available_slots lane_id (midnight date) st.site.db))
                  (ap (λ n. cache_key n date) l ∙ ap (cache_key lane) date' ∙ k)
                  (Fair-loaded env lane_id date st utc h.grounded))
          | inr x ↦ h.fair key slots (held j lane d x k)
        ]

    Honest-invalidated :
        (st : Shared C) (i : ℕ) (key : SlotCacheKey) (owing : st.owed i ≡ some key)
        → Timely env _ _ (invalidate st i key owing)
        → Honest env st
        → Honest env (owe i none (with_cache (env.cache_delete key st.cache) st))
    Honest-invalidated st i k owing timely h = record { grounded = h.grounded; fair = fair }
      where
        c : C
        c = env.cache_delete k st.cache

        fair :
            (key : SlotCacheKey) (slots : List Slot)
            → Around env key slots (owe i none (with_cache c st))
            → All (Fair env key (owe i none (with_cache c st))) slots
        fair key slots (cached e) =
            let (other, before) = cache.deleted k key slots st.cache e in
            All-imp _ _ (λ s f. Fair-paid env key k st i c s owing f (λ e. absurd (other e))) slots
              (h.fair key slots (cached before))
        fair key slots (held j lane_id date e l) =
            All-both _ (λ s. is_booked st.site.db.bookings s ≡ false) _
              (λ s f free. Fair-paid env key k st i c s owing f free) slots
              (h.fair key slots (held j lane_id date e l))
              (λ same. timely j lane_id date slots e (l ∙ same))

    Honest-step :
        (st st' : Shared C) (s : Step env st st')
        → Timely env st st' s
        → Honest env st
        → Honest env st'
    Honest-step _ _ (hit st i lane_id date slots c e f) t h =
        Honest-moved env st i (answered slots) c (λ l d x k. cc k)
          (λ key l k. cached (
            cache.got (cache_key lane_id date) key l st.cache
              (ap (λ x. (env.cache_get key x.1).0) f ∙ k)))
          h
    Honest-step _ _ (miss st i lane_id date c e f) t h =
        Honest-moved env st i (missed lane_id date) c (λ l d x k. cc k)
          (λ key l k. cached (
            cache.got (cache_key lane_id date) key l st.cache
              (ap (λ x. (env.cache_get key x.1).0) f ∙ k)))
          h
    Honest-step _ _ (lane_there st i lane_id date l e f) t h =
        Honest-moved env st i (known lane_id date) st.cache (λ l d x k. cc k) (λ key l k. cached k)
          h
    Honest-step _ _ (no_lane st i lane_id date e f) t h =
        Honest-moved env st i _ st.cache (λ l d x k. cc k) (λ key l k. cached k) h
    Honest-step _ _ (load st i lane_id date e) t h = Honest-loaded st i lane_id date h
    Honest-step _ _ (store st i lane_id date slots e) t h =
        Honest-moved env st i (answered slots) _ (λ l d x k. cc k)
          (λ key l k. elim (cache.set_only (cache_key lane_id date) key slots l st.cache k) [
            | inl (x, y) ↦ held i lane_id date (e ∙ ap (loaded lane_id date) (sym y)) (sym x)
            | inr x ↦ cached x
          ])
          h
    Honest-step _ _ (fail st i e) t h =
        Honest-moved env st i (failed e) st.cache (λ l d x k. cc k) (λ key l k. cached k) h
    Honest-step _ _ (ask st i lane_id date slots e) t h =
        Honest-moved env st i (asked lane_id date) st.cache (λ l d x k. cc k) (λ key l k. cached k)
          h
    Honest-step _ _ (create st i b s e f) t h =
        let there = h.grounded.at_inserted i b s e in
        Honest-written env st _ _
          (Grounded-tables (move i (made b s) st.site) _ refl
            (Grounded-move st.site i (made b s) tt h.grounded))
          (λ key r k. Fair-created env key st i b s _ r f there refl k) h
    Honest-step _ _ (cancel st i id b s e f g) t h =
        Honest-written env st _ _ (Grounded-tables st.site _ refl h.grounded)
          (λ key r k.
            Fair-mono env key st _ r (λ x. x) (booked-cancelled id st.site.db.bookings r)
              (Due-owe key i _ st g) k)
          h
    Honest-step _ _ (invalidate st i key e) t h = Honest-invalidated st i key e t h
    Honest-step _ _ (elsewhere st site e f g) t h =
        Honest-written env st site st.owed (Grounded-step env st.site site e g h.grounded)
          (λ key r k.
            Fair-mono env key st _ r (λ x. ap (first (λ (y : Slot). y.id == r.id)) g ∙ x)
              (λ x. subst (λ bs. is_booked bs r ≡ true) f x) (λ x. x) k)
          h
    Honest-step _ _ (slots_made st slots db e) t h =
        let grown = insert_slots-Grown slots st.site.db db e in
        Honest-written env st _ st.owed (Grounded-Grown st.site db grown h.grounded)
          (λ key r k.
            Fair-mono env key st _ r (grown.found r.id r)
              (λ x. subst (λ bs. is_booked bs r ≡ true) grown.bookings x) (λ x. x) k)
          h
    Honest-step _ _ (expire st c old) t h =
        Honest-by env st (with_cache c st) h.grounded (λ key slots a. expired key slots a)
          (Fair-same env st st.listing c) h
      where
        expired :
            (key : SlotCacheKey) (slots : List Slot)
            → Around env key slots (with_cache c st)
            → Around env key slots st
        expired key slots (cached e) = cached (old key slots e)
        expired key slots (held j lane_id date e k) = held j lane_id date e k

    Honest-reach :
        (start st : Shared C) (r : Reach env start st)
        → AllTimely env start st r
        → Honest env start
        → Honest env st
    Honest-reach start _ here t h = h
    Honest-reach start _ (next {st} {st'} r s) t h =
        Honest-step st st' s t.1 (Honest-reach start st r t.0 h)

-- Before any call: no list is cached or loaded, no call of `Create` has found a slot, and no two
-- slots clash.
module _ {C : Type 0} (env : Env C) where
  pub record Opening (st : Shared C) : Type 0 where
    pub apart : Apart slots_clash st.site.db.slots
    pub not_begun : (i : ℕ) → (user_id slot_id : ℕ) × (st.site.phase i ≡ waiting user_id slot_id)
    pub not_cached : (key : SlotCacheKey) → (env.cache_get key st.cache).0 ≡ none
    pub not_loaded : (i : ℕ) → NotLoaded (st.listing i)

  Opening-Honest : (st : Shared C) → Opening st → Honest env st
  Opening-Honest st o = record {
    grounded = record {
      apart = o.apart;
      at_found = λ i u s h. absurd (cc (sym ((o.not_begun i).2) ∙ h));
      at_inserted = λ i b s h. absurd (cc (sym ((o.not_begun i).2) ∙ h));
    };
    fair = λ key slots a. none_around key slots a;
  }
    where
      none_around :
          (key : SlotCacheKey) (slots : List Slot)
          → Around env key slots st
          → All (Fair env key st) slots
      none_around key slots (cached e) = absurd (cc (sym (o.not_cached key) ∙ e))
      none_around key slots (held i lane_id date e k) = absurd (o.not_loaded i lane_id date slots e)

  -- Lists are asked for while calls of `Create` and `Cancel` are under way, in any order of their
  -- steps, from a state before any call, with a cache that has what was set last or nothing, and in
  -- UTC: where no key is deleted while a call holds a list of it that it loaded before a slot in it
  -- was booked, a list that is cached offers no booked slot, unless a call that has committed has
  -- still to delete the key.
  pub honest_lists :
      (start st : Shared C) (r : Reach env start st) (key : SlotCacheKey) (slots : List Slot)
      → IsCache env
      → InUtc env
      → Opening start
      → AllTimely env start st r
      → (env.cache_get key st.cache).0 ≡ some slots
      → All (λ s. is_booked st.site.db.bookings s ≡ true → Due key st) slots
  honest_lists start st r key slots cache utc o t h =
      let honest = Honest-reach env cache utc start st r t (Opening-Honest start o) in
      All-imp _ _ (λ s f. f.due) slots (honest.fair key slots (cached h))
