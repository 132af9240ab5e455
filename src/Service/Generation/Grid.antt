-- ===== src/Service/Generation/Grid.antt =====
-- The loop over a day's working hours, in service/lane.go and service/slot_generator.go, against
-- a description of its result: as many slots as fit, one behind the other.
use strike_reserve.Base.{
  ℕ, zero, suc, ◌+◌, ◌-◌, ◌*◌, ◌/◌, ◌≤◌, ◌<◌, ◌≡◌, refl, ap, List, [], ◌∷◌, arith, length, leb, All,
  Bool-cases, leb→le, inl, inr,
}
use strike_reserve.Models.{Slot}
use strike_reserve.Service.Generation.{Plan, slot_at, slots_until, slots_between}

pub fits_more : (d end t : ℕ) → 0 < d → t + d ≤ end → (end - t) / d ≡ suc ((end - (t + d)) / d)
fits_more d end t h k = grind arith

pub fits_none : (d end t : ℕ) → end < t + d → 0 < d → (end - t) / d ≡ 0
fits_none d end t h k = grind arith

module _ (p : Plan) where
  -- k slots from t on, one behind the other.
  unfoldable pub grid : ℕ → ℕ → ℕ → List Slot
  grid zero n t = []
  grid (suc k) n t = slot_at p n t ∷ grid k (suc n) (t + p.slot_duration)

  pub slots_until-grid :
      (rounds end n t : ℕ)
      → 0 < p.slot_duration
      → end - t < rounds
      → slots_until p rounds end n t ≡ grid ((end - t) / p.slot_duration) n t
  unfolding slots_until grid
  slots_until-grid zero end n t d h = absurd (omega arith)
  slots_until-grid (suc rounds) end n t d h = elim (Bool-cases (leb (t + p.slot_duration) end)) [
    | inl k ↦
        let le = leb→le (t + p.slot_duration) end k in
        rw (k, fits_more p.slot_duration end t d le)
          (ap (◌∷◌ (slot_at p n t))
            (slots_until-grid rounds end (suc n) (t + p.slot_duration) d (omega arith)))
    | inr k ↦ rw (k, fits_none p.slot_duration end t (ground arith) d)
  ]

  -- For a positive slot duration the loop makes exactly the slots that fit between the first and
  -- the last instant, the first at the first instant and each other where the one before it ends.
  pub slots_between-grid :
      (end n t : ℕ)
      → 0 < p.slot_duration
      → slots_between p end n t ≡ grid ((end - t) / p.slot_duration) n t
  unfolding slots_between
  slots_between-grid end n t d = slots_until-grid (suc (end - t)) end n t d (omega arith)

  -- A slot of a grid from t on that ends by `end` lies between the two, and is as long as planned.
  abbrev pub LiesIn : ℕ → ℕ → Slot → Type 0
  LiesIn t end s =
      (t ≤ s.start_time) × (s.end_time ≤ end) × (s.end_time ≡ s.start_time + p.slot_duration)

  grid-LiesIn :
      (k n t from end : ℕ)
      → from ≤ t
      → t + k * p.slot_duration ≤ end
      → All (LiesIn from end) (grid k n t)
  unfolding grid
  grid-LiesIn zero n t from end f h = tt
  grid-LiesIn (suc k) n t from end f h = (
    (f, grind arith, refl),
    grid-LiesIn k (suc n) (t + p.slot_duration) from end (omega arith) (grind arith),
  )

  pub length-grid : (k n t : ℕ) → length (grid k n t) ≡ k
  unfolding grid
  length-grid zero n t = refl
  length-grid (suc k) n t = ap suc (length-grid k (suc n) (t + p.slot_duration))

  -- The slots of one day: none where the hours are too short, all within the hours, each of the
  -- planned length, and so many that another would not fit.
  record DayPlan (end t : ℕ) (slots : List Slot) : Type 0 where
    within : All (LiesIn t end) slots
    maximal : end < t + length slots * p.slot_duration + p.slot_duration

  -- For a positive slot duration, and hours that do not end before they start, the slots of a day
  -- lie within the hours, have the planned length, and are so many that another one behind them
  -- would not fit.
  slots_between-DayPlan :
      (end n t : ℕ) → 0 < p.slot_duration → t ≤ end → DayPlan end t (slots_between p end n t)
  slots_between-DayPlan end n t d h = rw (slots_between-grid end n t d) (record {
    within = grid-LiesIn ((end - t) / p.slot_duration) n t t end (omega arith) (grind arith);
    maximal = rw length-grid (grind arith);
  })

  pub slots_between-LiesIn :
      (end n t : ℕ) → 0 < p.slot_duration → All (LiesIn t end) (slots_between p end n t)
  unfolding grid
  slots_between-LiesIn end n t d = elim (Bool-cases (leb t end)) [
    | inl k ↦ (slots_between-DayPlan end n t d (leb→le t end k)).within
    | inr k ↦
        let none : (end - t) / p.slot_duration ≡ 0 =
          fits_none p.slot_duration end t (ground arith) d in
        rw (slots_between-grid end n t d, none) tt
  ]
