-- ===== src/Service/Generation/Rounds.antt =====
-- The loop `for t := curStart; !t.Add(d).After(curEnd); t = t.Add(d)` of service/lane.go and
-- service/slot_generator.go, without a bound on its rounds: when it comes to an end.
use strike_reserve.Base.{
  ℕ, zero, suc, ◌+◌, ◌-◌, ◌/◌, ◌≤◌, ◌<◌, ◌≡◌, refl, ap, ◌∙◌, arith, length, inl, inr, ◌⊎◌, subst,
  sym,
}
use strike_reserve.Service.Generation.{Plan, slots_until}
use strike_reserve.Service.Generation.Grid.{slots_until-grid, length-grid, fits_more, fits_none}

-- From t the loop ends after n rounds, with slots of length d up to `end`.
pub data Halts (d end : ℕ) : ℕ → ℕ → Type 0 where
  exit : {t : ℕ} → end < t + d → Halts d end t 0
  round : {t n : ℕ} → t + d ≤ end → Halts d end (t + d) n → Halts d end t (suc n)

le_or_gt : (a b : ℕ) → (a ≤ b) ⊎ (b < a)
le_or_gt a b = ground arith

-- Fuel for the induction: the distance to the end.
Halts-quotient : (fuel d end t : ℕ) → 0 < d → end - t < fuel → Halts d end t ((end - t) / d)
Halts-quotient zero d end t h k = absurd (omega arith)
Halts-quotient (suc fuel) d end t h k = elim (le_or_gt (t + d) end) [
  | inl le ↦
      rw (fits_more d end t h le) (round le (Halts-quotient fuel d end (t + d) h (omega arith)))
  | inr gt ↦ rw (fits_none d end t gt h) (exit gt)
]

-- A loop takes one number of rounds only.
Halts-unique : (d end t n m : ℕ) → Halts d end t n → Halts d end t m → n ≡ m
Halts-unique d end t n m (exit e) (exit f) = refl
Halts-unique d end t n m (exit e) (round f k) = absurd (omega arith)
Halts-unique d end t n m (round e h) (exit f) = absurd (omega arith)
Halts-unique d end t n m (round e h) (round f k) = ap suc (Halts-unique d end _ _ _ h k)

-- A step of no length never comes past the end.
never : (d end t n : ℕ) → d ≡ 0 → t ≤ end → Halts d end t n → ⊥
never d end t n z h (exit e) = omega arith
never d end t n z h (round e k) = never d end _ _ z (omega arith) k

module _ (p : Plan) where
  -- For slots of a positive length the loop ends, from any instant, in as many rounds as the
  -- bounded loop of the model makes slots, given more rounds than there are nanoseconds left; and
  -- these are the quotient of the time that is left by the length.
  pub slots_until-Halts :
      (rounds end n t : ℕ)
      → 0 < p.slot_duration
      → end - t < rounds
      → Halts p.slot_duration end t (length (slots_until p rounds end n t))
        × (length (slots_until p rounds end n t) ≡ (end - t) / p.slot_duration)
  slots_until-Halts rounds end n t h k =
      let ends = Halts-quotient rounds p.slot_duration end t h k in
      let size : length (slots_until p rounds end n t) ≡ (end - t) / p.slot_duration =
        ap length (slots_until-grid p rounds end n t h k) ∙ length-grid p _ n t in
      (subst (Halts p.slot_duration end t) (sym size) ends, size)

-- For slots of no length the loop does not end, wherever it starts before the end of the hours.
pub endless_loop : (end t n : ℕ) → t ≤ end → Halts 0 end t n → ⊥
endless_loop end t n h k = never 0 end t n refl h k
