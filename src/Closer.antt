-- ===== src/Closer.antt =====
-- app/internal/closer/closer.go: what is to be closed at the end, and closing it. The mutex only keeps
-- concurrent calls apart; calls come one after another here.
pub mod Order
use strike_reserve.Base.{
  ℕ, zero, suc, String, Bool, true, false, List, [], ◌∷◌, ◌++◌, Option, none, some, length,
  if◌then◌else◌,
}

-- closeFn: closing changes the outside, and may fail.
pub record CloseFn (W : Type 0) : Type 0 where
  pub name : String
  pub fn : W → Option String × W

-- `once` is whether sync.Once has run.
pub record Closer (W : Type 0) : Type 0 where
  pub once : Bool
  pub fns : List (CloseFn W)

-- if err != nil { errs = append(errs, err) }
abbrev pub noted : Option String → List String → List String
noted none errs = errs
noted (some e) errs = errs ++ e ∷ []

module _ {W : Type 0} where
  -- New
  abbrev pub new_closer : Closer W
  new_closer = record { once = false; fns = [] }

  -- Add
  unfoldable pub add : String → (W → Option String × W) → Closer W → Closer W
  add name fn c = record c { fns = c.fns ++ (record { name = name; fn = fn }) ∷ [] }

  -- fns[i]; `none` is the panic out of range.
  abbrev pub fn_at : ℕ → List (CloseFn W) → Option (CloseFn W)
  fn_at n [] = none
  fn_at zero (f ∷ fns) = some f
  fn_at (suc n) (f ∷ fns) = fn_at n fns

  -- The loop from i - 1 down to 0, with the errors so far; `none` is a panic.
  unfoldable pub close_down : ℕ → List (CloseFn W) → List String → W → Option (List String) × W
  close_down zero fns errs w = (some errs, w)
  close_down (suc i) fns errs w = elim (fn_at i fns) [
    | none ↦ (none, w)
    | some f ↦ close_down i fns (noted (f.fn w).0 errs) (f.fn w).1
  ]

  -- CloseAll: the errors that are joined (nil where there is none), the closer and the outside.
  unfoldable pub close_all : Closer W → W → Option (List String) × (Closer W × W)
  unfolding close_down
  close_all c w =
      let (errs, w') = close_down (length c.fns) c.fns [] w in
      if c.once then (some [], (c, w)) else (errs, (record { once = true; fns = [] }, w'))
