-- ===== src/Closer/Order.antt =====
-- In which order app/internal/closer/closer.go closes, and that it closes once.
use strike_reserve.Base.{
  ℕ, zero, suc, ◌≤◌, ◌≡◌, refl, sym, ap, ◌∙◌, String, true, List, [], ◌∷◌, ◌++◌, append_assoc,
  append-nil, Option, none, some, length, arith, Bool-cases, inl, inr,
}
use strike_reserve.Closer.{CloseFn, Closer, new_closer, add, fn_at, noted, close_down, close_all}

noted-append : (e : Option String) (errs : List String) → noted e errs ≡ errs ++ noted e []
noted-append none errs = sym (append-nil errs)
noted-append (some e) errs = refl

module _ {W : Type 0} where
  -- Each function once, in the order of the list, with all the errors.
  pub run_all : List (CloseFn W) → W → List String × W
  run_all [] w = ([], w)
  run_all (f ∷ fns) w =
      let (e, w') = f.fn w in let (errs, w'') = run_all fns w' in (noted e [] ++ errs, w'')

  pub backwards : List (CloseFn W) → List (CloseFn W)
  backwards [] = []
  backwards (f ∷ fns) = backwards fns ++ f ∷ []

  unfoldable pub add_all : List (CloseFn W) → Closer W → Closer W
  add_all [] c = c
  add_all (f ∷ fns) c = add_all fns (add f.name f.fn c)

  -- The functions before an index, the last first.
  before : ℕ → List (CloseFn W) → List (CloseFn W)
  before zero fns = []
  before (suc n) [] = []
  before (suc n) (f ∷ fns) = before n fns ++ f ∷ []

  before-all : (fns : List (CloseFn W)) → before (length fns) fns ≡ backwards fns
  unfolding before backwards
  before-all [] = refl
  before-all (f ∷ fns) = ap (λ xs. xs ++ f ∷ []) (before-all fns)

  before-step :
      (n : ℕ) (fns : List (CloseFn W))
      → suc n ≤ length fns
      → (f : CloseFn W) × (fn_at n fns ≡ some f) × (before (suc n) fns ≡ f ∷ before n fns)
  unfolding before
  before-step n [] h = absurd (omega arith)
  before-step zero (f ∷ fns) h = (f, refl, refl)
  before-step (suc n) (f ∷ fns) h =
      let (g, at, e) = before-step n fns (omega arith) in (g, at, ap (λ xs. xs ++ f ∷ []) e)

  close_down-next :
      (n : ℕ) (fns : List (CloseFn W)) (errs : List String) (w : W) (f : CloseFn W)
      → fn_at n fns ≡ some f
      → close_down (suc n) fns errs w ≡ close_down n fns (noted (f.fn w).0 errs) (f.fn w).1
  unfolding close_down
  close_down-next n fns errs w f at = rw (at, close_down) refl

  close_down-run_all :
      (n : ℕ) (fns : List (CloseFn W)) (errs : List String) (w : W)
      → n ≤ length fns
      → close_down n fns errs w
        ≡ (some (errs ++ (run_all (before n fns) w).0), (run_all (before n fns) w).1)
  unfolding close_down run_all before
  close_down-run_all zero fns errs w h = ap (λ xs. (some xs, w)) (sym (append-nil errs))
  close_down-run_all (suc n) fns errs w h =
      let (f, at, e) = before-step n fns h in
      let later = run_all (before n fns) (f.fn w).1 in
      let errors : noted (f.fn w).0 errs ++ later.0 ≡ errs ++ (noted (f.fn w).0 [] ++ later.0) =
        ap (λ xs. xs ++ later.0) (noted-append (f.fn w).0 errs)
        ∙ append_assoc errs (noted (f.fn w).0 []) later.0 in
      close_down-next n fns errs w f at
      ∙ close_down-run_all n fns (noted (f.fn w).0 errs) (f.fn w).1 (omega arith)
      ∙ ap (λ xs. (some xs, later.1)) errors
      ∙ ap (λ xs. (some (errs ++ (run_all xs w).0), (run_all xs w).1)) (sym e)

  fns-add_all :
      (fns : List (CloseFn W)) (c : Closer W) → add_all fns c ≡ record c { fns = c.fns ++ fns }
  unfolding add_all add
  fns-add_all [] c = ap (λ xs. record c { fns = xs }) (sym (append-nil c.fns))
  fns-add_all (f ∷ fns) c =
      fns-add_all fns (record c { fns = c.fns ++ f ∷ [] })
      ∙ ap (λ xs. record c { fns = xs }) (append_assoc c.fns (f ∷ []) fns)

  -- Closing what was added closes each of it once, what was added last first, goes on after errors,
  -- returns them all, and no index is out of range.
  pub close_all-backwards :
      (fns : List (CloseFn W)) (w : W)
      → close_all (add_all fns new_closer) w ≡ (
        some (run_all (backwards fns) w).0,
        (record { once = true; fns = [] }, (run_all (backwards fns) w).1),
      )
  unfolding close_all
  close_all-backwards fns w =
      rw
        (
          fns-add_all fns new_closer,
          close_down-run_all (length fns) fns [] w (omega arith),
          before-all fns,
        )
        refl

  once-add_all : (fns : List (CloseFn W)) (c : Closer W) → (add_all fns c).once ≡ c.once
  once-add_all fns c = ap (λ (x : Closer W). x.once) (fns-add_all fns c)

  once-close_all : (c : Closer W) (w : W) → (close_all c w).1.0.once ≡ true
  unfolding close_all
  once-close_all c w = elim (Bool-cases c.once) [ inl k ↦ rw k refl | inr k ↦ rw k refl ]

  close_all-done : (c : Closer W) (w : W) → c.once ≡ true → close_all c w ≡ (some [], (c, w))
  unfolding close_all
  close_all-done c w h = rw h refl

  -- A later call closes nothing and returns nil, also where more was added in between.
  pub close_all_again :
      (c : Closer W) (fns : List (CloseFn W)) (w w' : W)
      → close_all (add_all fns (close_all c w).1.0) w'
        ≡ (some [], (add_all fns (close_all c w).1.0, w'))
  close_all_again c fns w w' =
      close_all-done (add_all fns (close_all c w).1.0) w'
        (once-add_all fns (close_all c w).1.0 ∙ once-close_all c w)
