-- ===== src/Wrappers/Totals.antt =====
-- Sums over the variables of a map, and how an assignment changes them.
use onnxruntime_ep_iree.Common.{
  ℕ, ◌+◌, ◌≡◌, inl, inr, List, [], ◌∷◌, Option, none, some, arith, ◌==◌, Bool-cases,
}
use onnxruntime_ep_iree.Factory.State.{find, assign}

module _ {V : Type 0} (weight : V → ℕ) where
  unfoldable pub total : List (ℕ × V) → ℕ
  total [] = 0
  total ((v, x) ∷ vars) = weight x + total vars

  -- The weight of a variable that may not be there.
  abbrev pub weight_of : Option V → ℕ
  weight_of none = 0
  weight_of (some x) = weight x

  pub total-assign :
      (v : ℕ) (x : V) (vars : List (ℕ × V))
      → total (assign v x vars) + weight_of (find v vars) ≡ total vars + weight x
  unfolding find assign total
  total-assign v x [] = omega arith
  total-assign v x ((u, y) ∷ vars) = elim (Bool-cases (u == v)) [
    | inl e ↦ rw e (omega arith)
    | inr e ↦ rw e (omega (arith, total-assign v x vars))
  ]
