-- ===== src/Wrappers/Pointers/Null.antt =====
-- Which of the owning pointers may hold an object.
use onnxruntime_ep_iree.Common.{
  ℕ, ◌≡◌, refl, sym, ◌∙◌, subst, inl, inr, ◌⊎◌, true, false, ◌≢◌, List, [], ◌∷◌, map, Option, none,
  arith, ◌==◌, Bool-cases, In, IsDistinct,
}
use onnxruntime_ep_iree.Factory.State.{find, assign}
use onnxruntime_ep_iree.Wrappers.Totals.{total}
use onnxruntime_ep_iree.Wrappers.Pointers.{
  Pointers, get, reset, construct, move_from, for_output, destroy,
}
use onnxruntime_ep_iree.Wrappers.Pointers.Laws.{owned, get-assign}

abbrev keys : List (ℕ × Option ℕ) → List ℕ
keys vars = map (λ (e : ℕ × Option ℕ). e.0) vars

eq_of : (u v : ℕ) → u == v ≡ true → u ≡ v
eq_of u v e = ground arith

ne_of : (u v : ℕ) → u == v ≡ false → u ≢ v
ne_of u v e = ground arith

keys-assign :
    (v x : ℕ) (p : Option ℕ) (vars : List (ℕ × Option ℕ))
    → In x (keys (assign v p vars))
    → (x ≡ v) ⊎ In x (keys vars)
unfolding assign
keys-assign v x p [] = λ m. m
keys-assign v x p ((u, q) ∷ vars) = elim (Bool-cases (u == v)) [
  | inl e ↦ rw e λ m. elim m [ inl y ↦ inl y | inr n ↦ inr (inr n) ]
  | inr e ↦ rw e λ m. elim m [
    | inl y ↦ inr (inl y)
    | inr n ↦ elim (keys-assign v x p vars n) [ inl y ↦ inl y | inr k ↦ inr (inr k) ]
  ]
]

IsDistinct-assign :
    (v : ℕ) (p : Option ℕ) (vars : List (ℕ × Option ℕ))
    → IsDistinct (keys vars)
    → IsDistinct (keys (assign v p vars))
unfolding assign
IsDistinct-assign v p [] d = ((λ m. m), tt)
IsDistinct-assign v p ((u, q) ∷ vars) d = elim (Bool-cases (u == v)) [
  | inl e ↦ rw e (subst (λ k. ¬ In k (keys vars)) (eq_of u v e) d.0, d.1)
  | inr e ↦ rw e (
    (λ m. elim (keys-assign v u p vars m) [ inl y ↦ ne_of u v e y | inr n ↦ d.0 n ]),
    IsDistinct-assign v p vars d.1,
  )
]

find-absent : (u : ℕ) (vars : List (ℕ × Option ℕ)) → ¬ In u (keys vars) → find u vars ≡ none
unfolding find
find-absent u [] h = refl
find-absent u ((k, p) ∷ vars) h = ground (arith, find-absent u vars)

pub null-owned :
    (b : ℕ) (vars : List (ℕ × Option ℕ))
    → IsDistinct (keys vars)
    → ((u : ℕ) → get u vars ≡ none)
    → owned b vars ≡ 0
unfolding total find
null-owned b [] d h = refl
null-owned b ((k, p) ∷ vars) d h =
    let p_null : p ≡ none = ground (arith, h k) in
    rw p_null (omega (arith, null-owned b vars d.1 rest))
  where
    rest : (u : ℕ) → get u vars ≡ none
    rest u = elim (Bool-cases (k == u)) [
      | inl e ↦ rw (find-absent u vars (subst (λ x. ¬ In x (keys vars)) (eq_of k u e) d.0)) refl
      | inr e ↦ ground (arith, h u)
    ]

-- The variables outside `vs` are null, and no ownership was handed out by `Release`.
pub record Holds (vs : List ℕ) (s : Pointers) : Type 0 where
  pub distinct : IsDistinct (keys s.vars)
  pub null : (u : ℕ) → In u vs ⊎ (get u s.vars ≡ none)
  pub taken : s.taken ≡ []

pub Holds-mono :
    (vs ws : List ℕ) (s : Pointers) → ((u : ℕ) → In u vs → In u ws) → Holds vs s → Holds ws s
Holds-mono vs ws s sub h = record {
  distinct = h.distinct;
  null = λ u. elim (h.null u) [ inl m ↦ inl (sub u m) | inr y ↦ inr y ];
  taken = h.taken;
}

-- The pointer that an assignment leaves in each variable.
null-assign :
    (vs : List ℕ) (v : ℕ) (p : Option ℕ) (vars : List (ℕ × Option ℕ))
    → In v vs ⊎ (p ≡ none)
    → ((u : ℕ) → In u vs ⊎ (get u vars ≡ none))
    → (u : ℕ) → In u vs ⊎ (get u (assign v p vars) ≡ none)
null-assign vs v p vars allowed h u = elim (Bool-cases (v == u)) [
  | inl e ↦ elim allowed [
    | inl m ↦ inl (subst (λ x. In x vs) (eq_of v u e) m)
    | inr y ↦ inr (get-assign u v p vars ∙ rw e y)
  ]
  | inr e ↦ elim (h u) [ inl m ↦ inl m | inr y ↦ inr (get-assign u v p vars ∙ rw e y) ]
]

-- A variable is cleared.
null-clear :
    (vs : List ℕ) (v : ℕ) (vars : List (ℕ × Option ℕ))
    → ((u : ℕ) → In u (v ∷ vs) ⊎ (get u vars ≡ none))
    → (u : ℕ) → In u vs ⊎ (get u (assign v none vars) ≡ none)
null-clear vs v vars h u = elim (Bool-cases (v == u)) [
  | inl e ↦ inr (get-assign u v none vars ∙ rw e refl)
  | inr e ↦ elim (h u) [
    | inl (inl y) ↦ absurd (ne_of v u e (sym y))
    | inl (inr m) ↦ inl m
    | inr y ↦ inr (get-assign u v none vars ∙ rw e y)
  ]
]

module _ (vs : List ℕ) (s : Pointers) where
  pub Holds-destroy : (v : ℕ) → Holds (v ∷ vs) s → Holds vs (destroy v s)
  unfolding destroy reset
  Holds-destroy v h = record {
    distinct = IsDistinct-assign v none s.vars h.distinct;
    null = null-clear vs v s.vars h.null;
    taken = h.taken;
  }

  pub Holds-construct : (v : ℕ) → Holds vs s → Holds (v ∷ vs) (construct v none s)
  unfolding construct reset
  Holds-construct v h = record {
    distinct = IsDistinct-assign v none s.vars h.distinct;
    null =
        null-assign (v ∷ vs) v none s.vars (inl (inl refl))
          λ u. elim (h.null u) [ inl m ↦ inl (inr m) | inr y ↦ inr y ];
    taken = h.taken;
  }

  pub Holds-for_output : (v : ℕ) (p : Option ℕ) → In v vs → Holds vs s → Holds vs (for_output v p s)
  unfolding for_output reset
  Holds-for_output v p m h = record {
    distinct = IsDistinct-assign v p _ (IsDistinct-assign v none s.vars h.distinct);
    null = null-assign vs v p _ (inl m) (null-assign vs v none s.vars (inl m) h.null);
    taken = h.taken;
  }

  pub Holds-move_from : (v other : ℕ) → In v vs → Holds vs s → Holds vs (move_from v other s)
  unfolding move_from reset
  Holds-move_from v other m h = record {
    distinct =
        IsDistinct-assign other none _
          (IsDistinct-assign v _ _ (IsDistinct-assign v none s.vars h.distinct));
    null =
        null-assign vs other none _ (inr refl)
          (null-assign vs v _ _ (inl m) (null-assign vs v none s.vars (inl m) h.null));
    taken = h.taken;
  }
