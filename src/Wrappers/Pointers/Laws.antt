-- ===== src/Wrappers/Pointers/Laws.antt =====
-- The references that the pointers own are released exactly once.
use onnxruntime_ep_iree.Common.{
  ℕ, ◌+◌, ◌≡◌, refl, sym, ap, ◌∙◌, inl, inr, List, [], ◌∷◌, Option, none, some, arith, ◌==◌,
  if◌then◌else◌, tally, Option-cases, Bool-cases,
}
use onnxruntime_ep_iree.Factory.State.{find, assign, find-assign}
use onnxruntime_ep_iree.Wrappers.Totals.{total, weight_of, total-assign}
use onnxruntime_ep_iree.Wrappers.Pointers.{
  Pointers, push, get, reset, construct, move_from, move_assign, release, for_output, destroy,
  destroy_all, Op, construct_op, borrow_op, reset_op, for_output_op, move_construct_op,
  move_assign_op, release_op, destroy_op, run_op, run_ops,
}

-- How often the pointer `b` is owned.
abbrev pub own : ℕ → Option ℕ → ℕ
own b none = 0
own b (some p) = if p == b then 1 else 0

abbrev pub owned : ℕ → List (ℕ × Option ℕ) → ℕ
owned b vars = total (own b) vars

abbrev pub count : ℕ → List ℕ → ℕ
count b xs = tally (λ x. x == b) xs

-- Every reference that came in is owned by a variable, released, or handed out.
abbrev pub Balanced : Pointers → Type 0
Balanced s = (b : ℕ) → count b s.given ≡ count b s.released + count b s.taken + owned b s.vars

count-push : (b : ℕ) (p : Option ℕ) (xs : List ℕ) → count b (push p xs) ≡ own b p + count b xs
unfolding tally
count-push b none xs = omega arith
count-push b (some p) xs = ground arith

own-get :
    (b v : ℕ) (vars : List (ℕ × Option ℕ)) → weight_of (own b) (find v vars) ≡ own b (get v vars)
own-get b v vars = elim (Option-cases (find v vars)) [ inl e ↦ rw e refl | inr (p, e) ↦ rw e refl ]

owned-assign :
    (b v : ℕ) (p : Option ℕ) (vars : List (ℕ × Option ℕ))
    → owned b (assign v p vars) + own b (get v vars) ≡ owned b vars + own b p
owned-assign b v p vars = omega (arith, total-assign (own b) v p vars, own-get b v vars)

pub get-assign :
    (u v : ℕ) (p : Option ℕ) (vars : List (ℕ × Option ℕ))
    → get u (assign v p vars) ≡ (if v == u then p else get u vars)
get-assign u v p vars = ground (arith, find-assign v u p vars)

-- Moving a pointer between two variables, of which the target holds nothing.
owned-move :
    (b v other : ℕ) (vars : List (ℕ × Option ℕ))
    → get v vars ≡ none
    → owned b (assign other none (assign v (get other vars) vars)) ≡ owned b vars
owned-move b v other vars empty =
    let p = get other vars in
    let moved : get other (assign v p vars) ≡ p = ground (arith, get-assign other v p vars) in
    let taken = owned-assign b v p vars in
    let cleared = owned-assign b other none (assign v p vars) in
    omega (arith, rw empty at taken, rw moved at cleared)

reset-Balanced : (v : ℕ) (s : Pointers) → Balanced s → Balanced (reset v none s)
unfolding reset
reset-Balanced v s h =
    λ b. omega (arith, h b, count-push b (get v s.vars) s.released, owned-assign b v none s.vars)

reset-get : (v : ℕ) (s : Pointers) → get v (reset v none s).vars ≡ none
unfolding reset
reset-get v s = ground (arith, get-assign v v none s.vars)

construct-Balanced : (v : ℕ) (p : Option ℕ) (s : Pointers) → Balanced s → Balanced (construct v p s)
unfolding construct reset
construct-Balanced v p s h = λ b. omega (
  arith,
  h b,
  count-push b (get v s.vars) s.released,
  count-push b p s.given,
  owned-assign b v p s.vars,
)

for_output-Balanced :
    (v : ℕ) (p : Option ℕ) (s : Pointers) → Balanced s → Balanced (for_output v p s)
unfolding for_output
for_output-Balanced v p s h = λ b.
    let r = reset v none s in
    let written = owned-assign b v p r.vars in
    omega (arith, reset-Balanced v s h b, count-push b p r.given, rw (reset-get v s) at written)

move_from-Balanced : (v other : ℕ) (s : Pointers) → Balanced s → Balanced (move_from v other s)
unfolding move_from
move_from-Balanced v other s h = λ b.
    reset-Balanced v s h b
    ∙ ap (λ n. count b (reset v none s).released + count b (reset v none s).taken + n)
        (sym (owned-move b v other (reset v none s).vars (reset-get v s)))

release-Balanced : (v : ℕ) (s : Pointers) → Balanced s → Balanced (release v s)
unfolding release
release-Balanced v s h =
    λ b. omega (arith, h b, count-push b (get v s.vars) s.taken, owned-assign b v none s.vars)

run_op-Balanced : (op : Op) (s : Pointers) → Balanced s → Balanced (run_op op s)
unfolding run_op move_assign destroy
run_op-Balanced (construct_op v p) s h = construct-Balanced v p s h
run_op-Balanced (borrow_op v p) s h = construct-Balanced v p s h
run_op-Balanced (reset_op v p) s h = construct-Balanced v p s h
run_op-Balanced (for_output_op v p) s h = for_output-Balanced v p s h
run_op-Balanced (move_construct_op v other) s h = move_from-Balanced v other s h
run_op-Balanced (move_assign_op v other) s h = elim (Bool-cases (v == other)) [
  | inl e ↦ rw e h
  | inr e ↦ rw e (move_from-Balanced v other s h)
]
run_op-Balanced (release_op v) s h = release-Balanced v s h
run_op-Balanced (destroy_op v) s h = reset-Balanced v s h

pub run_ops-Balanced : (ops : List Op) (s : Pointers) → Balanced s → Balanced (run_ops ops s)
unfolding run_ops
run_ops-Balanced [] s h = h
run_ops-Balanced (op ∷ ops) s h = run_ops-Balanced ops (run_op op s) (run_op-Balanced op s h)

count-destroy_all :
    (b : ℕ) (vars : List (ℕ × Option ℕ)) (released : List ℕ)
    → count b (destroy_all vars released) ≡ count b released + owned b vars
unfolding destroy_all total
count-destroy_all b [] released = omega arith
count-destroy_all b ((v, p) ∷ vars) released =
    omega (arith, count-destroy_all b vars (push p released), count-push b p released)

abbrev pub none_yet : Pointers
none_yet = record { vars = []; given = []; released = []; taken = [] }

pub none_yet-Balanced : Balanced none_yet
unfolding total tally
none_yet-Balanced b = refl

-- After any calls on owning pointers, moves from a pointer to itself and repeated resets included,
-- and the end of the scope of all of them, each object has been released exactly as often as
-- ownership of it came in, by a constructor, `Borrow`, `Reset` or an out parameter, less the times
-- that `Release` handed it out.
pub destroy_all-count :
    (ops : List Op) (b : ℕ)
    → let s = run_ops ops none_yet in
      count b (destroy_all s.vars s.released) + count b s.taken ≡ count b s.given
destroy_all-count ops b =
    let s = run_ops ops none_yet in
    omega (
      arith,
      run_ops-Balanced ops none_yet none_yet-Balanced b,
      count-destroy_all b s.vars s.released,
    )
