-- ===== src/Wrappers/Allocated/Laws.antt =====
-- Every block is freed once, with the allocator that it came from.
use onnxruntime_ep_iree.Common.{
  ℕ, ◌+◌, ◌≡◌, refl, inl, inr, Bool, List, [], ◌∷◌, Option, none, some, arith, ◌==◌, if◌then◌else◌,
  tally, Option-cases, Bool-cases,
}
use onnxruntime_ep_iree.Factory.State.{find, assign, find-assign}
use onnxruntime_ep_iree.Wrappers.Totals.{total, weight_of, total-assign}
use onnxruntime_ep_iree.Wrappers.Pointers.{push}
use onnxruntime_ep_iree.Wrappers.Allocated.{
  Allocated, Memory, block, held, empty, replace, construct, moved, move_from, move_assign,
  output_to, for_output, destroy, destroy_all, Op, construct_op, move_construct_op, move_assign_op,
  for_output_op, destroy_op, run_op, run_ops,
}

module _ (t : ℕ × ℕ → Bool) where
  -- Whether it is a block that passes the test.
  abbrev own_block : Option (ℕ × ℕ) → ℕ
  own_block none = 0
  own_block (some b) = if t b then 1 else 0

  abbrev pub own : Allocated → ℕ
  own a = own_block (block a)

  -- Every block that passes the test and was allocated is freed or held by a variable.
  abbrev pub Balanced : Memory → Type 0
  Balanced s = tally t s.given ≡ tally t s.freed + total own s.vars

  tally-push :
      (b : Option (ℕ × ℕ)) (xs : List (ℕ × ℕ)) → tally t (push b xs) ≡ own_block b + tally t xs
  unfolding tally
  tally-push none xs = omega arith
  tally-push (some b) xs = ground arith

  own_block-held : (o : Option Allocated) → own_block (held o) ≡ weight_of own o
  own_block-held none = refl
  own_block-held (some a) = refl

  -- What a variable holds is freed, and the new value adds its own.
  replace-total :
      (v : ℕ) (a : Allocated) (s : Memory)
      → let r = replace v a s in
        tally t r.freed + total own r.vars ≡ tally t s.freed + total own s.vars + own a
  unfolding replace
  replace-total v a s = omega (
    arith,
    tally-push (held (find v s.vars)) s.freed,
    own_block-held (find v s.vars),
    total-assign own v a s.vars,
  )

  moved-Balanced :
      (v other : ℕ) (o : Option Allocated) (s : Memory)
      → find other s.vars ≡ o
      → Balanced s
      → Balanced (moved v other o s)
  unfolding moved replace
  moved-Balanced v other none s e h = h
  moved-Balanced v other (some a) s e h =
      let found : find other (assign v a s.vars) ≡ some a =
        ground (arith, find-assign v other a s.vars, e) in
      let cleared = total-assign own other (empty a.allocator) (assign v a s.vars) in
      let taken = replace-total v a s in omega (arith, h, taken, rw found at cleared)

  output_to-Balanced :
      (v : ℕ) (p : Option ℕ) (o : Option Allocated) (s : Memory)
      → Balanced s
      → Balanced (output_to v p o s)
  unfolding output_to replace
  output_to-Balanced v p none s h = h
  output_to-Balanced v p (some a) s h =
      let written : Allocated = record { allocator = a.allocator; ptr = p } in
      let taken = replace-total v written s in
      omega (arith, h, taken, tally-push (block written) s.given)

  destroy-Balanced : (v : ℕ) (s : Memory) → Balanced s → Balanced (destroy v s)
  unfolding destroy replace
  destroy-Balanced v s h = elim (Option-cases (find v s.vars)) [
    | inl e ↦ rw (e, destroy) h
    | inr (a, e) ↦
        let taken = replace-total v (empty a.allocator) s in
        rw (e, destroy) (omega (arith, h, rw e at taken))
  ]

  construct-Balanced :
      (v allocator : ℕ) (s : Memory) → Balanced s → Balanced (construct v allocator s)
  unfolding construct replace
  construct-Balanced v allocator s h =
      let taken = replace-total v (empty allocator) s in omega (arith, h, taken)

  move_from-Balanced : (v other : ℕ) (s : Memory) → Balanced s → Balanced (move_from v other s)
  unfolding move_from
  move_from-Balanced v other s h = moved-Balanced v other (find other s.vars) s refl h

  run_op-Balanced : (op : Op) (s : Memory) → Balanced s → Balanced (run_op op s)
  unfolding run_op move_assign for_output
  run_op-Balanced (construct_op v allocator) s h = construct-Balanced v allocator s h
  run_op-Balanced (move_construct_op v other) s h = move_from-Balanced v other s h
  run_op-Balanced (move_assign_op v other) s h = elim (Bool-cases (v == other)) [
    | inl e ↦ rw e h
    | inr e ↦ rw e (move_from-Balanced v other s h)
  ]
  run_op-Balanced (for_output_op v p) s h = output_to-Balanced v p (find v s.vars) s h
  run_op-Balanced (destroy_op v) s h = destroy-Balanced v s h

  run_ops-Balanced : (ops : List Op) (s : Memory) → Balanced s → Balanced (run_ops ops s)
  unfolding run_ops
  run_ops-Balanced [] s h = h
  run_ops-Balanced (op ∷ ops) s h = run_ops-Balanced ops (run_op op s) (run_op-Balanced op s h)

  tally-destroy_all :
      (vars : List (ℕ × Allocated)) (freed : List (ℕ × ℕ))
      → tally t (destroy_all vars freed) ≡ tally t freed + total own vars
  unfolding destroy_all total
  tally-destroy_all [] freed = omega arith
  tally-destroy_all ((v, a) ∷ vars) freed =
      omega (arith, tally-destroy_all vars (push (block a) freed), tally-push (block a) freed)

  no_memory-Balanced : Balanced (record { vars = []; given = []; freed = [] })
  unfolding total tally
  no_memory-Balanced = refl

  -- After any calls on `IreeAllocatedPtr` variables and the end of their scope, the blocks that were
  -- freed are those that were allocated, each as often, and each with the allocator that it came
  -- from, also where the pointers were moved: for every test on allocator and address, equally many
  -- freed and allocated blocks pass it.
  pub destroy_all-tally :
      (ops : List Op)
      → let s = run_ops ops (record { vars = []; given = []; freed = [] }) in
        tally t (destroy_all s.vars s.freed) ≡ tally t s.given
  destroy_all-tally ops =
      let s = run_ops ops (record { vars = []; given = []; freed = [] }) in
      omega (
        arith,
        run_ops-Balanced ops (record { vars = []; given = []; freed = [] }) no_memory-Balanced,
        tally-destroy_all s.vars s.freed,
      )
