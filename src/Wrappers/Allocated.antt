-- ===== src/Wrappers/Allocated.antt =====
-- `IreeAllocatedPtr` of src/iree_wrappers.h: memory with the allocator that it is freed with. The
-- variables stand in a map by their names.
pub mod Laws
use onnxruntime_ep_iree.Common.{ℕ, List, [], ◌∷◌, Option, none, some, ◌==◌, if◌then◌else◌}
use onnxruntime_ep_iree.Factory.State.{find, assign}
use onnxruntime_ep_iree.Wrappers.Pointers.{push}

-- A null pointer is `none`.
pub record Allocated : Type 0 where
  pub allocator : ℕ
  pub ptr : Option ℕ

-- A block is its allocator and its address: those that were allocated for the variables, and the
-- calls of `iree_allocator_free`.
pub record Memory : Type 0 where
  pub vars : List (ℕ × Allocated)
  pub given : List (ℕ × ℕ)
  pub freed : List (ℕ × ℕ)

abbrev pub block : Allocated → Option (ℕ × ℕ)
block a = elim a.ptr [ none ↦ none | some p ↦ some (a.allocator, p) ]

abbrev pub held : Option Allocated → Option (ℕ × ℕ)
held none = none
held (some a) = block a

abbrev pub empty : ℕ → Allocated
empty allocator = record { allocator = allocator; ptr = none }

-- `iree_allocator_free` unless the pointer is null, and the new value of the variable.
unfoldable pub replace : ℕ → Allocated → Memory → Memory
replace v a s = record s { vars = assign v a s.vars; freed = push (held (find v s.vars)) s.freed }

unfoldable pub construct : ℕ → ℕ → Memory → Memory
unfolding replace
construct v allocator s = replace v (empty allocator) s

-- What is in the other variable, which then holds null. The allocator stays there.
moved : ℕ → ℕ → Option Allocated → Memory → Memory
unfolding replace
moved v other none s = s
moved v other (some a) s =
    let r = replace v a s in record r { vars = assign other (empty a.allocator) r.vars }

-- The move constructor, on a variable that is not there yet, and the body of the assignment.
unfoldable pub move_from : ℕ → ℕ → Memory → Memory
unfolding moved
move_from v other s = moved v other (find other s.vars) s

-- With the test `this != &other`.
unfoldable pub move_assign : ℕ → ℕ → Memory → Memory
unfolding move_from
move_assign v other s = if v == other then s else move_from v other s

-- The callee allocates what it writes with the allocator of the variable.
output_to : ℕ → Option ℕ → Option Allocated → Memory → Memory
unfolding replace
output_to v p none s = s
output_to v p (some a) s =
    let written : Allocated = record { allocator = a.allocator; ptr = p } in
    let r = replace v written s in record r { given = push (block written) r.given }

unfoldable pub for_output : ℕ → Option ℕ → Memory → Memory
unfolding output_to
for_output v p s = output_to v p (find v s.vars) s

unfoldable pub destroy : ℕ → Memory → Memory
unfolding replace
destroy v s = elim (find v s.vars) [ none ↦ s | some a ↦ replace v (empty a.allocator) s ]

-- The end of the scope of all variables.
unfoldable pub destroy_all : List (ℕ × Allocated) → List (ℕ × ℕ) → List (ℕ × ℕ)
destroy_all [] freed = freed
destroy_all ((v, a) ∷ vars) freed = destroy_all vars (push (block a) freed)

pub data Op : Type 0 where
  construct_op move_construct_op move_assign_op : ℕ → ℕ → Op
  for_output_op : ℕ → Option ℕ → Op
  destroy_op : ℕ → Op

unfoldable pub run_op : Op → Memory → Memory
run_op (construct_op v allocator) s = construct v allocator s
run_op (move_construct_op v other) s = move_from v other s
run_op (move_assign_op v other) s = move_assign v other s
run_op (for_output_op v p) s = for_output v p s
run_op (destroy_op v) s = destroy v s

unfoldable pub run_ops : List Op → Memory → Memory
run_ops [] s = s
run_ops (op ∷ ops) s = run_ops ops (run_op op s)
