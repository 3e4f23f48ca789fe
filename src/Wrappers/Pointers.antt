-- ===== src/Wrappers/Pointers.antt =====
-- `IreePtr` and `IreeAllocatedPtr` of src/iree_wrappers.h. A null pointer is `none`. The variables of
-- one class stand in a map by their names; a variable that is not there holds null, and one that is
-- declared again has been destroyed before.
pub mod Laws
pub mod Scopes
pub mod Null
pub mod Settles
pub mod Leads
use mathlib.Core.Option
use onnxruntime_ep_iree.Common.{ℕ, List, [], ◌∷◌, Option, none, some, ◌==◌, if◌then◌else◌}
use onnxruntime_ep_iree.Factory.State.{find, assign}

abbrev pub push {ℓ} : {A : Type ℓ} → Option A → List A → List A
push none xs = xs
push (some x) xs = x ∷ xs

-- `IreePtr`: the variables, the references that they were given, the calls of the release function,
-- and the pointers whose ownership was handed out.
pub record Pointers : Type 0 where
  pub vars : List (ℕ × Option ℕ)
  pub given : List ℕ
  pub released : List ℕ
  pub taken : List ℕ

abbrev pub get : ℕ → List (ℕ × Option ℕ) → Option ℕ
get v vars = Option.get_or (find v vars) none

-- A reference comes from outside: the owner hands it over, or `RetainFn` makes it.
abbrev pub give : Option ℕ → Pointers → Pointers
give p s = record s { given = push p s.given }

-- `Reset`, with the reference that it is given counted already.
unfoldable pub reset : ℕ → Option ℕ → Pointers → Pointers
reset v p s = record s { vars = assign v p s.vars; released = push (get v s.vars) s.released }

-- The constructor from a pointer takes ownership; `Borrow` retains first.
unfoldable pub construct : ℕ → Option ℕ → Pointers → Pointers
unfolding reset
construct v p s = reset v p (give p s)

-- `Reset(); ptr_ = other.ptr_; other.ptr_ = nullptr`. The move constructor does the last two, on a
-- variable that holds nothing yet.
unfoldable pub move_from : ℕ → ℕ → Pointers → Pointers
unfolding reset
move_from v other s =
    let r = reset v none s in
    record r { vars = assign other none (assign v (get other r.vars) r.vars) }

-- With the test `this != &other`.
unfoldable pub move_assign : ℕ → ℕ → Pointers → Pointers
unfolding move_from
move_assign v other s = if v == other then s else move_from v other s

unfoldable pub release : ℕ → Pointers → Pointers
release v s = record s { vars = assign v none s.vars; taken = push (get v s.vars) s.taken }

-- `ForOutput`, and the pointer that the callee writes.
unfoldable pub for_output : ℕ → Option ℕ → Pointers → Pointers
unfolding reset
for_output v p s = let r = reset v none s in give p (record r { vars = assign v p r.vars })

unfoldable pub destroy : ℕ → Pointers → Pointers
unfolding reset
destroy v s = reset v none s

-- The end of the scope of all variables.
unfoldable pub destroy_all : List (ℕ × Option ℕ) → List ℕ → List ℕ
destroy_all [] released = released
destroy_all ((v, p) ∷ vars) released = destroy_all vars (push p released)

-- The calls that a program makes.
pub data Op : Type 0 where
  construct_op borrow_op reset_op for_output_op : ℕ → Option ℕ → Op
  move_construct_op move_assign_op : ℕ → ℕ → Op
  release_op destroy_op : ℕ → Op

unfoldable pub run_op : Op → Pointers → Pointers
run_op (construct_op v p) s = construct v p s
run_op (borrow_op v p) s = construct v p s
run_op (reset_op v p) s = construct v p s
run_op (for_output_op v p) s = for_output v p s
run_op (move_construct_op v other) s = move_from v other s
run_op (move_assign_op v other) s = move_assign v other s
run_op (release_op v) s = release v s
run_op (destroy_op v) s = destroy v s

unfoldable pub run_ops : List Op → Pointers → Pointers
run_ops [] s = s
run_ops (op ∷ ops) s = run_ops ops (run_op op s)
