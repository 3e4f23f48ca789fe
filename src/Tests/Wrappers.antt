-- ===== src/Tests/Wrappers.antt =====
-- Runs of the owning pointers.
use onnxruntime_ep_iree.Common.{ℕ, ◌+◌, ◌≡◌, refl, Bool, ◌&&◌, ◌==◌, List, [], ◌∷◌, some, tally}
use onnxruntime_ep_iree.Factory.State.{find, assign}
use onnxruntime_ep_iree.Wrappers.Pointers as Pointers
use onnxruntime_ep_iree.Wrappers.Pointers.Laws.{count, none_yet, destroy_all-count}
use onnxruntime_ep_iree.Wrappers.Allocated as Allocated
use onnxruntime_ep_iree.Wrappers.Allocated.Laws.{destroy_all-tally}

-- Object 7 is borrowed, moved, moved to itself, and overwritten by object 8, which is handed out.
abbrev moves : List Pointers.Op
moves =
    Pointers.borrow_op 0 (some 7)
    ∷ Pointers.move_construct_op 1 0
    ∷ Pointers.move_assign_op 1 1
    ∷ Pointers.for_output_op 1 (some 8)
    ∷ Pointers.release_op 1
    ∷ Pointers.reset_op 2 (some 7)
    ∷ []

released_twice :
    Pointers.destroy_all
      (Pointers.run_ops moves none_yet).vars
      (Pointers.run_ops moves none_yet).released
    ≡ 7 ∷ 7 ∷ []
unfolding Pointers.destroy_all Pointers.run_ops Pointers.run_op Pointers.construct assign
    Pointers.release Pointers.for_output Pointers.move_assign find
released_twice = refl

destroy_all-count_example :
    let s = Pointers.run_ops moves none_yet in
    count 7 (Pointers.destroy_all s.vars s.released) + count 7 s.taken ≡ count 7 s.given
destroy_all-count_example = destroy_all-count moves 7

-- The pointer of allocator 4 gets a block, and takes over the block of allocator 5.
abbrev blocks : List Allocated.Op
blocks =
    Allocated.construct_op 0 4
    ∷ Allocated.for_output_op 0 (some 100)
    ∷ Allocated.construct_op 1 5
    ∷ Allocated.for_output_op 1 (some 200)
    ∷ Allocated.move_assign_op 0 1
    ∷ []

abbrev is_block : ℕ × ℕ → Bool
is_block b = (b.0 == 5) && (b.1 == 200)

abbrev start : Allocated.Memory
start = record { vars = []; given = []; freed = [] }

freed_in_order :
    Allocated.destroy_all
      (Allocated.run_ops blocks start).vars
      (Allocated.run_ops blocks start).freed
    ≡ (5, 200) ∷ (4, 100) ∷ []
unfolding Allocated.destroy_all Allocated.run_ops Allocated.run_op Allocated.move_assign find
    Allocated.for_output Allocated.construct assign
freed_in_order = refl

destroy_all-tally_example :
    let s = Allocated.run_ops blocks start in
    tally is_block (Allocated.destroy_all s.vars s.freed) ≡ tally is_block s.given
destroy_all-tally_example = destroy_all-tally is_block blocks
