-- ===== src/Tests/Buffers.antt =====
-- A run of the allocator: two buffers, one of them freed twice.
use onnxruntime_ep_iree.Common.{ℕ, suc, ◌≡◌, refl, [], ◌∷◌, List, Option, some}
use onnxruntime_ep_iree.Allocator.{Allocator, destroy}
use onnxruntime_ep_iree.Allocator.Laws.{Op, alloc_op, free_op, count, owned, run_ops, destroy-count}
use onnxruntime_ep_iree.Common.{true, false}
use onnxruntime_ep_iree.Factory.State.{find, assign}
use onnxruntime_ep_iree.Allocator.{alloc, free}
use onnxruntime_ep_iree.Allocator.Live.{allocated, described, run_ops-described}
use onnxruntime_ep_iree.Tests.Setup.{info}

-- The handles are 1, 2, 3 and so on.
abbrev next_buffer : ℕ → ℕ → ℕ → Option ℕ × ℕ
next_buffer device size w = (some (suc w), suc w)

abbrev start : Allocator ℕ
start = record {
  init = record { device_id = 0; device = 0; memory_info = info 0 };
  allocations = [];
  given = [];
  released = [];
  world = 0;
}

abbrev ops : List Op
ops = alloc_op 64 ∷ alloc_op 16 ∷ free_op 1 ∷ free_op 1 ∷ alloc_op 0 ∷ []

destroy-count_example :
    count 2 (destroy (run_ops next_buffer ops start)).released
    ≡ count 2 (destroy (run_ops next_buffer ops start)).given
unfolding count owned
destroy-count_example = destroy-count next_buffer ops start 2 (λ b. refl)

still_allocated : described next_buffer ops start (λ r. false) 2 ≡ true
unfolding described alloc free find assign
still_allocated = refl

run_ops-described_example :
    allocated (run_ops next_buffer ops start) 2 ≡ described next_buffer ops start (λ r. false) 2
unfolding find
run_ops-described_example =
    run_ops-described next_buffer ops start (λ r. false) 2 (λ device n w h. cc h) tt (λ r. refl)
