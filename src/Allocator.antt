-- ===== src/Allocator.antt =====
-- src/iree_allocator.cc: the allocations of `IreeAllocator`. `allocate_buffer` is
-- `iree_hal_allocator_allocate_buffer`: the handle of a buffer, or `none` for a status that is not OK.
-- A buffer handle is not 0, which stands for a null pointer.
pub mod Laws
pub mod Live
use onnxruntime_ep_iree.Common.{
  ℕ, Bool, true, false, List, [], ◌∷◌, Option, none, some, ◌==◌, if◌then◌else◌,
}
use onnxruntime_ep_iree.Factory.State.{find, assign, AllocatorInit, MemoryInfo}

-- The members that change, and what the runtime has seen: the buffers that it has given and the
-- references that were released, latest first. An allocation is a key with the buffer that its
-- `HalBufferPtr` owns.
pub record Allocator (W : Type 0) : Type 0 where
  pub init : AllocatorInit
  pub allocations : List (ℕ × ℕ)
  pub given : List ℕ
  pub released : List ℕ
  pub world : W

-- `allocations_.erase(it)`, with the destructor of the pointer left out.
pub erase : ℕ → List (ℕ × ℕ) → List (ℕ × ℕ)
erase key [] = []
erase key ((k, buffer) ∷ m) = if k == key then m else (k, buffer) ∷ erase key m

abbrev pub release : Option ℕ → List ℕ → List ℕ
release none released = released
release (some buffer) released = buffer ∷ released

module _ {W : Type 0} (allocate_buffer : ℕ → ℕ → W → Option ℕ × W) where
  -- `allocations_[buffer_ptr] = std::move(buffer)`: a pointer that stood there is released.
  store : Option ℕ × W → Allocator W → ℕ × Allocator W
  store (none, w) s = (0, record s { world = w })
  store (some buffer, w) s = (
    buffer,
    record s {
      allocations = assign buffer buffer s.allocations;
      given = buffer ∷ s.given;
      released = release (find buffer s.allocations) s.released;
      world = w;
    },
  )

  unfoldable pub alloc : ℕ → Allocator W → ℕ × Allocator W
  unfolding store
  alloc size s = if size == 0 then (0, s) else store (allocate_buffer s.init.device size s.world) s

-- Behind the test for a null pointer, by what `find` gives.
free_found : {W : Type 0} → ℕ → Option ℕ → Allocator W → Allocator W
free_found p none s = s
free_found p (some buffer) s = record s {
  allocations = erase p s.allocations;
  released = buffer ∷ s.released;
}

unfoldable pub free : {W : Type 0} → ℕ → Allocator W → Allocator W
unfolding free_found
free p s = if p == 0 then s else free_found p (find p s.allocations) s

unfoldable pub info : {W : Type 0} → Allocator W → MemoryInfo
info s = s.init.memory_info

-- The destructor: every pointer that is left is released.
release_all : List (ℕ × ℕ) → List ℕ → List ℕ
release_all [] released = released
release_all ((k, buffer) ∷ m) released = release_all m (buffer ∷ released)

unfoldable pub destroy : {W : Type 0} → Allocator W → Allocator W
unfolding release_all
destroy s = record s { allocations = []; released = release_all s.allocations s.released }
