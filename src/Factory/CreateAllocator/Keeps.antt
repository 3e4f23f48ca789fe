-- ===== src/Factory/CreateAllocator/Keeps.antt =====
-- What `CreateAllocatorImpl` leaves of the factory: a property that does not depend on the allocators,
-- and that looking up a device keeps, is kept.
use onnxruntime_ep_iree.Common.{
  ℕ, inl, inr, List, Option, none, some, leb, length, Option-cases, Bool-cases,
}
use onnxruntime_ep_iree.Common.Decimal.{ℤ}
use onnxruntime_ep_iree.Wrappers.{Result, ok, err}
use onnxruntime_ep_iree.Factory.State.{Factory, MemoryInfo, AllocatorInit, find}
use onnxruntime_ep_iree.Factory.Cache.{Runtime, get_device_for_id}
use onnxruntime_ep_iree.Factory.CreateAllocator.{
  to_uint32, add_allocator, with_device, for_id, create_allocator,
}

module _ {W : Type 0} (rt : Runtime W) (P : Factory W → Type 0)
    (ignores : (f : Factory W) (m : List (ℕ × AllocatorInit))
      → P f
      → P (record f { allocators = m })) where
  add_allocator-keeps :
      (id device : ℕ) (o : Option MemoryInfo) (f : Factory W)
      → P f
      → P (add_allocator rt id device o f).1
  unfolding add_allocator
  add_allocator-keeps id device none f h = h
  add_allocator-keeps id device (some info) f h = ignores f _ h

  with_device-keeps : (id : ℕ) (r : Option ℕ × Factory W) → P r.1 → P (with_device rt id r).1
  unfolding with_device
  with_device-keeps id (none, f) h = h
  with_device-keeps id (some device, f) h = add_allocator-keeps id device _ f h

  pub create_allocator-keeps :
      (arg : Option (Result ℤ)) (f : Factory W)
      → ((j : ℕ) → P (get_device_for_id rt j f).1)
      → P f
      → P (create_allocator rt arg f).1
  unfolding create_allocator
  create_allocator-keeps none f k h = h
  create_allocator-keeps (some (err status)) f k h = h
  create_allocator-keeps (some (ok device_id)) f k h =
      let id = to_uint32 device_id in
      elim (Option-cases (find id f.allocators)) [
        | inr (a, e) ↦ rw (e, for_id) h
        | inl absent ↦ elim (Bool-cases (leb (length f.device_memory_infos) id)) [
          | inl big ↦ rw (absent, for_id, big) h
          | inr small ↦
              rw (absent, for_id, small) (with_device-keeps id (get_device_for_id rt id f) (k id))
        ]
      ]
