-- ===== src/Factory/CreateAllocator/Laws.antt =====
-- The allocators of the factory: one for each device, on the device of the cache.
use onnxruntime_ep_iree.Common.{
  ℕ, ◌≡◌, refl, sym, ap, inl, inr, Option, none, some, arith, leb, length, get_elem?, Option-cases,
  Bool-cases,
}
use onnxruntime_ep_iree.Common.Decimal.{ℤ}
use onnxruntime_ep_iree.Wrappers.{Result, ok, err}
use onnxruntime_ep_iree.Factory.State.{Factory, MemoryInfo, AllocatorInit, find, find-assign}
use onnxruntime_ep_iree.Factory.Cache.{Runtime, get_device_for_id}
use onnxruntime_ep_iree.Factory.Cache.Laws.{
  Lookup, cached, failed, opened, get_device_for_id-Lookup, Lookup-find, get_device_for_id_cached,
}
use onnxruntime_ep_iree.Factory.CreateAllocator.{
  to_uint32, add_allocator, with_device, for_id, create_allocator,
}

-- Every allocator stands under its own device id, works on the HAL device that the cache has for
-- that id, and describes itself by the memory info of that index.
abbrev pub AllocatorsValid : {W : Type 0} → Factory W → Type 0
AllocatorsValid f =
    (id : ℕ) (a : AllocatorInit)
    → find id f.allocators ≡ some a
    → (a.device_id ≡ id)
      × (find id f.device_cache ≡ some a.device)
      × (get_elem? f.device_memory_infos id ≡ some a.memory_info)

-- Looking a device up keeps the allocators valid.
pub Lookup-AllocatorsValid :
    {W : Type 0} {id : ℕ} {f : Factory W} {r : Option ℕ × Factory W}
    → Lookup id f r
    → AllocatorsValid f
    → AllocatorsValid r.1
Lookup-AllocatorsValid (cached k found e) v = rw e v
Lookup-AllocatorsValid (failed w absent e) v = rw e v
Lookup-AllocatorsValid {id} {f} (opened k w absent lt e) v =
    rw e (λ j a h. ground (arith, find-assign id j k f.device_cache, v j a))

module _ {W : Type 0} (rt : Runtime W) where
  add_allocator-valid :
      (id device : ℕ) (o : Option MemoryInfo) (f : Factory W)
      → get_elem? f.device_memory_infos id ≡ o
      → find id f.device_cache ≡ some device
      → AllocatorsValid f
      → AllocatorsValid (add_allocator rt id device o f).1
  unfolding add_allocator
  add_allocator-valid id device none f e d v = v
  add_allocator-valid id device (some info) f e d v = λ j a h. ground (
    arith,
    find-assign id j (record { device_id = id; device = device; memory_info = info }) f.allocators,
    v j a,
  )

  with_device-valid :
      (id : ℕ) (f : Factory W) (r : Option ℕ × Factory W)
      → Lookup id f r
      → AllocatorsValid f
      → AllocatorsValid (with_device rt id r).1
  unfolding with_device
  with_device-valid id f (none, g) l v = Lookup-AllocatorsValid l v
  with_device-valid id f (some device, g) l v =
      add_allocator-valid id device _ g refl (Lookup-find l refl) (Lookup-AllocatorsValid l v)

  -- `CreateAllocatorImpl` keeps the allocators valid on every path: each stands under its own id,
  -- works on the HAL device that the cache has for it, and has the memory info of that index.
  pub create_allocator-AllocatorsValid :
      (arg : Option (Result ℤ)) (f : Factory W)
      → AllocatorsValid f
      → AllocatorsValid (create_allocator rt arg f).1
  unfolding create_allocator
  create_allocator-AllocatorsValid none f v = v
  create_allocator-AllocatorsValid (some (err status)) f v = v
  create_allocator-AllocatorsValid (some (ok device_id)) f v =
      let id = to_uint32 device_id in
      elim (Option-cases (find id f.allocators)) [
        | inr (a, e) ↦ rw (e, for_id) v
        | inl absent ↦ elim (Bool-cases (leb (length f.device_memory_infos) id)) [
          | inl big ↦ rw (absent, for_id, big) v
          | inr small ↦
              rw (absent, for_id, small)
                (with_device-valid id f (get_device_for_id rt id f)
                  (get_device_for_id-Lookup rt id f) v)
        ]
      ]

  -- Where the allocators are valid, the device that an allocator works on is the one that `GetDeviceForId` gives for its id, so a
  -- transfer or a computation on that id uses the device that the buffers were allocated on.
  pub allocator_device :
      (id : ℕ) (a : AllocatorInit) (f : Factory W)
      → AllocatorsValid f
      → find id f.allocators ≡ some a
      → get_device_for_id rt a.device_id f ≡ (some a.device, f)
  allocator_device id a f v e =
      let (same, held, described) = v id a e in
      rw same (get_device_for_id_cached rt id a.device f held)

  add_allocator-find :
      (id device k : ℕ) (o : Option MemoryInfo) (f : Factory W)
      → (add_allocator rt id device o f).0 ≡ ok (some k)
      → (a : AllocatorInit) × (k ≡ id)
        × (find id (add_allocator rt id device o f).1.allocators ≡ some a)
  unfolding add_allocator
  add_allocator-find id device k none f h = cc
  add_allocator-find id device k (some info) f h =
      let a : AllocatorInit = record { device_id = id; device = device; memory_info = info } in
      (a, cc, ground (arith, find-assign id id a f.allocators))

  with_device-find :
      (id k : ℕ) (r : Option ℕ × Factory W)
      → (with_device rt id r).0 ≡ ok (some k)
      → (a : AllocatorInit) × (k ≡ id) × (find id (with_device rt id r).1.allocators ≡ some a)
  unfolding with_device
  with_device-find id k (none, f) h = cc
  with_device-find id k (some device, f) h = add_allocator-find id device k _ f h

  for_id-find :
      (id k : ℕ) (f : Factory W)
      → (for_id rt id f).0 ≡ ok (some k)
      → (a : AllocatorInit) × (k ≡ id) × (find id (for_id rt id f).1.allocators ≡ some a)
  unfolding for_id
  for_id-find id k f = elim (Option-cases (find id f.allocators)) [
    | inr (a, e) ↦ rw (e, for_id) (λ h. (a, cc, e))
    | inl absent ↦ elim (Bool-cases (leb (length f.device_memory_infos) id)) [
      | inl big ↦ rw (absent, for_id, big) (λ h. cc)
      | inr small ↦ rw (absent, for_id, small) (with_device-find id k (get_device_for_id rt id f))
    ]
  ]

  -- An allocator that was handed out is handed out again for its id, and nothing else changes.
  pub create_allocator_again :
      (device_id : ℤ) (k : ℕ) (f : Factory W)
      → (create_allocator rt (some (ok device_id)) f).0 ≡ ok (some k)
      → let g = (create_allocator rt (some (ok device_id)) f).1 in
        create_allocator rt (some (ok device_id)) g ≡ (ok (some k), g)
  unfolding create_allocator
  create_allocator_again device_id k f h =
      let (a, same, found) = for_id-find (to_uint32 device_id) k f h in
      rw (found, for_id) (ap (λ n. (ok (some n), (for_id rt (to_uint32 device_id) f).1)) (sym same))
