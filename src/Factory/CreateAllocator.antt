-- ===== src/Factory/CreateAllocator.antt =====
-- `CreateAllocatorImpl` and `CreateDataTransferImpl` of src/iree_ep_factory.cc.
pub mod Laws
pub mod Keeps
use onnxruntime_ep_iree.Common.{
  ℕ, suc, ◌-◌, ◌%◌, ◌^◌, true, List, Option, none, some, leb, if◌then◌else◌, Text, codes, length,
  get_elem?,
}
use onnxruntime_ep_iree.Common.Decimal.{ℤ, pos, negsuc}
use onnxruntime_ep_iree.Wrappers.{Status, Result, ok, err, ort_invalid_argument}
use onnxruntime_ep_iree.Factory.State.{Factory, MemoryInfo, AllocatorInit, find, assign}
use onnxruntime_ep_iree.Factory.Cache.{Runtime, get_device_for_id}

-- `static_cast<uint32_t>` of an `int32_t`.
abbrev to_uint32 : ℤ → ℕ
to_uint32 (pos n) = n % 2 ^ 32
to_uint32 (negsuc n) = (2 ^ 32 - suc n) % 2 ^ 32

abbrev pub refuse {ℓ} : {A : Type ℓ} → Text → Result A
refuse message = err (record { code = ort_invalid_argument; message = message })

module _ {W : Type 0} (rt : Runtime W) where
  -- `allocators_[device_id] = …`; the result is the entry of the map.
  add_allocator : ℕ → ℕ → Option MemoryInfo → Factory W → Result (Option ℕ) × Factory W
  add_allocator id device none f = (ok none, f)
  add_allocator id device (some info) f = (
    ok (some id),
    record f {
      allocators =
          assign id (record { device_id = id; device = device; memory_info = info }) f.allocators;
    },
  )

  with_device : ℕ → Option ℕ × Factory W → Result (Option ℕ) × Factory W
  unfolding add_allocator
  with_device id (none, f) = (refuse (codes "IREE EP: Failed to get device for allocator"), f)
  with_device id (some device, f) = add_allocator id device (get_elem? f.device_memory_infos id) f

  for_id : ℕ → Factory W → Result (Option ℕ) × Factory W
  unfolding with_device
  for_id id f = elim (find id f.allocators) [
    | some allocator ↦ (ok (some id), f)
    | none ↦
        if leb (length f.device_memory_infos) id
        then (refuse (codes "IREE EP: Invalid device_id for allocator"), f)
        else with_device id (get_device_for_id rt id f)
  ]

  -- The argument is what `MemoryInfoGetId` answers for the memory info, if there is one.
  unfoldable pub create_allocator : Option (Result ℤ) → Factory W → Result (Option ℕ) × Factory W
  unfolding for_id
  create_allocator none f = (ok none, f)
  create_allocator (some (err status)) f = (err status, f)
  create_allocator (some (ok device_id)) f = for_id (to_uint32 device_id) f

-- The data transfer is created by the first call; every call hands out the one instance.
unfoldable pub create_data_transfer : {W : Type 0} → Factory W → Factory W
create_data_transfer f = if f.data_transfer then f else record f { data_transfer = true }

-- The factory owns its allocators: ORT's release of one deletes nothing.
abbrev pub release_allocator : {W : Type 0} → Option ℕ → Factory W → Factory W
release_allocator allocator f = f

-- No stream: the pointer that is handed out is null.
abbrev pub create_sync_stream_for_device : {W : Type 0} → Factory W → Result (Option ℕ) × Factory W
create_sync_stream_for_device f = (ok none, f)
