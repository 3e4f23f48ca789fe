-- ===== src/Factory/Supported.antt =====
-- `GetSupportedDevicesImpl` of src/iree_ep_factory.cc. `create_ep_device` and `add_allocator_info`
-- are the statuses of ORT's `CreateEpDevice` and `EpDevice_AddAllocatorInfo` for the device with the
-- given index, null if they succeed.
pub mod Laws
use onnxruntime_ep_iree.Common.{
  ℕ, zero, suc, ◌+◌, ◌%◌, ◌^◌, List, [], ◌∷◌, ◌++◌, Option, none, some, ltb, if◌then◌else◌, Text,
  codes,
}
use onnxruntime_ep_iree.Wrappers.{Status}
use onnxruntime_ep_iree.Factory.State.{Factory, HardwareDevice, MemoryInfo, ep_vendor_id}

-- The outputs of the call, and the member that it changes. `ep_devices` has the hardware device of
-- each entry written; released is how often `ReleaseEpDevice` was called.
pub record Supported : Type 0 where
  pub num_ep_devices : ℕ
  pub ep_devices : List HardwareDevice
  pub device_memory_infos : List MemoryInfo
  pub released : ℕ

unfoldable pub memory_info_for : ℕ → MemoryInfo
memory_info_for i = record {
  name = codes "IREE";
  vendor_id = ep_vendor_id;
  device_id = i % 2 ^ 32;
  alignment = 0;
}

module _ (create_ep_device add_allocator_info : ℕ → Option Status) (max_ep_devices : ℕ) where
  -- After the status of `EpDevice_AddAllocatorInfo`; `emplace_back` and `pop_back` cancel on failure.
  supported_loop : ℕ → List HardwareDevice → Supported → Option Status × Supported
  supported_loop i [] s = (none, s)
  supported_loop i (d ∷ ds) s =
      let next = supported_loop (suc i) ds (record s {
        num_ep_devices = s.num_ep_devices + 1;
        ep_devices = s.ep_devices ++ d ∷ [];
        device_memory_infos = s.device_memory_infos ++ memory_info_for i ∷ [];
      }) in
      if ltb s.num_ep_devices max_ep_devices
      then elim (create_ep_device i) [
        | some status ↦ (some status, s)
        | none ↦ elim (add_allocator_info i) [
          | some status ↦ (some status, record s { released = s.released + 1 })
          | none ↦ next
        ]
      ]
      else (none, s)

  unfoldable pub get_supported_devices : {W : Type 0} → Factory W → Option Status × Supported
  unfolding supported_loop
  get_supported_devices f = supported_loop 0 f.hw_devices (record {
    num_ep_devices = 0;
    ep_devices = [];
    device_memory_infos = f.device_memory_infos;
    released = 0;
  })
