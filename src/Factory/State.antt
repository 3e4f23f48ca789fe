-- ===== src/Factory/State.antt =====
-- The members of `IreeEpFactory` (src/iree_ep_factory.h) and the ORT values that it handles.
use onnxruntime_ep_iree.Common.{
  ℕ, List, [], ◌∷◌, Option, none, some, ◌==◌, if◌then◌else◌, Text, Bool, ◌≡◌, refl, arith,
}

-- `kEpVendorId`
abbrev pub ep_vendor_id : ℕ
ep_vendor_id = 0x1EEE

-- `OrtHardwareDeviceType`
pub data HardwareDeviceType : Type 0 where
  cpu gpu npu : HardwareDeviceType

-- `OrtHardwareDevice`; the metadata are the pairs that were added, in order.
pub record HardwareDevice : Type 0 where
  pub device_type : HardwareDeviceType
  pub vendor_id : ℕ
  pub device_id : ℕ
  pub vendor : Text
  pub metadata : List (Text × Text)

-- `Ort::MemoryInfo`, with the arguments that `GetSupportedDevicesImpl` varies or takes from itself;
-- the device type is GPU, the memory type DEFAULT, the allocator type `OrtDeviceAllocator`.
pub record MemoryInfo : Type 0 where
  pub name : Text
  pub vendor_id : ℕ
  pub device_id : ℕ
  pub alignment : ℕ

-- What the constructor of `IreeAllocator` is given.
pub record AllocatorInit : Type 0 where
  pub device_id : ℕ
  pub device : ℕ
  pub memory_info : MemoryInfo

-- A map with `uint32_t` keys: `find`, and `operator[]` with an assignment.
module _ {ℓ} {V : Type ℓ} where
  unfoldable pub find : ℕ → List (ℕ × V) → Option V
  find k [] = none
  find k ((j, v) ∷ m) = if j == k then some v else find k m

  unfoldable pub assign : ℕ → V → List (ℕ × V) → List (ℕ × V)
  assign k v [] = (k, v) ∷ []
  assign k v ((j, w) ∷ m) = if j == k then (k, v) ∷ m else (j, w) ∷ assign k v m

  pub find-assign :
      (k j : ℕ) (v : V) (m : List (ℕ × V))
      → find j (assign k v m) ≡ (if k == j then some v else find j m)
  unfolding find assign
  find-assign k j v [] = refl
  find-assign k j v ((i, w) ∷ m) = ground (arith, find-assign k j v m)

-- The factory. A HAL device is its handle; `world` is the state of the IREE runtime, which the calls
-- into it read and change.
pub record Factory (W : Type 0) : Type 0 where
  pub ep_name : Text
  pub hw_devices : List HardwareDevice
  pub device_cache : List (ℕ × ℕ)
  pub device_memory_infos : List MemoryInfo
  pub allocators : List (ℕ × AllocatorInit)
  pub data_transfer : Bool
  pub world : W
