-- ===== src/DataTransfer.antt =====
-- src/iree_data_transfer.cc: which copies are supported, and the copies. What ORT answers for a tensor
-- is a `Tensor`; `transfer` is the status of a HAL transfer, null on success.
pub mod Copies
pub mod Laws
pub mod Accepted
pub mod Bytes
use onnxruntime_ep_iree.Common.{
  ℕ, ◌*◌, ◌%◌, Bool, true, false, ◌&&◌, ◌||◌, List, [], ◌∷◌, ◌++◌, Option, none, some, ◌==◌,
  if◌then◌else◌, Text, codes,
}
use onnxruntime_ep_iree.OrtUtils.{OnnxType, onnx_element_type_size, size_mod}
use onnxruntime_ep_iree.Wrappers.{Status, ort_invalid_argument, ort_not_implemented}
use onnxruntime_ep_iree.Factory.State.{Factory, ep_vendor_id}
use onnxruntime_ep_iree.Factory.Cache.{Runtime, get_device_for_id}

-- `OrtMemoryDevice`
pub record MemoryDevice : Type 0 where
  pub vendor_id : ℕ
  pub device_id : ℕ

abbrev is_iree : MemoryDevice → Bool
is_iree d = d.vendor_id == ep_vendor_id

abbrev is_cpu : MemoryDevice → Bool
is_cpu d = d.vendor_id == 0

unfoldable pub can_copy : MemoryDevice → MemoryDevice → Bool
can_copy src dst =
    (is_iree src && (is_iree dst || is_cpu dst)) || (is_iree dst && (is_iree src || is_cpu src))

-- `OrtValue`: its memory device, if there is one, its shape information and its raw data, which is a
-- buffer of the device or host memory.
pub record Tensor : Type 0 where
  pub memory_device : Option MemoryDevice
  pub element_count : ℕ
  pub element_type : OnnxType
  pub raw : ℕ

pub data Direction : Type 0 where
  device_to_host host_to_device device_to_device : Direction

-- A call of one of the three transfer functions, from offset 0 to offset 0.
pub record Transfer : Type 0 where
  pub direction : Direction
  pub device : ℕ
  pub source : ℕ
  pub target : ℕ
  pub byte_size : ℕ

-- The factory and the transfers that were made, in order.
pub record State (W : Type 0) : Type 0 where
  pub factory : Factory W
  pub transfers : List Transfer

-- The factory owns the data transfer: ORT's release of it deletes nothing.
abbrev pub release_data_transfer : {W : Type 0} → State W → State W
release_data_transfer s = s

-- `transfer` is the status of a transfer on the memories that the earlier ones left.
module _ {W : Type 0} (rt : Runtime W) (transfer : List Transfer → Transfer → Option Status) where
  abbrev invalid : Text → Option Status
  invalid message = some (record { code = ort_invalid_argument; message = message })

  abbrev not_implemented : Text → Option Status
  not_implemented message = some (record { code = ort_not_implemented; message = message })

  -- The transfer function, on the device that was looked up, whose absence is an error.
  run :
      Text
      → Direction
      → Tensor
      → Tensor
      → ℕ
      → List Transfer
      → Option ℕ × Factory W
      → Option Status × State W
  run message direction src dst byte_size done (none, f) =
      (invalid message, record { factory = f; transfers = done })
  run message direction src dst byte_size done (some device, f) =
      let t : Transfer = record {
        direction = direction;
        device = device;
        source = src.raw;
        target = dst.raw;
        byte_size = byte_size;
      } in
      (transfer done t, record { factory = f; transfers = done ++ t ∷ [] })

  -- The copy between two memories, by the vendors.
  copy_by :
      Bool
      → Bool
      → MemoryDevice
      → MemoryDevice
      → Tensor
      → Tensor
      → ℕ
      → State W
      → Option Status × State W
  unfolding run
  copy_by true false src_device dst_device src dst byte_size s =
      run (codes "IREE EP: No device found for D2H transfer") device_to_host src dst byte_size
        s.transfers (get_device_for_id rt src_device.device_id s.factory)
  copy_by false true src_device dst_device src dst byte_size s =
      run (codes "IREE EP: No device found for H2D transfer") host_to_device src dst byte_size
        s.transfers (get_device_for_id rt dst_device.device_id s.factory)
  copy_by true true src_device dst_device src dst byte_size s =
      run (codes "IREE EP: No device found for D2D transfer") device_to_device src dst byte_size
        s.transfers (get_device_for_id rt src_device.device_id s.factory)
  copy_by false false src_device dst_device src dst byte_size s =
      (not_implemented (codes "IREE EP: CPU to CPU transfer not supported"), s)

  -- A round of the loop, on the memory devices of both tensors.
  copy_between :
      Option MemoryDevice
      → Option MemoryDevice
      → Tensor
      → Tensor
      → State W
      → Option Status × State W
  unfolding copy_by
  copy_between (some src_device) (some dst_device) src dst s =
      if onnx_element_type_size src.element_type == 0
      then (not_implemented (codes "IREE EP: Unsupported tensor element type"), s)
      else copy_by (is_iree src_device) (is_iree dst_device) src_device dst_device src dst
          ((src.element_count * onnx_element_type_size src.element_type) % size_mod) s
  copy_between _ _ src dst s = (invalid (codes "IREE EP: Cannot get memory device from tensor"), s)

  unfoldable pub copy_tensor : Tensor → Tensor → State W → Option Status × State W
  unfolding copy_between
  copy_tensor src dst s = copy_between src.memory_device dst.memory_device src dst s

  -- The first error ends the loop.
  unfoldable pub copy_tensors : List (Tensor × Tensor) → State W → Option Status × State W
  copy_tensors [] s = (none, s)
  copy_tensors ((src, dst) ∷ more) s =
      let r = copy_tensor src dst s in
      let rest = copy_tensors more r.1 in elim r.0 [ some error ↦ (some error, r.1) | none ↦ rest ]
