-- ===== src/OrtUtils/Convert.antt =====
-- `OrtTensorToIreeBufferView` and `IreeBufferViewToOrtTensor` of src/iree_ort_utils.cc. The calls of
-- the HAL are the fields of `Hal`; they read and change the state of the runtime.
use onnxruntime_ep_iree.Common.{
  ℕ, Bool, true, false, List, map, Option, none, some, ◌==◌, if◌then◌else◌, codes,
}
use onnxruntime_ep_iree.Common.Decimal.{ℤ}
use onnxruntime_ep_iree.OrtUtils.{
  OnnxType, IreeType, type_none, onnx_to_iree_element_type, to_size, calculate_tensor_byte_size,
}
use onnxruntime_ep_iree.Wrappers.{Status, Result, err, ort_not_implemented}

-- `kEpVendorId`, by which a tensor in the memory of an IREE device is known.
abbrev pub on_device : Option ℕ → Bool
on_device none = false
on_device (some vendor_id) = vendor_id == 0x1EEE

-- `OrtValue`: the vendor of its memory device, if it has one, its shape and type, and its raw data,
-- which is a buffer of the device or host memory.
pub record OrtTensor : Type 0 where
  pub vendor_id : Option ℕ
  pub shape : List ℤ
  pub element_type : OnnxType
  pub raw : ℕ

-- What the accessors of a buffer view give.
pub record View : Type 0 where
  pub buffer : ℕ
  pub byte_length : ℕ
  pub dims : List ℕ
  pub element_type : IreeType

-- A transfer of a whole buffer, from offset 0 to offset 0; `to_device` tells the D2D from the D2H
-- one.
pub record OutputTransfer : Type 0 where
  pub to_device : Bool
  pub source : ℕ
  pub target : ℕ
  pub byte_length : ℕ

-- `iree_hal_buffer_view_create`, `iree_hal_buffer_view_allocate_buffer_copy`, the accessors of a
-- view, and the transfers. The device is null if there is none, and the allocator is that of the
-- session. A view is its handle.
pub record Hal (W : Type 0) : Type 0 where
  pub create_view : Option ℕ → ℕ → List ℕ → IreeType → W → Result ℕ × W
  pub copy_view : Option ℕ → ℕ → ℕ → List ℕ → IreeType → W → Result ℕ × W
  pub view : ℕ → W → View
  pub transfer : Option ℕ → OutputTransfer → W → Option Status × W

abbrev pub is_type_none : IreeType → Bool
is_type_none type_none = true
is_type_none _ = false

abbrev pub output_transfer : View → OrtTensor → OutputTransfer
output_transfer view t = record {
  to_device = on_device t.vendor_id;
  source = view.buffer;
  target = t.raw;
  byte_length = view.byte_length;
}

module _ {W : Type 0} (hal : Hal W) (device : Option ℕ) where
  -- The view of an input: its buffer is wrapped if it is on the device, else its bytes are copied.
  unfoldable pub ort_tensor_to_iree_buffer_view : OrtTensor → W → Result ℕ × W
  ort_tensor_to_iree_buffer_view t w =
      let dtype = onnx_to_iree_element_type t.element_type in
      let dims = map to_size t.shape in
      if is_type_none dtype
      then (
        err (record {
          code = ort_not_implemented;
          message = codes "IREE EP: Unsupported element type";
        }),
        w,
      )
      else if on_device t.vendor_id
      then hal.create_view device t.raw dims dtype w
      else hal.copy_view device t.raw (calculate_tensor_byte_size t.shape t.element_type) dims dtype
          w

  unfoldable pub iree_buffer_view_to_ort_tensor : View → OrtTensor → W → Option Status × W
  iree_buffer_view_to_ort_tensor view t w = hal.transfer device (output_transfer view t) w
