-- ===== src/OrtUtils.antt =====
-- src/iree_ort_utils.cc: the maps between the element types of ONNX and IREE, the byte sizes of
-- elements and tensors, and the shape of a buffer view. The enumerations are those values that the
-- source names, and one constructor for all the others. The proofs are in the child modules.
pub mod Types
pub mod ByteSize
pub mod Convert
pub mod Shapes
use mathlib.Core.List.{foldl}
use onnxruntime_ep_iree.Common.{ℕ, suc, ◌-◌, ◌*◌, ◌%◌, ◌^◌, List, [], ◌∷◌, map, ltb, if◌then◌else◌}
use onnxruntime_ep_iree.Common.Decimal.{ℤ, pos, negsuc}

-- `ONNXTensorElementDataType`.
pub data OnnxType : Type 0 where
  undefined float double float16 bfloat16 : OnnxType
  int8 int16 int32 int64 : OnnxType
  uint8 uint16 uint32 uint64 : OnnxType
  bool : OnnxType
  other_onnx : ℕ → OnnxType

-- `iree_hal_element_type_t`.
pub data IreeType : Type 0 where
  type_none float_32 float_64 float_16 bfloat_16 : IreeType
  sint_8 sint_16 sint_32 sint_64 : IreeType
  int_8 int_16 int_32 int_64 : IreeType
  uint_8 uint_16 uint_32 uint_64 : IreeType
  bool_8 : IreeType
  other_iree : ℕ → IreeType

unfoldable pub onnx_to_iree_element_type : OnnxType → IreeType
onnx_to_iree_element_type float = float_32
onnx_to_iree_element_type double = float_64
onnx_to_iree_element_type float16 = float_16
onnx_to_iree_element_type bfloat16 = bfloat_16
onnx_to_iree_element_type int8 = sint_8
onnx_to_iree_element_type int16 = sint_16
onnx_to_iree_element_type int32 = sint_32
onnx_to_iree_element_type int64 = sint_64
onnx_to_iree_element_type uint8 = uint_8
onnx_to_iree_element_type uint16 = uint_16
onnx_to_iree_element_type uint32 = uint_32
onnx_to_iree_element_type uint64 = uint_64
onnx_to_iree_element_type bool = bool_8
onnx_to_iree_element_type _ = type_none

unfoldable pub iree_to_onnx_element_type : IreeType → OnnxType
iree_to_onnx_element_type float_32 = float
iree_to_onnx_element_type float_64 = double
iree_to_onnx_element_type float_16 = float16
iree_to_onnx_element_type bfloat_16 = bfloat16
iree_to_onnx_element_type sint_8 = int8
iree_to_onnx_element_type int_8 = int8
iree_to_onnx_element_type sint_16 = int16
iree_to_onnx_element_type int_16 = int16
iree_to_onnx_element_type sint_32 = int32
iree_to_onnx_element_type int_32 = int32
iree_to_onnx_element_type sint_64 = int64
iree_to_onnx_element_type int_64 = int64
iree_to_onnx_element_type uint_8 = uint8
iree_to_onnx_element_type uint_16 = uint16
iree_to_onnx_element_type uint_32 = uint32
iree_to_onnx_element_type uint_64 = uint64
iree_to_onnx_element_type bool_8 = bool
iree_to_onnx_element_type _ = undefined

unfoldable pub onnx_element_type_size : OnnxType → ℕ
onnx_element_type_size bool = 1
onnx_element_type_size int8 = 1
onnx_element_type_size uint8 = 1
onnx_element_type_size float16 = 2
onnx_element_type_size bfloat16 = 2
onnx_element_type_size int16 = 2
onnx_element_type_size uint16 = 2
onnx_element_type_size float = 4
onnx_element_type_size int32 = 4
onnx_element_type_size uint32 = 4
onnx_element_type_size double = 8
onnx_element_type_size int64 = 8
onnx_element_type_size uint64 = 8
onnx_element_type_size _ = 0

abbrev pub size_mod : ℕ
size_mod = 2 ^ 64

-- An `int64_t` converted to `size_t`.
abbrev pub to_size : ℤ → ℕ
to_size (pos n) = n % size_mod
to_size (negsuc n) = (size_mod - suc n) % size_mod

-- `std::accumulate(…, size_t{1}, std::multiplies<size_t>())`: each product wraps.
num_elements : ℕ → List ℤ → ℕ
num_elements = foldl (λ acc d. (acc * to_size d) % size_mod)

unfoldable pub calculate_tensor_byte_size : List ℤ → OnnxType → ℕ
unfolding num_elements
calculate_tensor_byte_size [] t = onnx_element_type_size t
calculate_tensor_byte_size (d ∷ ds) t =
    (num_elements 1 (d ∷ ds) * onnx_element_type_size t) % size_mod

-- `static_cast<int64_t>` of an unsigned dimension: the upper half is negative.
abbrev to_int64 : ℕ → ℤ
to_int64 d = let w = d % size_mod in if ltb w (2 ^ 63) then pos w else negsuc (size_mod - w - 1)

-- The dimensions of the view, in order, as `int64_t`.
unfoldable pub get_buffer_view_shape : List ℕ → List ℤ
get_buffer_view_shape dims = map to_int64 dims
