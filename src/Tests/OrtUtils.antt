-- ===== src/Tests/OrtUtils.antt =====
-- Runs of the conversions between ONNX and IREE.
use onnxruntime_ep_iree.Common.{arith, ◌≡◌, refl, ◌*◌, ◌%◌, [], ◌∷◌, map}
use onnxruntime_ep_iree.Common.Decimal.{pos, negsuc}
use onnxruntime_ep_iree.OrtUtils.{
  OnnxType, onnx_element_type_size, size_mod, calculate_tensor_byte_size, get_buffer_view_shape,
  to_size,
}
use onnxruntime_ep_iree.OrtUtils.ByteSize.{product, calculate_tensor_byte_size-product}
use onnxruntime_ep_iree.OrtUtils.Shapes.{get_buffer_view_shape-to_size}

floats : calculate_tensor_byte_size (pos 2 ∷ pos 3 ∷ []) OnnxType.float ≡ 24
unfolding calculate_tensor_byte_size onnx_element_type_size
floats = refl

calculate_tensor_byte_size-product_example :
    calculate_tensor_byte_size (map pos (4294967296 ∷ 4294967296 ∷ [])) OnnxType.float
    ≡ (product (4294967296 ∷ 4294967296 ∷ []) * onnx_element_type_size OnnxType.float) % size_mod
calculate_tensor_byte_size-product_example =
    calculate_tensor_byte_size-product (4294967296 ∷ 4294967296 ∷ []) OnnxType.float

get_buffer_view_shape-to_size_example :
    get_buffer_view_shape (map to_size (pos 2 ∷ negsuc 0 ∷ [])) ≡ pos 2 ∷ negsuc 0 ∷ []
get_buffer_view_shape-to_size_example =
    get_buffer_view_shape-to_size (pos 2 ∷ negsuc 0 ∷ []) (omega arith, (omega arith, tt))
