-- ===== src/OrtUtils/Types.antt =====
-- The element types: which ones are supported, and that the tables of the code agree on it.
use onnxruntime_ep_iree.Common.{◌≡◌, ◌≢◌, ◌↔◌, arith}
use onnxruntime_ep_iree.OrtUtils.{
  OnnxType, IreeType, onnx_to_iree_element_type, iree_to_onnx_element_type, onnx_element_type_size,
}

-- An ONNX element type that has an IREE type comes back from it unchanged.
pub iree_to_onnx-onnx_to_iree :
    (t : OnnxType)
    → onnx_to_iree_element_type t ≢ IreeType.type_none
    → iree_to_onnx_element_type (onnx_to_iree_element_type t) ≡ t
unfolding onnx_to_iree_element_type iree_to_onnx_element_type
iree_to_onnx-onnx_to_iree t h = ground arith

-- The element size is 0 for exactly those types that have no IREE type, so the two tests by which the code
-- refuses a tensor (`OrtTensorToIreeBufferView` and `CopyTensorsImpl`) refuse the same types.
pub size_zero-type_none :
    (t : OnnxType)
    → (onnx_element_type_size t ≡ 0) ↔ (onnx_to_iree_element_type t ≡ IreeType.type_none)
unfolding onnx_to_iree_element_type onnx_element_type_size
size_zero-type_none t = ground arith

-- An output type that is accepted on the way back from IREE is one that inputs may have too.
pub iree_to_onnx-supported :
    (e : IreeType)
    → iree_to_onnx_element_type e ≢ OnnxType.undefined
    → onnx_to_iree_element_type (iree_to_onnx_element_type e) ≢ IreeType.type_none
unfolding onnx_to_iree_element_type iree_to_onnx_element_type
iree_to_onnx-supported e h = ground arith
