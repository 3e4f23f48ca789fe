-- ===== src/MlirGen/Types.antt =====
-- `GetElementType`, `FormatTensorType` and `FormatMlirTensorType` of src/mlir_gen.cc.
pub mod Injective
use onnxruntime_ep_iree.Common.{Bool, true, false, List, [], ◌∷◌, ◌++◌, if◌then◌else◌, Text, codes}
use onnxruntime_ep_iree.Common.Decimal.{ℤ, pos, negsuc, int_to_string}
use onnxruntime_ep_iree.OrtUtils.{OnnxType}
use onnxruntime_ep_iree.MlirGen.Graph.{TypeInfo, tensor, non_tensor}
use onnxruntime_ep_iree.MlirGen.Stream.{write_separated}

unfoldable pub get_element_type : OnnxType → Bool → Text
get_element_type OnnxType.float signless = codes "f32"
get_element_type OnnxType.double signless = codes "f64"
get_element_type OnnxType.float16 signless = codes "f16"
get_element_type OnnxType.bfloat16 signless = codes "bf16"
get_element_type OnnxType.int8 signless = if signless then codes "i8" else codes "si8"
get_element_type OnnxType.int16 signless = if signless then codes "i16" else codes "si16"
get_element_type OnnxType.int32 signless = if signless then codes "i32" else codes "si32"
get_element_type OnnxType.int64 signless = if signless then codes "i64" else codes "si64"
get_element_type OnnxType.uint8 signless = if signless then codes "i8" else codes "ui8"
get_element_type OnnxType.uint16 signless = if signless then codes "i16" else codes "ui16"
get_element_type OnnxType.uint32 signless = if signless then codes "i32" else codes "ui32"
get_element_type OnnxType.uint64 signless = if signless then codes "i64" else codes "ui64"
get_element_type OnnxType.bool signless = codes "i1"
get_element_type _ signless = codes "NYI"

-- One dimension: `?` for a negative one.
unfoldable pub format_dim : ℤ → Text
format_dim (pos n) = int_to_string (pos n)
format_dim (negsuc n) = codes "?"

-- The dimensions of a `tensor<…>`, each with an `x` behind it.
write_mlir_dims : List ℤ → Text → Text
unfolding format_dim
write_mlir_dims [] ss = ss
write_mlir_dims (d ∷ shape) ss = write_mlir_dims shape ((ss ++ format_dim d) ++ codes "x")

unfoldable pub format_tensor_type : TypeInfo → Text
unfolding write_separated format_dim get_element_type
format_tensor_type non_tensor = codes "NYI"
format_tensor_type (tensor shape dtype) =
    write_separated (codes ",") format_dim 0 shape (codes "!torch.vtensor<[")
    ++ (codes "]," ++ (get_element_type dtype false ++ codes ">"))

unfoldable pub format_mlir_tensor_type : TypeInfo → Text
unfolding write_mlir_dims get_element_type
format_mlir_tensor_type non_tensor = codes "NYI"
format_mlir_tensor_type (tensor shape dtype) =
    write_mlir_dims shape (codes "tensor<") ++ (get_element_type dtype true ++ codes ">")
