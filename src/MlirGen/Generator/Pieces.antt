-- ===== src/MlirGen/Generator/Pieces.antt =====
-- The pieces of text that `MlirGenerator` of src/mlir_gen.cc writes, and the operand loops of
-- `EmitNode`. `format_e` is `std::format("{:e}")` of the float with the given bits.
use mathlib.Core.List.{foldl}
use onnxruntime_ep_iree.Common.{
  ℕ, ◌+◌, ◌*◌, ◌%◌, Bool, true, false, not, ◌&&◌, ◌||◌, List, [], ◌∷◌, ◌++◌, map, Option, none,
  some, ltb, if◌then◌else◌, Text, codes, text_eq, is_empty,
}
use onnxruntime_ep_iree.Common.Decimal.{int_to_string}
use onnxruntime_ep_iree.OrtUtils.{onnx_element_type_size, size_mod}
use onnxruntime_ep_iree.MlirGen.Graph.{
  TypeInfo, tensor, ValueInfo, Initializer, Attr, attr_int, attr_float, attr_string, attr_ints,
  attr_other,
}
use onnxruntime_ep_iree.MlirGen.Hex.{hex_encode}
use onnxruntime_ep_iree.MlirGen.Names.{sanitize_name}
use onnxruntime_ep_iree.MlirGen.Stream.{write_separated, join}
use onnxruntime_ep_iree.MlirGen.Types.{format_tensor_type, format_mlir_tensor_type}

abbrev pub max_inline_initializer_size : ℕ
max_inline_initializer_size = 256

-- The pieces of a format string and its arguments, in order.
unfoldable pub format : List Text → Text
format [] = []
format (t ∷ ts) = t ++ format ts

-- `init_names.find(name) != init_names.end()`
unfoldable pub contains : List Text → Text → Bool
contains [] name = false
contains (n ∷ names) name = text_eq n name || contains names name

abbrev pub value_ref : Text → Text
value_ref name = codes "%" ++ sanitize_name name

abbrev pub argument : ValueInfo → Text
argument v = value_ref v.name ++ (codes ": " ++ format_tensor_type v.type_info)

abbrev pub type_of : ValueInfo → Text
type_of v = format_tensor_type v.type_info

-- `GetElementCount() * OnnxElementTypeSize(…)`, in `size_t`.
unfoldable pub initializer_byte_size : Initializer → ℕ
initializer_byte_size init =
    (init.element_count * onnx_element_type_size init.element_type) % size_mod

abbrev pub init_type : Initializer → TypeInfo
init_type init = tensor init.shape init.element_type

-- The second line of both forms.
abbrev cast_text : Text → Initializer → Text
cast_text name init = format (
    codes "    %"
    ∷ name
    ∷ codes " = torch_c.from_builtin_tensor %__raw_"
    ∷ name
    ∷ codes " : "
    ∷ format_mlir_tensor_type (init_type init)
    ∷ codes " -> "
    ∷ format_tensor_type (init_type init)
    ∷ codes "\n"
    ∷ [])

unfoldable pub inline_text : Initializer → List ℕ → Text
inline_text init bytes =
    let name = sanitize_name init.name in
    format (
      codes "    %__raw_"
      ∷ name
      ∷ codes " = flow.tensor.constant dense<\""
      ∷ hex_encode bytes
      ∷ codes "\"> : "
      ∷ format_mlir_tensor_type (init_type init)
      ∷ codes "\n"
      ∷ cast_text name init
      ∷ [])

unfoldable pub parameter_text : Initializer → Text
parameter_text init =
    let name = sanitize_name init.name in
    format (
      codes "    %__raw_"
      ∷ name
      ∷ codes " = flow.tensor.constant #flow.parameter.named<\"model\"::\""
      ∷ name
      ∷ codes "\"> : "
      ∷ format_mlir_tensor_type (init_type init)
      ∷ codes "\n"
      ∷ cast_text name init
      ∷ [])

-- The streams and counters of one of the two operand loops of `EmitNode`.
pub record Operands : Type 0 where
  pub names : Text
  pub types : Text
  pub first : Bool
  pub count : ℕ

abbrev pub no_operands : Operands
no_operands = record { names = []; types = []; first = true; count = 0 }

-- One round: a null operand and one with no name are skipped.
unfoldable pub add_operand : Operands → Option ValueInfo → Operands
add_operand o none = o
add_operand o (some v) = if is_empty v.name then o else record {
  names = (if o.first then o.names else o.names ++ codes ", ") ++ value_ref v.name;
  types = (if o.first then o.types else o.types ++ codes ", ") ++ type_of v;
  first = false;
  count = o.count + 1;
}

unfoldable pub operands : List (Option ValueInfo) → Operands
unfolding add_operand
operands = foldl add_operand no_operands

-- The result types, in parentheses if there is more than one.
abbrev pub wrap_types : Operands → Text
wrap_types outs =
    if ltb 1 outs.count && not (is_empty outs.types)
    then codes "(" ++ (outs.types ++ codes ")")
    else outs.types

module _ (format_e : ℕ → Text) where
  unfoldable pub format_attribute : Attr → Text
  format_attribute attr = elim attr.value [
    | attr_int value ↦
        format (
          codes "torch.onnx."
          ∷ attr.name
          ∷ codes " = "
          ∷ int_to_string value
          ∷ codes " : si64"
          ∷ [])
    | attr_float value ↦
        format
          (codes "torch.onnx." ∷ attr.name ∷ codes " = " ∷ format_e value ∷ codes " : f32" ∷ [])
    | attr_string value ↦
        format (codes "torch.onnx." ∷ attr.name ∷ codes " = \"" ∷ value ∷ codes "\"" ∷ [])
    | attr_ints values ↦ format (
        codes "torch.onnx."
        ∷ attr.name
        ∷ codes " = ["
        ∷ join (map (λ v. int_to_string v ++ codes " : si64") values) (codes ", ")
        ∷ codes "]"
        ∷ [])
    | attr_other ↦ format (codes "torch.onnx." ∷ attr.name ∷ codes " = \"NYI\"" ∷ [])
  ]

  unfoldable pub format_attributes : List Attr → Text
  format_attributes [] = []
  format_attributes (attr ∷ attrs) =
      write_separated (codes ", ") format_attribute 0 (attr ∷ attrs) []
