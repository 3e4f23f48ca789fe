-- ===== src/MlirGen/Generator.antt =====
-- `MlirGenerator` of src/mlir_gen.cc up to `Generate`. The output stream is the text written so
-- far, and a method returns the changed generator. `format_e` is `std::format("{:e}")` of the float
-- with the given bits.
mod Pieces
use mathlib.Core.List.{foldl}
use onnxruntime_ep_iree.Common.{
  ℕ, suc, ◌+◌, ◌*◌, ◌%◌, Bool, true, false, not, ◌&&◌, ◌||◌, List, [], ◌∷◌, ◌++◌, map, Option, none,
  some, ltb, leb, if◌then◌else◌, Text, codes, text_eq, is_empty, keep,
}
use onnxruntime_ep_iree.Common.Decimal.{ℤ, pos, int_to_string}
use onnxruntime_ep_iree.OrtUtils.{onnx_element_type_size, size_mod}
use onnxruntime_ep_iree.MlirGen.Graph.{
  TypeInfo, tensor, ValueInfo, Initializer, Attr, attr_int, attr_float, attr_string, attr_ints,
  attr_other, Node, OpSet, Graph,
}
use onnxruntime_ep_iree.MlirGen.Hex.{hex_encode}
use onnxruntime_ep_iree.MlirGen.Names.{sanitize_name}
use onnxruntime_ep_iree.MlirGen.Stream.{write_separated, join}
use onnxruntime_ep_iree.MlirGen.Types.{format_tensor_type, format_mlir_tensor_type}
pub use onnxruntime_ep_iree.MlirGen.Generator.Pieces.{Operands}
unfoldable pub use onnxruntime_ep_iree.MlirGen.Generator.Pieces.{
  max_inline_initializer_size, format, contains, value_ref, argument, type_of,
  initializer_byte_size, init_type, inline_text, parameter_text, no_operands, add_operand, operands,
  wrap_types, format_attribute, format_attributes,
}

pub record ParameterInitializer : Type 0 where
  pub sanitized_name : Text
  pub initializer_index : ℕ

pub record MlirGenerator : Type 0 where
  pub out : Text
  pub graph_name : Text
  pub ir_version : ℤ
  pub opset_version : ℤ
  pub graph_inputs : List ValueInfo
  pub graph_outputs : List ValueInfo
  pub initializers : List Initializer
  pub parameter_initializers : List ParameterInitializer

-- The state that the constructor leaves, over an empty stream.
abbrev pub new_generator : MlirGenerator
new_generator = record {
  out = [];
  graph_name = [];
  ir_version = pos 8;
  opset_version = pos 17;
  graph_inputs = [];
  graph_outputs = [];
  initializers = [];
  parameter_initializers = [];
}

abbrev pub write : MlirGenerator → Text → MlirGenerator
write g text = record g { out = g.out ++ text }

-- The version of the first operator set of the default domain.
unfoldable pub find_opset : List OpSet → ℤ → ℤ
find_opset [] version = version
find_opset (opset ∷ opsets) version =
    if is_empty opset.domain || text_eq opset.domain (codes "ai.onnx")
    then opset.version
    else find_opset opsets version

unfoldable pub collect_metadata : Graph → MlirGenerator → MlirGenerator
unfolding find_opset contains
collect_metadata graph g = record g {
  graph_name =
      (let name = sanitize_name graph.name in if is_empty name then codes "main" else name);
  ir_version = graph.ir_version;
  opset_version = find_opset graph.opsets g.opset_version;
  graph_inputs =
      g.graph_inputs
      ++ keep (λ input. not (contains (map (λ init. init.name) graph.initializers) input.name))
          graph.inputs;
  graph_outputs = graph.outputs;
  initializers = graph.initializers;
}

unfoldable pub emit_module_header : MlirGenerator → MlirGenerator
emit_module_header g = write g (
    format (
      codes "module {\n  func.func @"
      ∷ g.graph_name
      ∷ codes "("
      ∷ write_separated (codes ", ") argument 0 g.graph_inputs []
      ∷ codes ") -> ("
      ∷ write_separated (codes ", ") type_of 0 g.graph_outputs []
      ∷ codes ")\n      attributes {\n        torch.onnx_meta.ir_version = "
      ∷ int_to_string g.ir_version
      ∷ codes " : si64,\n        torch.onnx_meta.opset_version = "
      ∷ int_to_string g.opset_version
      ∷ codes " : si64,\n        torch.onnx_meta.producer_name = \"onnxruntime-ep-iree\",\n"
      ∷ codes "        torch.onnx_meta.producer_version = \"\"\n      } {\n"
      ∷ []))

emit_inline : MlirGenerator → Initializer → Option (List ℕ) → MlirGenerator
emit_inline g init none = g
emit_inline g init (some bytes) = write g (inline_text init bytes)

unfoldable pub emit_initializer : Initializer → ℕ → MlirGenerator → MlirGenerator
unfolding emit_inline
emit_initializer init init_index g =
    if leb (initializer_byte_size init) max_inline_initializer_size
    then emit_inline g init init.value
    else record g {
      out = g.out ++ parameter_text init;
      parameter_initializers =
          g.parameter_initializers
          ++ record { sanitized_name = sanitize_name init.name; initializer_index = init_index }
            ∷ [];
    }

unfoldable pub emit_initializers : ℕ → List Initializer → MlirGenerator → MlirGenerator
emit_initializers i [] g = g
emit_initializers i (init ∷ inits) g = emit_initializers (suc i) inits (emit_initializer init i g)

unfoldable pub emit_return : MlirGenerator → MlirGenerator
emit_return g = write g (
    format (
      codes "    return "
      ∷ write_separated (codes ", ") (λ v. value_ref v.name) 0 g.graph_outputs []
      ∷ codes " : "
      ∷ write_separated (codes ", ") type_of 0 g.graph_outputs []
      ∷ codes "\n"
      ∷ []))

unfoldable pub emit_module_footer : MlirGenerator → MlirGenerator
emit_module_footer g = write (write g (codes "  }\n")) (codes "}\n")

module _ (format_e : ℕ → Text) where
  unfoldable pub emit_node : Node → MlirGenerator → MlirGenerator
  emit_node node g =
      let outs = operands node.outputs in
      let ins = operands node.inputs in
      write g (
        format (
          codes "    "
          ∷ outs.names
          ∷ codes " = torch.operator \"onnx."
          ∷ node.op_type
          ∷ codes "\"("
          ∷ ins.names
          ∷ codes ") {"
          ∷ format_attributes format_e node.attrs
          ∷ codes "} : ("
          ∷ ins.types
          ∷ codes ") -> "
          ∷ wrap_types outs
          ∷ codes "\n"
          ∷ []))

  unfoldable pub emit_nodes : List Node → MlirGenerator → MlirGenerator
  emit_nodes [] g = g
  emit_nodes (node ∷ nodes) g = emit_nodes nodes (emit_node node g)

  unfoldable pub emit_function_body : Graph → MlirGenerator → MlirGenerator
  emit_function_body graph g =
      emit_return (emit_nodes graph.nodes (emit_initializers 0 g.initializers g))

  unfoldable pub generate : Graph → MlirGenerator → MlirGenerator
  generate graph g =
      emit_module_footer (emit_function_body graph (emit_module_header (collect_metadata graph g)))
