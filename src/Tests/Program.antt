-- ===== src/Tests/Program.antt =====
-- The program of a graph with two nodes, an inlined initializer and a parameter.
use onnxruntime_ep_iree.Common.{
  ◌≡◌, refl, sym, ◌∙◌, subst, inl, inr, arith, List, [], ◌∷◌, none, some, codes, Text, All,
  IsDistinct, keep, text_eq,
}
use mathlib.Core.List.{flat_map}
use onnxruntime_ep_iree.MlirGen.Names.{sanitize_name}
use onnxruntime_ep_iree.Common.Decimal.{pos, negsuc}
use onnxruntime_ep_iree.OrtUtils.{OnnxType, onnx_element_type_size}
use onnxruntime_ep_iree.MlirGen.Graph.{tensor, ValueInfo, Initializer, Node, Graph}
use onnxruntime_ep_iree.MlirGen.Generator.{
  collect_metadata, new_generator, emit_node, generate, initializer_byte_size,
}
use onnxruntime_ep_iree.MlirGen.Operands.{present}
use onnxruntime_ep_iree.MlirGen.Types.{get_element_type, format_tensor_type}
use onnxruntime_ep_iree.MlirGen.Types.Injective.{dim, format_tensor_type-injective}
use onnxruntime_ep_iree.Common.{map}
use onnxruntime_ep_iree.MlirGen.Lines.{parameters_from}
use onnxruntime_ep_iree.MlirGen.Emission.{emit_node-left_out}
use onnxruntime_ep_iree.MlirGen.Program.{arguments, print_program, program_of}
use onnxruntime_ep_iree.MlirGen.Program.Printed.{generate-print_program}
use onnxruntime_ep_iree.MlirGen.Program.Typing.{WellTyped}
use onnxruntime_ep_iree.MlirGen.Program.Valid.{
  input, initializer, output, initializer_info, IsSortedFrom, IsSorted, IsReadable,
}
use onnxruntime_ep_iree.MlirGen.Program.Typed.{generate-WellTyped}
use onnxruntime_ep_iree.MlirGen.Program.Names.{sanitized_names, defined_names, IsPlain}
use onnxruntime_ep_iree.MlirGen.Program.Distinct.{generate-IsDistinct}
use onnxruntime_ep_iree.MlirGen.Program.Unreadable.{generate-unreadable}
use onnxruntime_ep_iree.Tests.Gen.{float_text, x, bias, weights}

abbrev hidden : ValueInfo
hidden = record { name = codes "h/0"; type_info = tensor (negsuc 0 ∷ pos 100 ∷ []) OnnxType.float }

abbrev z : ValueInfo
z = record { name = codes "z"; type_info = tensor (negsuc 0 ∷ pos 100 ∷ []) OnnxType.float }

abbrev multiply : Node
multiply = record {
  op_type = codes "Mul";
  inputs = some x ∷ some (initializer_info weights) ∷ [];
  outputs = some hidden ∷ [];
  attrs = [];
}

-- `Clip` with the lower bound left out.
abbrev clip : Node
clip = record {
  op_type = codes "Clip";
  inputs = some hidden ∷ none ∷ some (initializer_info bias) ∷ [];
  outputs = some z ∷ [];
  attrs = [];
}

abbrev graph : Graph
graph = record {
  name = codes "main";
  ir_version = pos 8;
  opsets = record { domain = []; version = pos 19 } ∷ [];
  inputs = x ∷ [];
  outputs = z ∷ [];
  initializers = bias ∷ weights ∷ [];
  nodes = multiply ∷ clip ∷ [];
  model_path = [];
}

generate-print_program_example :
    generate float_text graph new_generator ≡ record (collect_metadata graph new_generator) {
      out = print_program float_text (program_of graph);
      parameter_initializers = parameters_from 0 graph.initializers;
    }
generate-print_program_example = generate-print_program float_text graph

graph-IsSorted : IsSorted graph
unfolding IsSortedFrom present
graph-IsSorted = (
  (input (inl refl) (λ m. ground arith), (initializer weights (inr (inl refl)), tt)),
  (
    (output multiply (inl refl) (inl refl), (initializer bias (inl refl), tt)),
    (output clip (inl refl) (inl refl), tt),
  ),
)

graph-IsReadable : All IsReadable graph.initializers
unfolding initializer_byte_size onnx_element_type_size
graph-IsReadable = ((λ _ e. cc), (λ e. cc, tt))

generate-WellTyped_example :
    ((generate float_text graph new_generator).out ≡ print_program float_text (program_of graph))
    × WellTyped (program_of graph)
generate-WellTyped_example = generate-WellTyped graph float_text graph-IsSorted graph-IsReadable

abbrev graph_names : List Text
graph_names = codes "x" ∷ codes "b" ∷ codes "w" ∷ codes "h_0" ∷ codes "z" ∷ []

graph_names_lem : sanitized_names graph ≡ graph_names
unfolding sanitized_names arguments keep text_eq sanitize_name flat_map present
graph_names_lem = refl

graph-IsDistinct : IsDistinct (sanitized_names graph)
graph-IsDistinct = rw graph_names_lem (ground arith)

graph-IsPlain : All IsPlain (sanitized_names graph)
graph-IsPlain = rw graph_names_lem (
  (λ (rest, e). cc),
  ((λ (rest, e). cc), ((λ (rest, e). cc), ((λ (rest, e). cc), ((λ (rest, e). cc), tt)))),
)

generate-IsDistinct_example :
    ((generate float_text graph new_generator).out ≡ print_program float_text (program_of graph))
    × IsDistinct (defined_names (program_of graph))
generate-IsDistinct_example = generate-IsDistinct float_text graph graph-IsDistinct graph-IsPlain

-- `bias` again, with its data out of reach.
abbrev lost : Initializer
lost = record bias { value = none }

abbrev lost_graph : Graph
lost_graph = record graph { initializers = lost ∷ weights ∷ [] }

lost_names_lem : sanitized_names lost_graph ≡ graph_names
unfolding sanitized_names arguments keep text_eq sanitize_name flat_map present
lost_names_lem = refl

generate-unreadable_example :
    ((generate float_text lost_graph new_generator).out
      ≡ print_program float_text (program_of lost_graph))
    × ¬ WellTyped (program_of lost_graph)
generate-unreadable_example =
    generate-unreadable float_text lost_graph [] (weights ∷ []) lost clip refl
      (unfold initializer_byte_size onnx_element_type_size in refl) refl (inr (inl refl))
      (unfold present in inr (inl refl))
      (subst IsDistinct (sym (lost_names_lem ∙ sym graph_names_lem)) graph-IsDistinct)
      (subst (All IsPlain) (sym (lost_names_lem ∙ sym graph_names_lem)) graph-IsPlain)

emit_node-left_out_example :
    emit_node float_text clip new_generator
    ≡ emit_node float_text
        (record clip { inputs = some hidden ∷ some (initializer_info bias) ∷ [] })
        new_generator
emit_node-left_out_example =
    emit_node-left_out float_text clip (some hidden ∷ []) (some (initializer_info bias) ∷ [])
      new_generator

-- A static dimension, and a dynamic one that is given by another negative number.
format_tensor_type-injective_example :
    (map dim (negsuc 0 ∷ pos 100 ∷ []) ≡ map dim (negsuc 4 ∷ pos 100 ∷ []))
    × (OnnxType.uint8 ≡ OnnxType.uint8)
unfolding get_element_type text_eq
format_tensor_type-injective_example =
    format_tensor_type-injective (negsuc 0 ∷ pos 100 ∷ []) (negsuc 4 ∷ pos 100 ∷ []) OnnxType.uint8
      OnnxType.uint8 refl refl (unfold format_tensor_type in refl)
