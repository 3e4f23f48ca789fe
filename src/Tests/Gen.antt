-- ===== src/Tests/Gen.antt =====
-- Runs of `MlirGenerator` on a graph with an inlined initializer, a parameter and two nodes.
use onnxruntime_ep_iree.Common.{
  ℕ, ◌≡◌, refl, [], ◌∷◌, List, Option, none, some, Text, codes, All, In, get_elem?,
}
use onnxruntime_ep_iree.Common.Decimal.{pos, negsuc}
use onnxruntime_ep_iree.OrtUtils.{OnnxType}
use onnxruntime_ep_iree.MlirGen.Graph.{
  tensor, ValueInfo, Initializer, in_memory, attr_int, Node, Graph,
}
use onnxruntime_ep_iree.MlirGen.Generator.{collect_metadata, new_generator, generate, operands}
use onnxruntime_ep_iree.MlirGen.Parameters.{Refers, IsLarge, parameter_at, generate-parameters}

-- A stand-in for `std::format("{:e}")`.
abbrev pub float_text : ℕ → Text
float_text bits = codes "0.000000e+00"

abbrev pub x : ValueInfo
x = record { name = codes "x"; type_info = tensor (negsuc 0 ∷ pos 2 ∷ []) OnnxType.float }

abbrev y : ValueInfo
y = record { name = codes "y:0"; type_info = tensor (pos 2 ∷ []) OnnxType.float }

abbrev pub bias : Initializer
bias = record {
  name = codes "b";
  shape = pos 1 ∷ [];
  element_type = OnnxType.float;
  element_count = 1;
  value = some (0 ∷ 0 ∷ 128 ∷ 63 ∷ []);
  external = in_memory;
}

abbrev pub weights : Initializer
weights = record {
  name = codes "w";
  shape = pos 100 ∷ [];
  element_type = OnnxType.float;
  element_count = 100;
  value = none;
  external = in_memory;
}

abbrev node : Node
node = record {
  op_type = codes "Clip";
  inputs = some x ∷ none ∷ some y ∷ [];
  outputs = some y ∷ [];
  attrs = record { name = codes "axis"; value = attr_int (negsuc 0) } ∷ [];
}

abbrev graph : Graph
graph = record {
  name = codes "main";
  ir_version = pos 8;
  opsets = record { domain = []; version = pos 19 } ∷ [];
  inputs = x ∷ y ∷ [];
  outputs = y ∷ [];
  initializers = bias ∷ weights ∷ [];
  nodes = node ∷ [];
  model_path = [];
}

opset : (collect_metadata graph new_generator).opset_version ≡ pos 19
unfolding collect_metadata
opset = refl

skipped : (operands node.inputs).count ≡ 2
unfolding operands
skipped = refl

generate-parameters_example :
    All
      (Refers 0 graph.initializers)
      (generate float_text graph new_generator).parameter_initializers
    × ((k : ℕ) (init : Initializer)
        → get_elem? graph.initializers k ≡ some init
        → IsLarge init
        → In (parameter_at k init) (generate float_text graph new_generator).parameter_initializers)
generate-parameters_example = generate-parameters float_text graph

abbrev two_outputs : List (Option ValueInfo)
two_outputs = some x ∷ none ∷ some y ∷ []
