-- ===== src/MlirGen/Program.antt =====
-- The program that src/mlir_gen.cc writes, as syntax: values with their types, the four operations
-- that the generator emits, and the program of an ORT graph. `print_program` is its text.
pub mod Collected
pub mod Printed
pub mod Typing
pub mod Valid
pub mod Typed
pub mod Names
pub mod Distinct
pub mod Unreadable
use mathlib.Core.List.{flat_map}
use onnxruntime_ep_iree.Common.{
  ℕ, Bool, not, ◌||◌, List, [], ◌∷◌, ◌++◌, map, none, some, ltb, leb, if◌then◌else◌, Text, codes,
  length, keep, text_eq, is_empty,
}
use onnxruntime_ep_iree.Common.Decimal.{ℤ, pos, int_to_string}
use onnxruntime_ep_iree.MlirGen.Graph.{TypeInfo, ValueInfo, Initializer, Attr, Node, OpSet, Graph}
use onnxruntime_ep_iree.MlirGen.Hex.{hex_encode}
use onnxruntime_ep_iree.MlirGen.Names.{sanitize_name}
use onnxruntime_ep_iree.MlirGen.Types.{format_tensor_type, format_mlir_tensor_type}
use onnxruntime_ep_iree.MlirGen.Operands.{present}
use onnxruntime_ep_iree.MlirGen.Lines.{comma_list}
use onnxruntime_ep_iree.MlirGen.Generator.{
  format, format_attribute, init_type, initializer_byte_size, max_inline_initializer_size,
}

-- `!torch.vtensor<…>` and `tensor<…>`.
pub data MlirType : Type 0 where
  vtensor builtin : TypeInfo → MlirType

-- An SSA value, its name without the `%`.
pub record MlirValue : Type 0 where
  pub name : Text
  pub type : MlirType

-- `dense<"0x…">` and `#flow.parameter.named<"model"::"…">`.
pub data Literal : Type 0 where
  dense : List ℕ → Literal
  parameter : Text → Literal

pub data Statement : Type 0 where
  -- `flow.tensor.constant`
  constant_op : MlirValue → Literal → Statement
  -- `torch_c.from_builtin_tensor`: the result, then the operand
  cast_op : MlirValue → MlirValue → Statement
  -- `torch.operator`: the results, the name of the ONNX operator, the operands and the attributes
  operator_op : List MlirValue → Text → List MlirValue → List Attr → Statement

pub record Program : Type 0 where
  pub symbol : Text
  pub arguments : List MlirValue
  pub result_types : List MlirType
  pub ir_version : ℤ
  pub opset_version : ℤ
  pub body : List Statement
  pub returned : List MlirValue

abbrev pub print_type : MlirType → Text
print_type (vtensor t) = format_tensor_type t
print_type (builtin t) = format_mlir_tensor_type t

abbrev pub print_value : MlirValue → Text
print_value v = codes "%" ++ v.name

abbrev pub print_argument : MlirValue → Text
print_argument v = print_value v ++ (codes ": " ++ print_type v.type)

abbrev pub print_value_type : MlirValue → Text
print_value_type v = print_type v.type

abbrev pub print_literal : Literal → Text
print_literal (dense bytes) = codes "dense<\"" ++ (hex_encode bytes ++ codes "\">")
print_literal (parameter key) = codes "#flow.parameter.named<\"model\"::\"" ++ (key ++ codes "\">")

module _ (format_e : ℕ → Text) where
  unfoldable pub print_statement : Statement → Text
  print_statement (constant_op result literal) = format (
      codes "    "
      ∷ print_value result
      ∷ codes " = flow.tensor.constant "
      ∷ print_literal literal
      ∷ codes " : "
      ∷ print_type result.type
      ∷ codes "\n"
      ∷ [])
  print_statement (cast_op result operand) = format (
      codes "    "
      ∷ print_value result
      ∷ codes " = torch_c.from_builtin_tensor "
      ∷ print_value operand
      ∷ codes " : "
      ∷ print_type operand.type
      ∷ codes " -> "
      ∷ print_type result.type
      ∷ codes "\n"
      ∷ [])
  print_statement (operator_op results op_type operands attrs) = format (
      codes "    "
      ∷ comma_list print_value results
      ∷ codes " = torch.operator \"onnx."
      ∷ op_type
      ∷ codes "\"("
      ∷ comma_list print_value operands
      ∷ codes ") {"
      ∷ comma_list (format_attribute format_e) attrs
      ∷ codes "} : ("
      ∷ comma_list print_value_type operands
      ∷ codes ") -> "
      ∷ (if ltb 1 (length results)
          then codes "(" ++ (comma_list print_value_type results ++ codes ")")
          else comma_list print_value_type results)
      ∷ codes "\n"
      ∷ [])

  unfoldable pub print_program : Program → Text
  print_program p = format (
      codes "module {\n  func.func @"
      ∷ p.symbol
      ∷ codes "("
      ∷ comma_list print_argument p.arguments
      ∷ codes ") -> ("
      ∷ comma_list print_type p.result_types
      ∷ codes ")\n      attributes {\n        torch.onnx_meta.ir_version = "
      ∷ int_to_string p.ir_version
      ∷ codes " : si64,\n        torch.onnx_meta.opset_version = "
      ∷ int_to_string p.opset_version
      ∷ codes " : si64,\n        torch.onnx_meta.producer_name = \"onnxruntime-ep-iree\",\n"
      ∷ codes "        torch.onnx_meta.producer_version = \"\"\n      } {\n"
      ∷ flat_map print_statement p.body
      ∷ codes "    return "
      ∷ comma_list print_value p.returned
      ∷ codes " : "
      ∷ comma_list print_value_type p.returned
      ∷ codes "\n  }\n}\n"
      ∷ [])

-- The value of an input, an output or an operand.
abbrev pub mlir_value : ValueInfo → MlirValue
mlir_value v = record { name = sanitize_name v.name; type = vtensor v.type_info }

-- The value of an initializer, and the constant that it is cast from.
abbrev pub initializer_value : Initializer → MlirValue
initializer_value init = record { name = sanitize_name init.name; type = vtensor (init_type init) }

abbrev pub raw_value : Initializer → MlirValue
raw_value init = record {
  name = codes "__raw_" ++ sanitize_name init.name;
  type = builtin (init_type init);
}

abbrev pub initializer_pair : Initializer → Literal → List Statement
initializer_pair init literal =
    constant_op (raw_value init) literal ∷ cast_op (initializer_value init) (raw_value init) ∷ []

-- A constant and its cast; nothing where the data of a small initializer cannot be read.
unfoldable pub initializer_statements : Initializer → List Statement
initializer_statements init =
    if leb (initializer_byte_size init) max_inline_initializer_size
    then elim init.value [ none ↦ [] | some bytes ↦ initializer_pair init (dense bytes) ]
    else initializer_pair init (parameter (sanitize_name init.name))

abbrev pub node_statement : Node → Statement
node_statement node =
    operator_op (map mlir_value (present node.outputs)) node.op_type
      (map mlir_value (present node.inputs)) node.attrs

-- An initializer of the graph has the name of the input.
abbrev pub is_overridden : Graph → ValueInfo → Bool
is_overridden graph input =
    not (is_empty (keep (λ init. text_eq init.name input.name) graph.initializers))

-- The inputs that no initializer overrides.
unfoldable pub arguments : Graph → List ValueInfo
arguments graph = keep (λ input. not (is_overridden graph input)) graph.inputs

abbrev pub is_default_domain : OpSet → Bool
is_default_domain opset = is_empty opset.domain || text_eq opset.domain (codes "ai.onnx")

-- The version of the first operator set of the default domain, or 17.
unfoldable pub default_version : Graph → ℤ
default_version graph = elim (keep is_default_domain graph.opsets) [
  | [] ↦ pos 17
  | opset ∷ rest ↦ opset.version
]

unfoldable pub program_of : Graph → Program
program_of graph = record {
  symbol = sanitize_name graph.name;
  arguments = map mlir_value (arguments graph);
  result_types = map (λ v. vtensor v.type_info) graph.outputs;
  ir_version = graph.ir_version;
  opset_version = default_version graph;
  body = flat_map initializer_statements graph.initializers ++ map node_statement graph.nodes;
  returned = map mlir_value graph.outputs;
}
