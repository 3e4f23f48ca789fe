-- ===== src/MlirGen/Program/Valid.antt =====
-- What an ORT graph has to satisfy for the program of src/mlir_gen.cc to be a valid one: the nodes
-- are in topological order, and the data of the small initializers can be read.
use onnxruntime_ep_iree.Common.{◌≡◌, ◌≢◌, true, List, [], ◌∷◌, none, leb, All, In}
use onnxruntime_ep_iree.MlirGen.Graph.{ValueInfo, Initializer, Node, Graph}
use onnxruntime_ep_iree.MlirGen.Generator.{
  init_type, initializer_byte_size, max_inline_initializer_size,
}
use onnxruntime_ep_iree.MlirGen.Operands.{present}
use onnxruntime_ep_iree.MlirGen.Metadata.{initializer_names}

abbrev pub initializer_info : Initializer → ValueInfo
initializer_info init = record { name = init.name; type_info = init_type init }

-- What a node may read after the nodes `earlier`: an input of the graph that no initializer
-- overrides, an initializer, or an output of an earlier node.
pub data Available (graph : Graph) (earlier : List Node) : ValueInfo → Type 0 where
  input :
      {v : ValueInfo}
      → In v graph.inputs
      → ¬ In v.name (initializer_names graph)
      → Available graph earlier v
  initializer :
      (init : Initializer)
      → In init graph.initializers
      → Available graph earlier (initializer_info init)
  output :
      {v : ValueInfo} (node : Node)
      → In node earlier
      → In v (present node.outputs)
      → Available graph earlier v

-- Each node reads what is available where it stands, and the outputs of the graph are available at
-- the end.
unfoldable pub IsSortedFrom : Graph → List Node → List Node → Type 0
IsSortedFrom graph earlier [] = All (Available graph earlier) graph.outputs
IsSortedFrom graph earlier (node ∷ nodes) =
    All (Available graph earlier) (present node.inputs) × IsSortedFrom graph (node ∷ earlier) nodes

abbrev pub IsSorted : Graph → Type 0
IsSorted graph = IsSortedFrom graph [] graph.nodes

abbrev pub IsReadable : Initializer → Type 0
IsReadable init =
    leb (initializer_byte_size init) max_inline_initializer_size ≡ true → init.value ≢ none
