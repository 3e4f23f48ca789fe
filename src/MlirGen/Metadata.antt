-- ===== src/MlirGen/Metadata.antt =====
-- What `CollectMetadata` collects.
use onnxruntime_ep_iree.Common.{
  ◌≡◌, ◌↔◌, true, not, List, [], ◌∷◌, map, arith, Text, text_eq_iff, In, In-keep,
}
use onnxruntime_ep_iree.MlirGen.Graph.{ValueInfo, Graph}
use onnxruntime_ep_iree.MlirGen.Generator.{contains, collect_metadata, new_generator}

contains-In : (names : List Text) (name : Text) → (contains names name ≡ true) ↔ In name names
unfolding contains
contains-In [] name = (λ h. cc, λ m. absurd m)
contains-In (n ∷ names) name = ground (arith, contains-In names name, text_eq_iff n name)

abbrev pub initializer_names : Graph → List Text
initializer_names graph = map (λ init. init.name) graph.initializers

-- The arguments of the function are those graph inputs whose name is not the name of an initializer.
pub graph_inputs-In :
    (graph : Graph) (v : ValueInfo)
    → In v (collect_metadata graph new_generator).graph_inputs
      ↔ (In v graph.inputs × ¬ In v.name (initializer_names graph))
unfolding collect_metadata
graph_inputs-In graph v = ground (
  arith,
  In-keep (λ (input : ValueInfo). not (contains (initializer_names graph) input.name)) graph.inputs
      v,
  contains-In (initializer_names graph) v.name,
)
