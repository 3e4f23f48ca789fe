-- ===== src/MlirGen/Program/Collected.antt =====
-- `CollectMetadata` of src/mlir_gen.cc collects what the program of the graph is made of.
use onnxruntime_ep_iree.Common.{
  ◌≡◌, refl, ap, inl, inr, Bool, not, List, [], ◌∷◌, map, Text, text_eq, is_empty, keep, Bool-cases,
}
use onnxruntime_ep_iree.Common.Decimal.{pos}
use onnxruntime_ep_iree.MlirGen.Graph.{Initializer, OpSet, Graph}
use onnxruntime_ep_iree.MlirGen.Names.{sanitize_name}
use onnxruntime_ep_iree.MlirGen.Names.Laws.{sanitize_name-ne}
use onnxruntime_ep_iree.MlirGen.Generator.{contains, find_opset, new_generator, collect_metadata}
use onnxruntime_ep_iree.MlirGen.Program.{arguments, is_default_domain, default_version}

contains-keep :
    (inits : List Initializer) (name : Text)
    → contains (map (λ init. init.name) inits) name
      ≡ not (is_empty (keep (λ init. text_eq init.name name) inits))
unfolding contains keep
contains-keep [] name = refl
contains-keep (init ∷ inits) name = elim (Bool-cases (text_eq init.name name)) [
  | inl e ↦ rw (e, keep)
  | inr e ↦ rw (e, keep) (contains-keep inits name)
]

keep-same :
    {A : Type 0} (p q : A → Bool) (xs : List A) → ((x : A) → p x ≡ q x) → keep p xs ≡ keep q xs
unfolding keep
keep-same p q [] h = refl
keep-same p q (x ∷ xs) h = rw (h x, keep-same p q xs h)

pub graph_inputs-arguments :
    (graph : Graph) → (collect_metadata graph new_generator).graph_inputs ≡ arguments graph
unfolding collect_metadata arguments
graph_inputs-arguments graph =
    keep-same _ _ graph.inputs λ input. ap not (contains-keep graph.initializers input.name)

find_opset-keep :
    (opsets : List OpSet)
    → find_opset opsets (pos 17)
      ≡ (elim (keep is_default_domain opsets) [ [] ↦ pos 17 | opset ∷ rest ↦ opset.version ])
unfolding find_opset keep
find_opset-keep [] = refl
find_opset-keep (opset ∷ opsets) = elim (Bool-cases (is_default_domain opset)) [
  | inl e ↦ rw (e, keep)
  | inr e ↦ rw (e, keep) (find_opset-keep opsets)
]

pub opset_version-default_version :
    (graph : Graph) → (collect_metadata graph new_generator).opset_version ≡ default_version graph
unfolding collect_metadata default_version
opset_version-default_version graph = find_opset-keep graph.opsets

pub graph_name-sanitize_name :
    (graph : Graph) → (collect_metadata graph new_generator).graph_name ≡ sanitize_name graph.name
unfolding collect_metadata
graph_name-sanitize_name graph = rw (sanitize_name-ne graph.name)
