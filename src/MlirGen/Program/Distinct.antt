-- ===== src/MlirGen/Program/Distinct.antt =====
-- The program of src/mlir_gen.cc defines no SSA name twice, if the sanitized names are distinct.
use mathlib.Core.List.{flat_map, map-map}
use onnxruntime_ep_iree.Common.{
  ℕ, ◌≡◌, refl, ap, ◌∙◌, inl, inr, List, [], ◌∷◌, ◌++◌, map, Text, flat_map-append, All, All-In,
  All-append_left, All-append_right, In, In-append, In-append_left, In-append_right, IsDistinct,
  IsDistinct-append, IsDistinct-left, IsDistinct-right, IsDistinct-apart,
}
use onnxruntime_ep_iree.MlirGen.Graph.{ValueInfo, Initializer, Node, Graph}
use onnxruntime_ep_iree.MlirGen.Generator.{new_generator, generate}
use onnxruntime_ep_iree.MlirGen.Operands.{present}
use onnxruntime_ep_iree.MlirGen.Program.{
  arguments, MlirValue, mlir_value, initializer_statements, node_statement, program_of,
  print_program,
}
use onnxruntime_ep_iree.MlirGen.Program.Printed.{generate-print_program}
use onnxruntime_ep_iree.MlirGen.Program.Names.{
  defined, defined_names, sanitized, sanitized_initializers, sanitized_names, IsPlain, defined_by,
  defined_by_all, IsOf, defined_by_all-IsOf, defined_by_all-IsDistinct,
}

abbrev pub output_names : List Node → List Text
output_names nodes = flat_map (λ node. sanitized (present node.outputs)) nodes

names-mlir_value : (vs : List ValueInfo) → map (λ v. v.name) (map mlir_value vs) ≡ sanitized vs
names-mlir_value vs = map-map (λ (v : MlirValue). v.name) mlir_value vs

defined-initializers :
    (inits : List Initializer)
    → flat_map defined (flat_map initializer_statements inits) ≡ defined_by_all inits
unfolding flat_map
defined-initializers [] = refl
defined-initializers (init ∷ inits) =
    flat_map-append defined (initializer_statements init) _
    ∙ ap (◌++◌ (defined_by init)) (defined-initializers inits)

defined-nodes :
    (nodes : List Node) → flat_map defined (map node_statement nodes) ≡ output_names nodes
unfolding flat_map
defined-nodes [] = refl
defined-nodes (node ∷ nodes) = rw (names-mlir_value (present node.outputs), defined-nodes nodes)

pub defined_names-program_of :
    (graph : Graph)
    → defined_names (program_of graph)
      ≡ sanitized (arguments graph)
        ++ (defined_by_all graph.initializers ++ output_names graph.nodes)
unfolding defined_names program_of
defined_names-program_of graph = rw (
  names-mlir_value (arguments graph),
  flat_map-append defined (flat_map initializer_statements graph.initializers)
      (map node_statement graph.nodes),
  defined-initializers graph.initializers,
  defined-nodes graph.nodes,
)

-- Names in the middle may be joined by the names of their constants.
join_raw :
    (xs names ys middle : List Text)
    → IsDistinct (xs ++ (names ++ ys))
    → All IsPlain (xs ++ (names ++ ys))
    → IsDistinct middle
    → ((z : Text) → In z middle → IsOf z names)
    → IsDistinct (xs ++ (middle ++ ys))
join_raw xs names ys middle d plain dm of =
    IsDistinct-append xs (middle ++ ys) (IsDistinct-left xs _ d)
      (IsDistinct-append middle ys dm (IsDistinct-right names ys (IsDistinct-right xs _ d)) λ z m n.
        elim (of z m) [
          | inl k ↦ IsDistinct-apart names ys (IsDistinct-right xs _ d) z k n
          | inr (name, k, e) ↦
              plain_at z (In-append_right z xs _ (In-append_right z names ys n)) (name, e)
        ])
      λ z m n. elim (In-append z middle ys n) [
        | inl in_middle ↦ elim (of z in_middle) [
          | inl k ↦ IsDistinct-apart xs _ d z m (In-append_left z names ys k)
          | inr (name, k, e) ↦ plain_at z (In-append_left z xs _ m) (name, e)
        ]
        | inr k ↦ IsDistinct-apart xs _ d z m (In-append_right z names ys k)
      ]
  where
    plain_at : (z : Text) → In z (xs ++ (names ++ ys)) → IsPlain z
    plain_at z m = All-In IsPlain _ z plain m

program_of-IsDistinct :
    (graph : Graph)
    → IsDistinct (sanitized_names graph)
    → All IsPlain (sanitized_names graph)
    → IsDistinct (defined_names (program_of graph))
unfolding sanitized_names
program_of-IsDistinct graph d plain =
    let args = sanitized (arguments graph) in
    let names = sanitized_initializers graph.initializers in
    let outs = output_names graph.nodes in
    let own =
      defined_by_all-IsDistinct graph.initializers
        (IsDistinct-left names outs (IsDistinct-right args (names ++ outs) d))
        (All-append_left IsPlain names outs
          (All-append_right IsPlain args (names ++ outs) plain)) in
    rw (defined_names-program_of graph) (
      join_raw args names outs (defined_by_all graph.initializers) d plain own
        (defined_by_all-IsOf graph.initializers))

-- If the sanitized names of the arguments, the initializers and the node outputs are pairwise
-- distinct and none of them starts with `__raw_`, `Generate` prints a program in SSA form: no name is
-- defined twice.
pub generate-IsDistinct :
    (format_e : ℕ → Text) (graph : Graph)
    → IsDistinct (sanitized_names graph)
    → All IsPlain (sanitized_names graph)
    → ((generate format_e graph new_generator).out ≡ print_program format_e (program_of graph))
      × IsDistinct (defined_names (program_of graph))
generate-IsDistinct format_e graph d plain =
    (ap (λ g. g.out) (generate-print_program format_e graph), program_of-IsDistinct graph d plain)
