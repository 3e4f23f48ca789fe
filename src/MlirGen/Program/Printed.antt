-- ===== src/MlirGen/Program/Printed.antt =====
-- `Generate` of src/mlir_gen.cc prints the program of the graph.
use mathlib.Core.List.{flat_map, map-map}
use onnxruntime_ep_iree.Common.{
  ℕ, ◌≡◌, refl, sym, ap, ◌∙◌, List, [], ◌∷◌, map, suc, Option, none, some, inl, inr, Bool-cases,
  leb, Text, codes, intercalate, length, append_assoc, flat_map-append,
}
use onnxruntime_ep_iree.MlirGen.Graph.{ValueInfo, Initializer, Node, Graph}
use onnxruntime_ep_iree.MlirGen.Generator.{
  new_generator, collect_metadata, generate, format, inline_text, parameter_text,
  initializer_byte_size, max_inline_initializer_size,
}
use onnxruntime_ep_iree.MlirGen.Names.{sanitize_name}
use onnxruntime_ep_iree.MlirGen.Operands.{present}
use onnxruntime_ep_iree.MlirGen.Lines.{
  comma_list, initializer_text, header_text, return_text, parameters_from,
}
use onnxruntime_ep_iree.MlirGen.Emission.{node_text, module_text, generate-module_text}
use onnxruntime_ep_iree.MlirGen.Program.Collected.{
  graph_inputs-arguments, opset_version-default_version, graph_name-sanitize_name,
}
use onnxruntime_ep_iree.MlirGen.Program.{
  Program, initializer_pair, dense, parameter, print_statement, print_program, mlir_value,
  print_value, print_value_type, print_argument, print_type, vtensor, initializer_statements,
  node_statement, program_of,
}

comma_list-map :
    {A B : Type 0} (piece : B → Text) (f : A → B) (xs : List A)
    → comma_list piece (map f xs) ≡ comma_list (λ x. piece (f x)) xs
comma_list-map piece f xs = ap (intercalate (codes ", ")) (map-map piece f xs)

length-map : {A B : Type 0} (f : A → B) (xs : List A) → length (map f xs) ≡ length xs
length-map f [] = refl
length-map f (x ∷ xs) = ap suc (length-map f xs)

-- The program of what `CollectMetadata` leaves in the members.
collected_program : Graph → Program
collected_program graph =
    let c = collect_metadata graph new_generator in
    record (program_of graph) {
      symbol = c.graph_name;
      arguments = map mlir_value c.graph_inputs;
      ir_version = c.ir_version;
      opset_version = c.opset_version;
    }

collected_program-program_of : (graph : Graph) → collected_program graph ≡ program_of graph
unfolding collected_program collect_metadata program_of
collected_program-program_of graph = λ k. record (program_of graph) {
  symbol = graph_name-sanitize_name graph k;
  arguments = map mlir_value (graph_inputs-arguments graph k);
  opset_version = opset_version-default_version graph k;
}

module _ (format_e : ℕ → Text) where
  print_inline :
      (init : Initializer) (bytes : List ℕ)
      → flat_map (print_statement format_e) (initializer_pair init (dense bytes))
        ≡ inline_text init bytes
  unfolding flat_map print_statement inline_text format
  print_inline init bytes = simp append_assoc

  print_parameter :
      (init : Initializer)
      → flat_map
          (print_statement format_e)
          (initializer_pair init (parameter (sanitize_name init.name)))
        ≡ parameter_text init
  unfolding flat_map print_statement parameter_text format
  print_parameter init = simp append_assoc

  print_initializer :
      (init : Initializer)
      → flat_map (print_statement format_e) (initializer_statements init) ≡ initializer_text init
  unfolding initializer_statements initializer_text flat_map
  print_initializer init =
      elim (Bool-cases (leb (initializer_byte_size init) max_inline_initializer_size)) [
        | inl small ↦ rw small (by_value init.value)
        | inr large ↦ rw large (print_parameter init)
      ]
    where
      by_value :
          (value : Option (List ℕ))
          → flat_map
              (print_statement format_e)
              (elim value [ none ↦ [] | some bytes ↦ initializer_pair init (dense bytes) ])
            ≡ (elim value [ none ↦ [] | some bytes ↦ inline_text init bytes ])
      by_value none = refl
      by_value (some bytes) = print_inline init bytes

  print_initializers :
      (inits : List Initializer)
      → flat_map (print_statement format_e) (flat_map initializer_statements inits)
        ≡ flat_map initializer_text inits
  unfolding flat_map
  print_initializers [] = refl
  print_initializers (init ∷ inits) =
      flat_map-append (print_statement format_e) (initializer_statements init) _
      ∙ rw (print_initializer init, print_initializers inits)

  print_node :
      (node : Node) → print_statement format_e (node_statement node) ≡ node_text format_e node
  unfolding print_statement node_text
  print_node node = rw (
    comma_list-map print_value mlir_value (present node.outputs),
    comma_list-map print_value_type mlir_value (present node.outputs),
    comma_list-map print_value mlir_value (present node.inputs),
    comma_list-map print_value_type mlir_value (present node.inputs),
    length-map mlir_value (present node.outputs),
  )

  print_nodes :
      (nodes : List Node)
      → flat_map (print_statement format_e) (map node_statement nodes)
        ≡ flat_map (node_text format_e) nodes
  unfolding flat_map
  print_nodes [] = refl
  print_nodes (node ∷ nodes) = rw (print_node node, print_nodes nodes)

  print_program-collected :
      (graph : Graph)
      → print_program format_e (collected_program graph) ≡ module_text format_e graph
  unfolding print_program collected_program program_of module_text header_text return_text format
      collect_metadata
  print_program-collected graph =
      let c = collect_metadata graph new_generator in
      rw
        (
          comma_list-map print_argument mlir_value c.graph_inputs,
          flat_map-append (print_statement format_e)
              (flat_map initializer_statements graph.initializers) (map node_statement graph.nodes),
          print_initializers graph.initializers,
          print_nodes graph.nodes,
          comma_list-map print_type (λ (v : ValueInfo). vtensor v.type_info) graph.outputs,
          comma_list-map print_value mlir_value graph.outputs,
          comma_list-map print_value_type mlir_value graph.outputs,
        )
        (simp append_assoc)

  print_program-module_text :
      (graph : Graph) → print_program format_e (program_of graph) ≡ module_text format_e graph
  print_program-module_text graph =
      ap (print_program format_e) (sym (collected_program-program_of graph))
      ∙ print_program-collected graph

  -- `Generate` writes the text of the program of the graph: the function, named by the sanitized
  -- name of the graph, with the IR version and the version of the first operator set of the
  -- default domain, or 17, over the inputs that are no initializers, a constant and a cast for
  -- each initializer that can be read, one operator for each node over the operands that are
  -- present, and the return of the graph's outputs. It lists the parameters of the large
  -- initializers.
  pub generate-print_program :
      (graph : Graph)
      → generate format_e graph new_generator ≡ record (collect_metadata graph new_generator) {
        out = print_program format_e (program_of graph);
        parameter_initializers = parameters_from 0 graph.initializers;
      }
  generate-print_program graph =
      rw (print_program-module_text graph) (generate-module_text format_e graph)
