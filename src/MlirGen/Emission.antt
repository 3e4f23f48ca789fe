-- ===== src/MlirGen/Emission.antt =====
-- The text of the module, described piece by piece, and that `Generate` writes it.
use mathlib.Core.List.{flat_map}
use onnxruntime_ep_iree.Common.{
  ℕ, ◌≡◌, refl, sym, ap, ◌∙◌, List, [], ◌∷◌, ◌++◌, Option, none, ltb, if◌then◌else◌, Text, codes,
  intercalate, length, append_assoc, append-nil,
}
use onnxruntime_ep_iree.MlirGen.Graph.{ValueInfo, Attr, Node, Graph}
use onnxruntime_ep_iree.MlirGen.Stream.{write_separated-intercalate}
use onnxruntime_ep_iree.MlirGen.Operands.{present, operands_of, operands-present, operands-left_out}
use onnxruntime_ep_iree.MlirGen.Generator.{
  MlirGenerator, new_generator, value_ref, type_of, format, format_attributes, format_attribute,
  emit_node, emit_nodes, emit_module_footer, emit_function_body, collect_metadata, generate,
}
use onnxruntime_ep_iree.MlirGen.Lines.{
  comma_list, initializer_text, parameters_from, wrap_types-operands_of, emit_initializers-out,
  header_text, emit_module_header-out, return_text, emit_return-out,
}

regroup :
    (a b c d e f : Text) → ((((a ++ b) ++ c) ++ d) ++ e) ++ f ≡ a ++ (b ++ (c ++ (d ++ (e ++ f))))
regroup a b c d e f = simp append_assoc

module _ (format_e : ℕ → Text) where
  -- The line of a node, from the operands that are present.
  unfoldable pub node_text : Node → Text
  node_text node =
      let outs = present node.outputs in
      let ins = present node.inputs in
      format (
        codes "    "
        ∷ comma_list (λ v. value_ref v.name) outs
        ∷ codes " = torch.operator \"onnx."
        ∷ node.op_type
        ∷ codes "\"("
        ∷ comma_list (λ v. value_ref v.name) ins
        ∷ codes ") {"
        ∷ comma_list (format_attribute format_e) node.attrs
        ∷ codes "} : ("
        ∷ comma_list type_of ins
        ∷ codes ") -> "
        ∷ (if ltb 1 (length outs)
            then codes "(" ++ (comma_list type_of outs ++ codes ")")
            else comma_list type_of outs)
        ∷ codes "\n"
        ∷ [])

  format_attributes-comma_list :
      (attrs : List Attr)
      → format_attributes format_e attrs ≡ comma_list (format_attribute format_e) attrs
  unfolding format_attributes intercalate
  format_attributes-comma_list [] = refl
  format_attributes-comma_list (a ∷ attrs) =
      write_separated-intercalate (codes ", ") (format_attribute format_e) (a ∷ attrs)

  emit_node-out :
      (node : Node) (g : MlirGenerator)
      → emit_node format_e node g ≡ record g { out = g.out ++ node_text node }
  unfolding emit_node node_text operands_of
  emit_node-out node g = rw (
    operands-present node.outputs,
    operands-present node.inputs,
    wrap_types-operands_of (present node.outputs),
    format_attributes-comma_list node.attrs,
  )

  emit_nodes-out :
      (nodes : List Node) (g : MlirGenerator)
      → emit_nodes format_e nodes g ≡ record g { out = g.out ++ flat_map node_text nodes }
  unfolding emit_nodes flat_map
  emit_nodes-out [] g = λ k. record g { out = sym (append-nil g.out) k }
  emit_nodes-out (node ∷ nodes) g = rw (emit_node-out node g) (
      emit_nodes-out nodes _ ∙ λ k. record g {
        out = append_assoc g.out (node_text node) (flat_map node_text nodes) k;
      })

  -- An optional input that is left out leaves no gap: the operator is written as if the inputs behind
  -- it stood one place further ahead.
  pub emit_node-left_out :
      (node : Node) (before after : List (Option ValueInfo)) (g : MlirGenerator)
      → emit_node format_e (record node { inputs = before ++ none ∷ after }) g
        ≡ emit_node format_e (record node { inputs = before ++ after }) g
  unfolding emit_node
  emit_node-left_out node before after g = rw (operands-left_out before after)

  -- The whole module that a graph should give.
  unfoldable pub module_text : Graph → Text
  module_text graph =
      header_text (collect_metadata graph new_generator)
      ++ (flat_map initializer_text graph.initializers
          ++ (flat_map node_text graph.nodes ++ (return_text graph.outputs ++ codes "  }\n}\n")))

  -- `Generate` writes the module of its description: the header, each initializer in order, each
  -- node in order, the return and the footer; and it lists the parameters of the large
  -- initializers.
  pub generate-module_text :
      (graph : Graph)
      → generate format_e graph new_generator ≡ record (collect_metadata graph new_generator) {
        out = module_text graph;
        parameter_initializers = parameters_from 0 graph.initializers;
      }
  unfolding generate emit_function_body emit_module_footer module_text collect_metadata
  generate-module_text graph =
      let c = collect_metadata graph new_generator in
      let ps = parameters_from 0 graph.initializers in
      rw
        (
          emit_module_header-out c,
          emit_initializers-out 0 graph.initializers (record c { out = header_text c }),
          emit_nodes-out graph.nodes (record c {
            out = header_text c ++ flat_map initializer_text graph.initializers;
            parameter_initializers = ps;
          }),
          emit_return-out _,
        )
        (ap (λ t. record c { out = t; parameter_initializers = ps })
          (regroup (header_text c) (flat_map initializer_text graph.initializers)
            (flat_map node_text graph.nodes) (return_text graph.outputs) (codes "  }\n")
            (codes "}\n")))
