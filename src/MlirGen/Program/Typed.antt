-- ===== src/MlirGen/Program/Typed.antt =====
-- The program of a valid ORT graph is well typed.
use mathlib.Core.List.{flat_map}
use onnxruntime_ep_iree.Common.{
  ℕ, Text, ◌≡◌, ◌≢◌, refl, sym, ap, ◌∙◌, subst, inl, inr, Bool-cases, List, [], ◌∷◌, ◌++◌, map,
  Option, none, some, leb, All, All-mono, All-map, All-always, In, In-append_left, In-append_right,
  In-map, append_assoc,
}
use onnxruntime_ep_iree.MlirGen.Graph.{ValueInfo, Initializer, Node, Graph}
use onnxruntime_ep_iree.MlirGen.Generator.{
  new_generator, generate, initializer_byte_size, max_inline_initializer_size,
}
use onnxruntime_ep_iree.MlirGen.Names.{sanitize_name}
use onnxruntime_ep_iree.MlirGen.Operands.{present}
use onnxruntime_ep_iree.MlirGen.Metadata.{graph_inputs-In}
use onnxruntime_ep_iree.MlirGen.Program.{
  arguments, MlirValue, vtensor, Literal, dense, parameter, Statement, mlir_value,
  initializer_value, raw_value, initializer_pair, initializer_statements, node_statement,
  program_of, print_program,
}
use onnxruntime_ep_iree.MlirGen.Program.Collected.{graph_inputs-arguments}
use onnxruntime_ep_iree.MlirGen.Program.Printed.{generate-print_program}
use onnxruntime_ep_iree.MlirGen.Program.Typing.{
  Scope, IsVtensor, ◌⊢◌⊣◌, nothing, constant, cast, operator, WellTyped, well_typed,
}
use onnxruntime_ep_iree.MlirGen.Program.Valid.{
  Available, input, initializer, output, IsSortedFrom, IsSorted, IsReadable,
}

-- The statements can be read from the scope on, and the values are in scope at their end.
abbrev Reaches : Scope → List Statement → List MlirValue → Type 0
Reaches Γ statements vs = (Δ : Scope) × (Γ ⊢ statements ⊣ Δ) × All (λ v. In v Δ) vs

initializer_statements-pair :
    (init : Initializer)
    → IsReadable init
    → (literal : Literal) × (initializer_statements init ≡ initializer_pair init literal)
unfolding initializer_statements
initializer_statements-pair init h =
    elim (Bool-cases (leb (initializer_byte_size init) max_inline_initializer_size)) [
      | inl small ↦ rw small (by_value init.value (h small))
      | inr large ↦ rw large (parameter (sanitize_name init.name), refl)
    ]
  where
    by_value :
        (value : Option (List _))
        → value ≢ none
        → (literal : Literal) × ((elim value [
          | none ↦ []
          | some bytes ↦ initializer_pair init (dense bytes)
        ])
            ≡ initializer_pair init literal)
    by_value none ne = absurd (ne refl)
    by_value (some bytes) ne = (dense bytes, refl)

pair-Reaches :
    (init : Initializer) (literal : Literal) {Γ : Scope} {rest : List Statement}
    (vs : List MlirValue)
    → Reaches (initializer_value init ∷ raw_value init ∷ Γ) rest vs
    → Reaches Γ (initializer_pair init literal ++ rest) vs
pair-Reaches init literal vs (Δ, d, h) = (Δ, constant refl (cast (inl refl) refl refl d), h)

initializers-Reaches :
    (inits : List Initializer) (Γ : Scope) {rest : List Statement} (vs : List MlirValue)
    → All IsReadable inits
    → ((Δ : Scope)
        → ((v : MlirValue) → In v Γ → In v Δ)
        → ((init : Initializer) → In init inits → In (initializer_value init) Δ)
        → Reaches Δ rest vs)
    → Reaches Γ (flat_map initializer_statements inits ++ rest) vs
unfolding flat_map
initializers-Reaches [] Γ vs h k = k Γ (λ v m. m) (λ init m. absurd m)
initializers-Reaches (init ∷ inits) Γ {rest} vs h k =
    let (literal, e) = initializer_statements-pair init h.0 in
    subst (λ statements. Reaches Γ statements vs)
      (sym (
          append_assoc (initializer_pair init literal) (flat_map initializer_statements inits) rest)
        ∙ ap (λ s. (s ++ flat_map initializer_statements inits) ++ rest) (sym e))
      (pair-Reaches init literal vs (
        initializers-Reaches inits (initializer_value init ∷ raw_value init ∷ Γ) vs h.1
          λ Δ keeps has.
            k Δ (λ v m. keeps v (inr (inr m)))
              λ i m. elim m [
                | inl same ↦
                    subst (λ j. In (initializer_value j) Δ) (sym same)
                      (keeps (initializer_value init) (inl refl))
                | inr later ↦ has i later
              ]))

module _ (graph : Graph) where
  -- What can be read after the nodes is in scope.
  abbrev Covers : List Node → Scope → Type 0
  Covers earlier Γ = (v : ValueInfo) → Available graph earlier v → In (mlir_value v) Γ

  Covers-node :
      (earlier : List Node) (Γ : Scope) (node : Node)
      → Covers earlier Γ
      → Covers (node ∷ earlier) (map mlir_value (present node.outputs) ++ Γ)
  Covers-node earlier Γ node c v (input m ne) = In-append_right _ _ Γ (c v (input m ne))
  Covers-node earlier Γ node c v (initializer init m) =
      In-append_right _ _ Γ (c v (initializer init m))
  Covers-node earlier Γ node c v (output n (inr m) o) = In-append_right _ _ Γ (c v (output n m o))
  Covers-node earlier Γ node c v (output n (inl same) o) =
      In-append_left _ _ Γ
        (In-map mlir_value v (present node.outputs) (subst (λ m. In v (present m.outputs)) same o))

  values-In :
      (earlier : List Node) (Γ : Scope) (vs : List ValueInfo)
      → Covers earlier Γ
      → All (Available graph earlier) vs
      → All (λ v. In v Γ) (map mlir_value vs)
  values-In earlier Γ vs c h = All-map (λ v. In v Γ) mlir_value vs (All-mono c vs h)

  values-IsVtensor : (vs : List ValueInfo) → All IsVtensor (map mlir_value vs)
  values-IsVtensor vs = All-map IsVtensor mlir_value vs (All-always (λ v. (v.type_info, refl)) vs)

  nodes-Reaches :
      (nodes earlier : List Node) (Γ : Scope)
      → Covers earlier Γ
      → IsSortedFrom graph earlier nodes
      → Reaches Γ (map node_statement nodes) (map mlir_value graph.outputs)
  unfolding IsSortedFrom
  nodes-Reaches [] earlier Γ c h = (Γ, nothing, values-In earlier Γ graph.outputs c h)
  nodes-Reaches (node ∷ nodes) earlier Γ c h =
      let ins = present node.inputs in
      let outs = present node.outputs in
      let (Δ, d, r) =
        nodes-Reaches nodes (node ∷ earlier) (map mlir_value outs ++ Γ)
          (Covers-node earlier Γ node c) h.1 in
      (
        Δ,
        operator (values-In earlier Γ ins c h.0) (values-IsVtensor ins) (values-IsVtensor outs) d,
        r,
      )

  return_types :
      (vs : List ValueInfo)
      → map (λ v. v.type) (map mlir_value vs) ≡ map (λ v. vtensor v.type_info) vs
  return_types [] = refl
  return_types (v ∷ vs) = ap (◌∷◌ (vtensor v.type_info)) (return_types vs)

  program_of-WellTyped :
      IsSorted graph → All IsReadable graph.initializers → WellTyped (program_of graph)
  unfolding program_of
  program_of-WellTyped sorted readable =
      let (Δ, d, r) =
        initializers-Reaches graph.initializers (map mlir_value (arguments graph))
          (map mlir_value graph.outputs) readable
          λ Γ keeps has. nodes-Reaches graph.nodes [] Γ (first Γ keeps has) sorted in
      well_typed d r (return_types graph.outputs)
    where
      first :
          (Γ : Scope)
          → ((v : MlirValue) → In v (map mlir_value (arguments graph)) → In v Γ)
          → ((init : Initializer) → In init graph.initializers → In (initializer_value init) Γ)
          → Covers [] Γ
      first Γ keeps has v (input m ne) = keeps (mlir_value v) (
          In-map mlir_value v _
            (subst (In v) (graph_inputs-arguments graph) ((graph_inputs-In graph v).1 (m, ne))))
      first Γ keeps has v (initializer init m) = has init m
      first Γ keeps has v (output n m o) = absurd m

  -- If the nodes of the graph are in topological order and the data of its small initializers can be
  -- read, `Generate` prints a program that is well typed: each operand is defined before its use, at
  -- the type that it is used at, and the function returns values of the types that it announces.
  pub generate-WellTyped :
      (format_e : ℕ → Text)
      → IsSorted graph
      → All IsReadable graph.initializers
      → ((generate format_e graph new_generator).out ≡ print_program format_e (program_of graph))
        × WellTyped (program_of graph)
  generate-WellTyped format_e sorted readable = (
    ap (λ g. g.out) (generate-print_program format_e graph),
    program_of-WellTyped sorted readable,
  )
