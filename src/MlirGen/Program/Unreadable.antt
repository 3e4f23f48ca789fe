-- ===== src/MlirGen/Program/Unreadable.antt =====
-- A small initializer whose data cannot be read: `EmitInitializer` of src/mlir_gen.cc writes nothing,
-- and the nodes that read it refer to a name that is not defined.
use mathlib.Core.List.{flat_map}
use onnxruntime_ep_iree.Common.{
  ℕ, ◌≡◌, ◌≢◌, refl, sym, ap, subst, inl, inr, true, List, [], ◌∷◌, ◌++◌, map, map-append, none,
  leb, Text, All, All-In, All-append_left, All-append_right, In, In-append, In-append_left,
  In-append_right, In-map, IsDistinct, IsDistinct-left, IsDistinct-right, IsDistinct-apart,
}
use onnxruntime_ep_iree.MlirGen.Graph.{Initializer, Node, Graph}
use onnxruntime_ep_iree.MlirGen.Generator.{
  new_generator, generate, initializer_byte_size, max_inline_initializer_size,
}
use onnxruntime_ep_iree.MlirGen.Names.{sanitize_name}
use onnxruntime_ep_iree.MlirGen.Operands.{present}
use onnxruntime_ep_iree.MlirGen.Program.{
  arguments, MlirValue, Statement, constant_op, cast_op, operator_op, mlir_value, node_statement,
  initializer_statements, program_of, print_program,
}
use onnxruntime_ep_iree.MlirGen.Program.Printed.{generate-print_program}
use onnxruntime_ep_iree.MlirGen.Program.Typing.{
  Scope, ◌⊢◌⊣◌, nothing, constant, cast, operator, WellTyped, well_typed,
}
use onnxruntime_ep_iree.MlirGen.Program.Valid.{initializer_info}
use onnxruntime_ep_iree.MlirGen.Program.Names.{
  defined, defined_names, sanitized, sanitized_initializers, sanitized_names, IsPlain, defined_by,
  defined_by_all, defined_by-cases, defined_by_all-IsOf,
}
use onnxruntime_ep_iree.MlirGen.Program.Distinct.{output_names, defined_names-program_of}

abbrev operands_in : Statement → List MlirValue
operands_in (constant_op result literal) = []
operands_in (cast_op result operand) = operand ∷ []
operands_in (operator_op results op_type operands attrs) = operands

abbrev names : List MlirValue → List Text
names vs = map (λ v. v.name) vs

named : (z : Text) (v : MlirValue) (Γ : Scope) → ¬ In z (names Γ) → In v Γ → v.name ≢ z
named z v Γ absent m e = absent (subst (λ t. In t (names Γ)) e (In-map (λ w. w.name) v Γ m))

-- A name that is neither in scope nor defined is no operand's name in statements that can be read.
unused :
    {Γ Δ : Scope} {statements : List Statement}
    → Γ ⊢ statements ⊣ Δ
    → (z : Text) → ¬ In z (names Γ)
    → ¬ In z (flat_map defined statements)
    → (s : Statement) (v : MlirValue) → In s statements
    → In v (operands_in s)
    → v.name ≢ z
unfolding flat_map
unused nothing z absent new s v m n = absurd m
unused (constant e d) z absent new s v (inl same) n =
    absurd (subst (λ t. In v (operands_in t)) same n)
unused (constant e d) z absent new s v (inr m) n =
    unused d z (λ k. elim k [ inl y ↦ new (inl y) | inr l ↦ absent l ]) (λ k. new (inr k)) s v m n
unused (cast {Γ} i e f d) z absent new s v (inl same) n =
    elim (subst (λ t. In v (operands_in t)) same n) [
      | inl y ↦ named z v Γ absent (subst (λ w. In w Γ) (sym y) i)
      | inr k ↦ absurd k
    ]
unused (cast i e f d) z absent new s v (inr m) n =
    unused d z (λ k. elim k [ inl y ↦ new (inl y) | inr l ↦ absent l ]) (λ k. new (inr k)) s v m n
unused (operator {Γ} {results = results} ins tys outs d) z absent new s v (inl same) n =
    named z v Γ absent (All-In (λ w. In w Γ) _ v ins (subst (λ t. In v (operands_in t)) same n))
unused (operator {Γ} {results = results} ins tys outs d) z absent new s v (inr m) n =
    unused d z
      (λ k.
        elim (In-append z (names results) (names Γ)
          (subst (In z) (map-append (λ (w : MlirValue). w.name) results Γ) k)) [
            | inl l ↦ new (In-append_left z (names results) _ l)
            | inr l ↦ absent l
          ])
      (λ k. new (In-append_right z (names results) _ k)) s v m n

defined_by-unreadable :
    (init : Initializer)
    → leb (initializer_byte_size init) max_inline_initializer_size ≡ true
    → init.value ≡ none
    → defined_by init ≡ []
unfolding initializer_statements flat_map
defined_by-unreadable init small unreadable = rw (small, unreadable)

member :
    (before after : List Initializer) (init : Initializer)
    → In (sanitize_name init.name) (sanitized_initializers (before ++ (init ∷ after)))
member before after init =
    In-map (λ i. sanitize_name i.name) init _ (In-append_right init before _ (inl refl))

defined_by_all-unreadable :
    (before after : List Initializer) (init : Initializer)
    → defined_by init ≡ []
    → IsDistinct (sanitized_initializers (before ++ (init ∷ after)))
    → All IsPlain (sanitized_initializers (before ++ (init ∷ after)))
    → ¬ In (sanitize_name init.name) (defined_by_all (before ++ (init ∷ after)))
unfolding flat_map
defined_by_all-unreadable [] after init empty d plain m =
    elim (defined_by_all-IsOf after _
      (subst (λ names. In (sanitize_name init.name) (names ++ defined_by_all after)) empty m)) [
        | inl k ↦ d.0 k
        | inr (name, k, e) ↦ plain.0 (name, e)
      ]
defined_by_all-unreadable (b ∷ before) after init empty d plain m =
    let z = sanitize_name init.name in
    let names = sanitized_initializers (before ++ (init ∷ after)) in
    elim (In-append z (defined_by b) _ m) [
      | inl here ↦ elim (defined_by-cases b) [
        | inl e ↦ absurd (subst (In z) e here)
        | inr e ↦ elim (subst (In z) e here) [
          | inl is_raw ↦
              All-In IsPlain names z plain.1 (member before after init)
                (sanitize_name b.name, is_raw)
          | inr (inl is_name) ↦ d.0 (subst (λ t. In t names) is_name (member before after init))
          | inr (inr none_left) ↦ absurd none_left
        ]
      ]
      | inr later ↦ defined_by_all-unreadable before after init empty d.1 plain.1 later
    ]

program_of-unreadable :
    (graph : Graph) (before after : List Initializer) (init : Initializer)
    → graph.initializers ≡ before ++ (init ∷ after)
    → defined_by init ≡ []
    → IsDistinct (sanitized_names graph)
    → All IsPlain (sanitized_names graph)
    → ¬ In (sanitize_name init.name) (defined_names (program_of graph))
unfolding sanitized_names
program_of-unreadable graph before after init split empty d plain m =
    let z = sanitize_name init.name in
    let args = sanitized (arguments graph) in
    let names = sanitized_initializers graph.initializers in
    let outs = output_names graph.nodes in
    let from_names = IsDistinct-right args (names ++ outs) d in
    let here =
      subst (λ inits. In z (sanitized_initializers inits)) (sym split) (member before after init) in
    elim (In-append z args _ (subst (In z) (defined_names-program_of graph) m)) [
      | inl k ↦ IsDistinct-apart args _ d z k (In-append_left z names outs here)
      | inr n ↦ elim (In-append z (defined_by_all graph.initializers) outs n) [
        | inl k ↦
            defined_by_all-unreadable before after init empty
              (subst (λ inits. IsDistinct (sanitized_initializers inits)) split
                (IsDistinct-left names outs from_names))
              (subst (λ inits. All IsPlain (sanitized_initializers inits)) split
                (All-append_left IsPlain names outs
                  (All-append_right IsPlain args (names ++ outs) plain)))
              (subst (λ inits. In z (defined_by_all inits)) split k)
        | inr k ↦ IsDistinct-apart names outs from_names z here k
      ]
    ]

program_of-ill_typed :
    (graph : Graph) (init : Initializer) (node : Node)
    → In node graph.nodes
    → In (initializer_info init) (present node.inputs)
    → ¬ In (sanitize_name init.name) (defined_names (program_of graph))
    → ¬ WellTyped (program_of graph)
unfolding program_of defined_names
program_of-ill_typed graph init node m reads absent (well_typed d r e) =
    let z = sanitize_name init.name in
    let p = program_of graph in
    unused d z (λ k. absent (In-append_left z (names p.arguments) _ k))
      (λ k. absent (In-append_right z (names p.arguments) _ k)) (node_statement node)
      (mlir_value (initializer_info init))
      (In-append_right (node_statement node) (flat_map initializer_statements graph.initializers) _
        (In-map node_statement node graph.nodes m))
      (In-map mlir_value (initializer_info init) (present node.inputs) reads) refl

-- If the data of a small initializer cannot be read, a node reads that initializer, the sanitized
-- names of the graph are pairwise distinct and none of them starts with `__raw_`, `Generate` prints
-- a program that is not well typed: the node's operand is defined nowhere.
pub generate-unreadable :
    (format_e : ℕ → Text) (graph : Graph) (before after : List Initializer) (init : Initializer)
    (node : Node)
    → graph.initializers ≡ before ++ (init ∷ after)
    → leb (initializer_byte_size init) max_inline_initializer_size ≡ true
    → init.value ≡ none
    → In node graph.nodes
    → In (initializer_info init) (present node.inputs)
    → IsDistinct (sanitized_names graph)
    → All IsPlain (sanitized_names graph)
    → ((generate format_e graph new_generator).out ≡ print_program format_e (program_of graph))
      × ¬ WellTyped (program_of graph)
generate-unreadable format_e graph before after init node split small unreadable m reads d plain =
    let absent =
      program_of-unreadable graph before after init split
        (defined_by-unreadable init small unreadable) d plain in
    (
      ap (λ g. g.out) (generate-print_program format_e graph),
      program_of-ill_typed graph init node m reads absent,
    )
