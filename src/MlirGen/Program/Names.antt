-- ===== src/MlirGen/Program/Names.antt =====
-- The SSA names that the program of src/mlir_gen.cc defines.
use mathlib.Core.List.{flat_map}
use onnxruntime_ep_iree.Common.{
  ◌≡◌, refl, sym, ap, subst, inl, inr, ◌⊎◌, List, [], ◌∷◌, ◌++◌, map, Option, none, some, leb,
  Bool-cases, Text, codes, All, All-In, In, In-append, IsDistinct,
}
use onnxruntime_ep_iree.MlirGen.Graph.{ValueInfo, Initializer, Graph}
use onnxruntime_ep_iree.MlirGen.Generator.{initializer_byte_size, max_inline_initializer_size}
use onnxruntime_ep_iree.MlirGen.Names.{sanitize_name}
use onnxruntime_ep_iree.MlirGen.Operands.{present}
use onnxruntime_ep_iree.MlirGen.Program.{
  arguments, dense, Statement, constant_op, cast_op, operator_op, Program, initializer_pair,
  initializer_statements,
}

abbrev pub defined : Statement → List Text
defined (constant_op result literal) = result.name ∷ []
defined (cast_op result operand) = result.name ∷ []
defined (operator_op results op_type operands attrs) = map (λ v. v.name) results

-- The arguments of the function and the results of its statements.
unfoldable pub defined_names : Program → List Text
defined_names p = map (λ v. v.name) p.arguments ++ flat_map defined p.body

abbrev pub sanitized : List ValueInfo → List Text
sanitized vs = map (λ v. sanitize_name v.name) vs

abbrev pub sanitized_initializers : List Initializer → List Text
sanitized_initializers inits = map (λ init. sanitize_name init.name) inits

-- The names of the arguments, the initializers and the outputs of the nodes, sanitized.
unfoldable pub sanitized_names : Graph → List Text
sanitized_names graph =
    sanitized (arguments graph)
    ++ (map (λ init. sanitize_name init.name) graph.initializers
        ++ flat_map (λ node. sanitized (present node.outputs)) graph.nodes)

-- The name of the constant that an initializer is cast from.
abbrev pub raw_name : Text → Text
raw_name name = codes "__raw_" ++ name

-- No name of such a constant.
abbrev pub IsPlain : Text → Type 0
IsPlain name = ¬ ((rest : Text) × (name ≡ raw_name rest))

raw_name-injective : (s t : Text) → raw_name s ≡ raw_name t → s ≡ t
raw_name-injective s t e = ap drop_prefix e
  where
    drop_prefix : Text → Text
    drop_prefix (a ∷ b ∷ c ∷ d ∷ f ∷ g ∷ rest) = rest
    drop_prefix _ = []

abbrev pub defined_by : Initializer → List Text
defined_by init = flat_map defined (initializer_statements init)

-- An initializer defines no name, or its own and that of its constant.
pub defined_by-cases :
    (init : Initializer)
    → (defined_by init ≡ [])
      ⊎ (defined_by init ≡ raw_name (sanitize_name init.name) ∷ sanitize_name init.name ∷ [])
unfolding initializer_statements flat_map
defined_by-cases init =
    elim (Bool-cases (leb (initializer_byte_size init) max_inline_initializer_size)) [
      | inl small ↦ rw small (by_value init.value)
      | inr large ↦ rw large (inr refl)
    ]
  where
    by_value :
        (value : Option _)
        → (flat_map defined
              (elim value [ none ↦ [] | some bytes ↦ initializer_pair init (dense bytes) ])
            ≡ [])
          ⊎ (flat_map defined
                (elim value [ none ↦ [] | some bytes ↦ initializer_pair init (dense bytes) ])
              ≡ raw_name (sanitize_name init.name) ∷ sanitize_name init.name ∷ [])
    by_value none = inl refl
    by_value (some bytes) = inr refl

abbrev pub defined_by_all : List Initializer → List Text
defined_by_all inits = flat_map defined_by inits

-- A name of an initializer, or the name of its constant.
abbrev pub IsOf : Text → List Text → Type 0
IsOf z names = In z names ⊎ ((name : Text) × In name names × (z ≡ raw_name name))

IsOf-cons : (z n : Text) (names : List Text) → IsOf z names → IsOf z (n ∷ names)
IsOf-cons z n names (inl m) = inl (inr m)
IsOf-cons z n names (inr (name, m, e)) = inr (name, inr m, e)

pub defined_by_all-IsOf :
    (inits : List Initializer) (z : Text)
    → In z (defined_by_all inits)
    → IsOf z (sanitized_initializers inits)
unfolding flat_map
defined_by_all-IsOf [] z m = absurd m
defined_by_all-IsOf (init ∷ inits) z m = elim (In-append z (defined_by init) _ m) [
  | inl here ↦ elim (defined_by-cases init) [
    | inl e ↦ absurd (subst (In z) e here)
    | inr e ↦ elim (subst (In z) e here) [
      | inl is_raw ↦ inr (sanitize_name init.name, inl refl, is_raw)
      | inr (inl is_name) ↦ inl (inl is_name)
      | inr (inr none_left) ↦ absurd none_left
    ]
  ]
  | inr later ↦ IsOf-cons z _ (sanitized_initializers inits) (defined_by_all-IsOf inits z later)
]

pair-IsDistinct :
    (name : Text) (names later : List Text)
    → ¬ In name names
    → IsPlain name
    → All IsPlain names
    → ((z : Text) → In z later → IsOf z names)
    → IsDistinct later
    → IsDistinct (raw_name name ∷ name ∷ later)
pair-IsDistinct name names later fresh plain plain_names of d = (
  λ m. elim m [
    | inl e ↦ plain (name, sym e)
    | inr n ↦ elim (of (raw_name name) n) [
      | inl k ↦ All-In IsPlain names (raw_name name) plain_names k (name, refl)
      | inr (other, k, e) ↦
          fresh (subst (λ t. In t names) (sym (raw_name-injective name other e)) k)
    ]
  ],
  (λ m. elim (of name m) [ inl k ↦ fresh k | inr (other, k, e) ↦ plain (other, e) ], d),
)

pub defined_by_all-IsDistinct :
    (inits : List Initializer)
    → IsDistinct (sanitized_initializers inits)
    → All IsPlain (sanitized_initializers inits)
    → IsDistinct (defined_by_all inits)
unfolding flat_map
defined_by_all-IsDistinct [] d plain = tt
defined_by_all-IsDistinct (init ∷ inits) d plain =
    let rest = defined_by_all-IsDistinct inits d.1 plain.1 in
    elim (defined_by-cases init) [
      | inl e ↦ subst (λ names. IsDistinct (names ++ defined_by_all inits)) (sym e) rest
      | inr e ↦
          subst (λ names. IsDistinct (names ++ defined_by_all inits)) (sym e)
            (pair-IsDistinct (sanitize_name init.name) (sanitized_initializers inits)
              (defined_by_all inits) d.0 plain.0 plain.1 (defined_by_all-IsOf inits) rest)
    ]
