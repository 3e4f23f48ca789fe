-- ===== src/MlirGen/Mentions.antt =====
-- Where the module that `Generate` of src/mlir_gen.cc writes refers to a parameter.
use mathlib.Core.List.{flat_map}
use mathlib.Core.Option.{some-injective}
use onnxruntime_ep_iree.Common.{
  ℕ, zero, suc, ◌≡◌, sym, ap, ◌∙◌, subst, false, List, [], ◌∷◌, ◌++◌, some, leb, arith, Text, codes,
  append_assoc, get_elem?,
}
use onnxruntime_ep_iree.MlirGen.Graph.{Initializer, Graph}
use onnxruntime_ep_iree.MlirGen.Names.{sanitize_name}
use onnxruntime_ep_iree.MlirGen.Generator.{
  new_generator, generate, format, parameter_text, initializer_byte_size,
  max_inline_initializer_size,
}
use onnxruntime_ep_iree.MlirGen.Lines.{initializer_text}
use onnxruntime_ep_iree.MlirGen.Emission.{module_text, generate-module_text}
use onnxruntime_ep_iree.MlirGen.Parameters.{IsLarge}

-- The text `s` stands in `t`.
abbrev pub Mentions : Text → Text → Type 0
Mentions s t = (before : Text) × (after : Text) × (t ≡ before ++ (s ++ after))

-- The definition of the constant of an initializer by the parameter with this key.
abbrev pub parameter_reference : Initializer → Text → Text
parameter_reference init key =
    codes "    %__raw_"
    ++ (sanitize_name init.name
        ++ (codes " = flow.tensor.constant #flow.parameter.named<\"model\"::\""
            ++ (key ++ codes "\"> : ")))

Mentions-left : (s t u : Text) → Mentions s t → Mentions s (t ++ u)
Mentions-left s t u (before, after, e) = (
  before,
  after ++ u,
  ap (λ r. r ++ u) e
      ∙ append_assoc before (s ++ after) u
      ∙ ap (◌++◌ before) (append_assoc s after u),
)

Mentions-right : (s t u : Text) → Mentions s t → Mentions s (u ++ t)
Mentions-right s t u (before, after, e) =
    (u ++ before, after, ap (◌++◌ u) e ∙ sym (append_assoc u before (s ++ after)))

Mentions-flat_map :
    {A : Type 0} (s : Text) (f : A → Text) (xs : List A) (k : ℕ) (x : A)
    → get_elem? xs k ≡ some x
    → Mentions s (f x)
    → Mentions s (flat_map f xs)
unfolding flat_map
Mentions-flat_map s f [] k x found m = cc
Mentions-flat_map s f (y ∷ xs) zero x found m =
    Mentions-left s (f y) (flat_map f xs)
      (subst (λ z. Mentions s (f z)) (sym (some-injective y x found)) m)
Mentions-flat_map s f (y ∷ xs) (suc k) x found m =
    Mentions-right s (flat_map f xs) (f y) (Mentions-flat_map s f xs k x found m)

regroup :
    (a n b k c rest : Text)
    → a ++ (n ++ (b ++ (k ++ (c ++ rest)))) ≡ (a ++ (n ++ (b ++ (k ++ c)))) ++ rest
regroup a n b k c rest = simp append_assoc

parameter_text-Mentions :
    (init : Initializer)
    → Mentions (parameter_reference init (sanitize_name init.name)) (parameter_text init)
unfolding parameter_text format
parameter_text-Mentions init =
    let name = sanitize_name init.name in
    (
      [],
      _,
      regroup (codes "    %__raw_") name
          (codes " = flow.tensor.constant #flow.parameter.named<\"model\"::\"") name
          (codes "\"> : ") _,
    )

initializer_text-Mentions :
    (init : Initializer)
    → IsLarge init
    → Mentions (parameter_reference init (sanitize_name init.name)) (initializer_text init)
unfolding initializer_text
initializer_text-Mentions init large =
    let tested : leb (initializer_byte_size init) max_inline_initializer_size ≡ false =
      ground arith in
    rw tested (parameter_text-Mentions init)

pub generate-Mentions :
    (format_e : ℕ → Text) (graph : Graph) (k : ℕ) (init : Initializer)
    → get_elem? graph.initializers k ≡ some init
    → IsLarge init
    → Mentions
        (parameter_reference init (sanitize_name init.name))
        (generate format_e graph new_generator).out
unfolding module_text
generate-Mentions format_e graph k init found large =
    let s = parameter_reference init (sanitize_name init.name) in
    rw (generate-module_text format_e graph) (
      Mentions-right s _ _ (
        Mentions-left s _ _ (
          Mentions-flat_map s initializer_text graph.initializers k init found
            (initializer_text-Mentions init large))))
