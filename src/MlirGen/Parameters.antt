-- ===== src/MlirGen/Parameters.antt =====
-- Which initializers become parameters of the archive, and where `parameter_initializers` points.
use onnxruntime_ep_iree.Common.{
  ℕ, zero, suc, ◌+◌, ◌<◌, ◌≡◌, refl, ap, ◌∙◌, List, [], ◌∷◌, some, arith, leb, Text, get_elem?, All,
  All-mono, Bool-cases, inl, inr, subst, In,
}
use onnxruntime_ep_iree.MlirGen.Graph.{Initializer, Graph}
use onnxruntime_ep_iree.MlirGen.Names.{sanitize_name}
use onnxruntime_ep_iree.MlirGen.Generator.{
  ParameterInitializer, initializer_byte_size, max_inline_initializer_size, generate, new_generator,
}
use onnxruntime_ep_iree.MlirGen.Lines.{parameters_from}
use onnxruntime_ep_iree.MlirGen.Emission.{generate-module_text}

-- The parameter stands for the initializer at index `i`.
abbrev pub parameter_at : ℕ → Initializer → ParameterInitializer
parameter_at i init = record { sanitized_name = sanitize_name init.name; initializer_index = i }

abbrev pub IsLarge : Initializer → Type 0
IsLarge init = max_inline_initializer_size < initializer_byte_size init

-- `p` is the parameter of a large initializer of the list, whose first index is `i`.
abbrev pub Refers : ℕ → List Initializer → ParameterInitializer → Type 0
Refers i inits p =
    (k : ℕ) × (init : Initializer) × (get_elem? inits k ≡ some init)
    × (p ≡ parameter_at (i + k) init)
    × IsLarge init

Refers-cons :
    (i : ℕ) (x : Initializer) (inits : List Initializer) (p : ParameterInitializer)
    → Refers (suc i) inits p
    → Refers i (x ∷ inits) p
Refers-cons i x inits p (k, init, found, e, large) =
    (suc k, init, found, e ∙ ap (λ n. parameter_at n init) (omega arith), large)

parameters_from-Refers :
    (i : ℕ) (inits : List Initializer) → All (Refers i inits) (parameters_from i inits)
unfolding parameters_from
parameters_from-Refers i [] = tt
parameters_from-Refers i (x ∷ inits) =
    let rest =
      All-mono (Refers-cons i x inits) (parameters_from (suc i) inits)
        (parameters_from-Refers (suc i) inits) in
    elim (Bool-cases (leb (initializer_byte_size x) max_inline_initializer_size)) [
      | inl e ↦ rw e rest
      | inr e ↦ rw e ((zero, x, refl, ap (λ n. parameter_at n x) (omega arith), ground arith), rest)
    ]

In-parameters_from :
    (i k : ℕ) (inits : List Initializer) (init : Initializer)
    → get_elem? inits k ≡ some init
    → IsLarge init
    → In (parameter_at (i + k) init) (parameters_from i inits)
unfolding parameters_from
In-parameters_from i k [] init h large = cc
In-parameters_from i zero (x ∷ inits) init h large = ground arith
In-parameters_from i (suc k) (x ∷ inits) init h large =
    let ih : In (parameter_at (i + suc k) init) (parameters_from (suc i) inits) =
      subst (λ n. In (parameter_at n init) (parameters_from (suc i) inits)) (omega arith)
        (In-parameters_from (suc i) k inits init h large) in
    ground arith

-- After `Generate`, every entry of `parameter_initializers` has an index in range, at which there
-- stands an initializer of more than 256 bytes whose sanitized name is the entry's; and every
-- initializer of more than 256 bytes has its entry.
pub generate-parameters :
    (format_e : ℕ → Text) (graph : Graph)
    → All
        (Refers 0 graph.initializers)
        (generate format_e graph new_generator).parameter_initializers
      × ((k : ℕ) (init : Initializer)
          → get_elem? graph.initializers k ≡ some init
          → IsLarge init
          → In (parameter_at k init) (generate format_e graph new_generator).parameter_initializers)
generate-parameters format_e graph = rw (generate-module_text format_e graph) (
  parameters_from-Refers 0 graph.initializers,
  λ k init h large.
      subst (λ n. In (parameter_at n init) (parameters_from 0 graph.initializers)) (omega arith)
        (In-parameters_from 0 k graph.initializers init h large),
)
