-- ===== src/MlirGen/Lines.antt =====
-- The pieces of the module's text, and that the methods of `MlirGenerator` append them.
use mathlib.Core.List.{flat_map}
use onnxruntime_ep_iree.Common.{
  ℕ, suc, ◌≡◌, refl, sym, ap, ◌∙◌, false, List, [], ◌∷◌, ◌++◌, map, Option, none, some, arith, ltb,
  leb, if◌then◌else◌, Text, codes, is_empty, intercalate, length, append_assoc, append-nil,
}
use onnxruntime_ep_iree.Common.Decimal.{int_to_string}
use onnxruntime_ep_iree.MlirGen.Graph.{ValueInfo, Initializer, tensor, non_tensor, TypeInfo}
use onnxruntime_ep_iree.MlirGen.Names.{sanitize_name}
use onnxruntime_ep_iree.MlirGen.Types.{format_tensor_type}
use onnxruntime_ep_iree.MlirGen.Stream.{write_separated-intercalate, write_separated_onto}
use onnxruntime_ep_iree.MlirGen.Operands.{present, operands_of, operands-present}
use onnxruntime_ep_iree.MlirGen.Generator.{
  MlirGenerator, ParameterInitializer, operands, value_ref, type_of, argument, wrap_types, format,
  emit_initializer, emit_initializers, emit_return, emit_module_header, initializer_byte_size,
  max_inline_initializer_size, inline_text, parameter_text,
}

abbrev pub comma_list {ℓ} : {A : Type ℓ} → (A → Text) → List A → Text
comma_list piece xs = intercalate (codes ", ") (map piece xs)

-- The text of an initializer: nothing where the data of a small one cannot be read.
unfoldable pub initializer_text : Initializer → Text
initializer_text init =
    if leb (initializer_byte_size init) max_inline_initializer_size
    then elim init.value [ none ↦ [] | some bytes ↦ inline_text init bytes ]
    else parameter_text init

-- The parameters of the initializers from index `i` on.
unfoldable pub parameters_from : ℕ → List Initializer → List ParameterInitializer
parameters_from i [] = []
parameters_from i (init ∷ inits) =
    let rest = parameters_from (suc i) inits in
    if leb (initializer_byte_size init) max_inline_initializer_size
    then rest
    else record { sanitized_name = sanitize_name init.name; initializer_index = i } ∷ rest

format_tensor_type-ne : (t : TypeInfo) → is_empty (format_tensor_type t) ≡ false
unfolding format_tensor_type
format_tensor_type-ne non_tensor = refl
format_tensor_type-ne (tensor shape dtype) = rw write_separated_onto

is_empty-append {ℓ} :
    {A : Type ℓ} (xs ys : List A) → is_empty xs ≡ false → is_empty (xs ++ ys) ≡ false
is_empty-append [] ys h = cc
is_empty-append (x ∷ xs) ys h = refl

types-ne : (v : ValueInfo) (vs : List ValueInfo) → is_empty (comma_list type_of (v ∷ vs)) ≡ false
unfolding intercalate
types-ne v [] = format_tensor_type-ne v.type_info
types-ne v (w ∷ vs) = is_empty-append _ _ (format_tensor_type-ne v.type_info)

pub wrap_types-operands_of :
    (vs : List ValueInfo)
    → wrap_types (operands_of vs) ≡ (
        if ltb 1 (length vs)
        then codes "(" ++ (comma_list type_of vs ++ codes ")")
        else comma_list type_of vs)
unfolding operands_of
wrap_types-operands_of [] = refl
wrap_types-operands_of (v ∷ vs) = ground (arith, types-ne v vs)

-- The types of the results are in parentheses exactly if there are two or more of them.
pub wrap_types-present :
    (xs : List (Option ValueInfo))
    → wrap_types (operands xs) ≡ (
        if ltb 1 (length (present xs))
        then codes "(" ++ (comma_list type_of (present xs) ++ codes ")")
        else comma_list type_of (present xs))
wrap_types-present xs = rw (operands-present xs) (wrap_types-operands_of (present xs))

emit_initializer-out :
    (init : Initializer) (i : ℕ) (g : MlirGenerator)
    → emit_initializer init i g ≡ record g {
      out = g.out ++ initializer_text init;
      parameter_initializers = g.parameter_initializers ++ parameters_from i (init ∷ []);
    }
unfolding emit_initializer initializer_text parameters_from
emit_initializer-out init i g =
    ground (arith, append-nil g.out, append-nil g.parameter_initializers)

parameters_from-cons :
    (i : ℕ) (init : Initializer) (inits : List Initializer)
    → parameters_from i (init ∷ inits)
      ≡ parameters_from i (init ∷ []) ++ parameters_from (suc i) inits
unfolding parameters_from
parameters_from-cons i init inits = ground arith

parameters-nil : (i : ℕ) (ps : List ParameterInitializer) → ps ++ parameters_from i [] ≡ ps
unfolding parameters_from
parameters-nil i ps = append-nil ps

pub emit_initializers-out :
    (i : ℕ) (inits : List Initializer) (g : MlirGenerator)
    → emit_initializers i inits g ≡ record g {
      out = g.out ++ flat_map initializer_text inits;
      parameter_initializers = g.parameter_initializers ++ parameters_from i inits;
    }
unfolding emit_initializers flat_map
emit_initializers-out i [] g = λ k. record g {
  out = sym (append-nil g.out) k;
  parameter_initializers = sym (parameters-nil i g.parameter_initializers) k;
}
emit_initializers-out i (init ∷ inits) g = rw (emit_initializer-out init i g) (
    emit_initializers-out (suc i) inits _ ∙ λ k. record g {
      out = append_assoc g.out (initializer_text init) (flat_map initializer_text inits) k;
      parameter_initializers =
          (append_assoc g.parameter_initializers (parameters_from i (init ∷ []))
                (parameters_from (suc i) inits)
              ∙ ap (◌++◌ g.parameter_initializers) (sym (parameters_from-cons i init inits)))
            k;
    })

-- The opening of the module and of its function.
unfoldable pub header_text : MlirGenerator → Text
header_text g = format (
    codes "module {\n  func.func @"
    ∷ g.graph_name
    ∷ codes "("
    ∷ comma_list argument g.graph_inputs
    ∷ codes ") -> ("
    ∷ comma_list type_of g.graph_outputs
    ∷ codes ")\n      attributes {\n        torch.onnx_meta.ir_version = "
    ∷ int_to_string g.ir_version
    ∷ codes " : si64,\n        torch.onnx_meta.opset_version = "
    ∷ int_to_string g.opset_version
    ∷ codes " : si64,\n        torch.onnx_meta.producer_name = \"onnxruntime-ep-iree\",\n"
    ∷ codes "        torch.onnx_meta.producer_version = \"\"\n      } {\n"
    ∷ [])

pub emit_module_header-out :
    (g : MlirGenerator) → emit_module_header g ≡ record g { out = g.out ++ header_text g }
unfolding emit_module_header header_text
emit_module_header-out g = rw (
  write_separated-intercalate (codes ", ") argument g.graph_inputs,
  write_separated-intercalate (codes ", ") type_of g.graph_outputs,
)

unfoldable pub return_text : List ValueInfo → Text
return_text outputs = format (
    codes "    return "
    ∷ comma_list (λ v. value_ref v.name) outputs
    ∷ codes " : "
    ∷ comma_list type_of outputs
    ∷ codes "\n"
    ∷ [])

pub emit_return-out :
    (g : MlirGenerator) → emit_return g ≡ record g { out = g.out ++ return_text g.graph_outputs }
unfolding emit_return return_text
emit_return-out g = rw (
  write_separated-intercalate (codes ", ") (λ (v : ValueInfo). value_ref v.name) g.graph_outputs,
  write_separated-intercalate (codes ", ") type_of g.graph_outputs,
)
