-- ===== src/Ep/Compile/Objects/Results.antt =====
-- `CompileImpl` with its owning pointers has the result of the model without them.
use mathlib.Core.Option
use onnxruntime_ep_iree.Common.{
  ℕ, ◌≡◌, refl, ap, ◌∙◌, inl, inr, Bool, List, [], ◌∷◌, Option, none, some, Text, Option-cases,
}
use onnxruntime_ep_iree.Wrappers.{Status, Result, ok, err}
use onnxruntime_ep_iree.Wrappers.Pointers.{Op}
use onnxruntime_ep_iree.Wrappers.Pointers.Scopes.{
  Ending, continue, checked, untraced, ◌>>◌, ◌>>=◌, behind, checked-result, created-result,
  unit-result,
}
use onnxruntime_ep_iree.Ep.Config.{Config, generate_compile_flags}
use onnxruntime_ep_iree.MlirGen.Graph.{Graph}
use onnxruntime_ep_iree.MlirGen.Archive.{Entry, Io}
use onnxruntime_ep_iree.MlirGen.Archive.Objects.Results.{generate_objects-result}
use onnxruntime_ep_iree.Ep.Compile.{
  Compiler, compile_to_vmfb, register_parameters, first_error, function_name, lookup, load,
  after_mlir, compile,
}
use onnxruntime_ep_iree.Ep.Compile.Objects.{
  CompileObjects, session, traced_register, traced_info, traced_session, compile_objects,
}

module _ (c : Compiler) (io : Io) (format_e : ℕ → Text) (objects : CompileObjects) where
  traced_register-result :
      (parameters : Option (List Entry))
      → (traced_register c io format_e objects parameters).1
        ≡ behind (register_parameters c io format_e parameters) (some (ok tt))
  unfolding traced_register register_parameters
  traced_register-result none = refl
  traced_register-result (some index) = elim (Option-cases (c.create_parameters_module index)) [
    | inr (status, e) ↦ rw e refl
    | inl e ↦ elim (Option-cases (c.append_parameters_module index)) [
      | inr (status, f) ↦ rw (e, f) refl
      | inl f ↦ rw (e, f) refl
    ]
  ]

  found-result :
      (found : Result ℕ) (graph : Graph) (parameters : Option (List Entry))
      → (untraced (some found) >>= λ function.
          traced_info c io format_e objects function parameters).1
        ≡ some (lookup c io format_e graph parameters none found)
  unfolding traced_info lookup
  found-result (ok function) graph parameters = refl
  found-result (err status) graph parameters = refl

  behind-lookup :
      (vmfb create register append : Option Status) (found : Result ℕ) (graph : Graph)
      (parameters : Option (List Entry))
      → behind vmfb (
          behind create (
            behind register
              (behind append (some (lookup c io format_e graph parameters none found)))))
        ≡ some (
            lookup c io format_e graph parameters
              (first_error vmfb (first_error create (first_error register append)))
              found)
  unfolding lookup
  behind-lookup (some status) create register append found graph parameters = refl
  behind-lookup none (some status) register append found graph parameters = refl
  behind-lookup none none (some status) append found graph parameters = refl
  behind-lookup none none none (some status) found graph parameters = refl
  behind-lookup none none none none found graph parameters = refl

  traced_session-result :
      (vmfb_path : Text) (graph : Graph) (parameters : Option (List Entry))
      → (traced_session c io format_e objects vmfb_path graph parameters).1
        ≡ behind c.create_session (
            behind (register_parameters c io format_e parameters) (
              behind (c.append_bytecode_module vmfb_path) (
                some (
                  lookup c io format_e graph parameters none
                    (c.lookup_function (function_name graph))))))
  unfolding traced_session
  traced_session-result vmfb_path graph parameters =
      created-result session objects.session c.create_session _
      ∙ ap (behind c.create_session) (
          unit-result (traced_register c io format_e objects parameters) _ _
            (traced_register-result parameters)
          ∙ ap (behind (register_parameters c io format_e parameters)) (
              checked-result (c.append_bytecode_module vmfb_path) _
              ∙ ap (behind (c.append_bytecode_module vmfb_path))
                  (found-result (c.lookup_function (function_name graph)) graph parameters)))

  after_mlir-result :
      (config : Config) (mlir_path vmfb_path : Text) (graph : Graph)
      (parameters : Option (List Entry))
      → (checked (compile_to_vmfb c io format_e mlir_path vmfb_path (generate_compile_flags config))
          >> traced_session c io format_e objects vmfb_path graph parameters).1
        ≡ some (after_mlir c io format_e config mlir_path vmfb_path graph (ok parameters))
  unfolding after_mlir load
  after_mlir-result config mlir_path vmfb_path graph parameters =
      let vmfb =
        compile_to_vmfb c io format_e mlir_path vmfb_path (generate_compile_flags config) in
      checked-result vmfb _
      ∙ ap (behind vmfb) (traced_session-result vmfb_path graph parameters)
      ∙ behind-lookup vmfb c.create_session (register_parameters c io format_e parameters)
          (c.append_bytecode_module vmfb_path) (c.lookup_function (function_name graph)) graph
          parameters

  continue-result :
      (config : Config) (mlir_path vmfb_path : Text) (graph : Graph) (ops : List Op)
      (r : Ending (Option (List Entry)))
      → (continue ops r λ parameters.
          checked
            (compile_to_vmfb c io format_e mlir_path vmfb_path (generate_compile_flags config))
          >> traced_session c io format_e objects vmfb_path graph parameters).1
        ≡ Option.map (after_mlir c io format_e config mlir_path vmfb_path graph) r
  unfolding after_mlir
  continue-result config mlir_path vmfb_path graph ops none = refl
  continue-result config mlir_path vmfb_path graph ops (some (err status)) = refl
  continue-result config mlir_path vmfb_path graph ops (some (ok parameters)) =
      after_mlir-result config mlir_path vmfb_path graph parameters

  -- With the pointers `CompileImpl` has the result that it has without them.
  pub compile_objects-compile :
      (config : Config) (mlir_path vmfb_path : Text) (opened written : Bool) (graphs : List Graph)
      → (compile_objects c io format_e objects config mlir_path vmfb_path opened written graphs).1
        ≡ compile c io format_e config mlir_path vmfb_path opened written graphs
  unfolding compile_objects compile
  compile_objects-compile config mlir_path vmfb_path opened written [] = refl
  compile_objects-compile config mlir_path vmfb_path opened written (graph ∷ graphs) =
      continue-result config mlir_path vmfb_path graph _ _
      ∙ ap (Option.map (after_mlir c io format_e config mlir_path vmfb_path graph))
          (generate_objects-result io objects.archive format_e opened written mlir_path graph)
