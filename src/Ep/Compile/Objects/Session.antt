-- ===== src/Ep/Compile/Objects/Session.antt =====
-- The compute info that `CompileImpl` makes owns the session that was created.
use onnxruntime_ep_iree.Common.{ℕ, refl, Bool, List, [], ◌∷◌, Option, none, some, Text}
use onnxruntime_ep_iree.Wrappers.{ok}
use onnxruntime_ep_iree.Wrappers.Pointers.{Pointers}
use onnxruntime_ep_iree.Wrappers.Pointers.Scopes.{checked}
use onnxruntime_ep_iree.Wrappers.Pointers.Leads.{
  Has, Leads, Always, Leads-Always, Leads-untraced, Leads-checked, Leads-bind, Leads-scoped,
  construct-Has, destroy-Has, Leads-created, Leads-created_other, Leads-move_construct,
}
use onnxruntime_ep_iree.Ep.Config.{Config, generate_compile_flags}
use onnxruntime_ep_iree.MlirGen.Graph.{Graph}
use onnxruntime_ep_iree.MlirGen.Archive.{Entry, Io}
use onnxruntime_ep_iree.MlirGen.Archive.Objects.{out_index, out_provider, generate_objects}
use onnxruntime_ep_iree.Ep.Compile.{Compiler, compile_to_vmfb, function_name}
use onnxruntime_ep_iree.Ep.Compile.Objects.{
  CompileObjects, session, parameters_module, session_parameter, session_member, traced_register,
  traced_info, traced_session, compile_objects,
}

module _ (c : Compiler) (io : Io) (format_e : ℕ → Text) (objects : CompileObjects) where
  abbrev HasSession : Pointers → Type 0
  HasSession = Has session objects.session

  abbrev Owns : Pointers → Type 0
  Owns = Has session_member objects.session

  traced_register-Leads :
      (parameters : Option (List Entry))
      → Leads HasSession HasSession (traced_register c io format_e objects parameters)
  unfolding traced_register
  traced_register-Leads none = Leads-untraced HasSession (some (ok tt))
  traced_register-Leads (some index) =
      Leads-scoped HasSession HasSession parameters_module _
        (construct-Has session parameters_module objects.session refl)
        (destroy-Has session parameters_module objects.session refl)
        (Leads-bind HasSession HasSession HasSession _ _
          (Leads-created_other session objects.session parameters_module objects.parameters_module
            (c.create_parameters_module index) refl)
          λ _. Leads-checked HasSession (c.append_parameters_module index))

  traced_info-Leads :
      (function : ℕ) (parameters : Option (List Entry))
      → Leads HasSession Owns (traced_info c io format_e objects function parameters)
  unfolding traced_info
  traced_info-Leads function parameters =
      Leads-bind HasSession Owns Owns _ _
        (Leads-scoped HasSession Owns session_parameter _
          (construct-Has session session_parameter objects.session refl)
          (destroy-Has session_member session_parameter objects.session refl)
          (Leads-bind HasSession (Has session_parameter objects.session) Owns _ _
            (Leads-move_construct session_parameter session objects.session refl refl)
            λ _. Leads-move_construct session_member session_parameter objects.session refl refl))
        λ _.
          Leads-untraced Owns (some (ok (record { function = function; parameters = parameters })))

  traced_session-Leads :
      (vmfb_path : Text) (graph : Graph) (parameters : Option (List Entry))
      → Leads Always Owns (traced_session c io format_e objects vmfb_path graph parameters)
  unfolding traced_session
  traced_session-Leads vmfb_path graph parameters =
      Leads-scoped Always Owns session _ (λ s h. h)
        (destroy-Has session_member session objects.session refl)
        (Leads-bind Always HasSession Owns _ _
          (Leads-created session objects.session c.create_session)
          λ _. Leads-bind HasSession HasSession Owns _ _ (traced_register-Leads parameters) λ _.
            Leads-bind HasSession HasSession Owns _ _
              (Leads-checked HasSession (c.append_bytecode_module vmfb_path))
              λ _.
                Leads-bind HasSession HasSession Owns _ _
                  (Leads-untraced HasSession (some (c.lookup_function (function_name graph))))
                  λ function. traced_info-Leads function parameters)

  pub compile_objects-Leads :
      (config : Config) (mlir_path vmfb_path : Text) (opened written : Bool) (graphs : List Graph)
      → Leads Always Owns
          (compile_objects c io format_e objects config mlir_path vmfb_path opened written graphs)
  unfolding compile_objects
  compile_objects-Leads config mlir_path vmfb_path opened written [] = record {
    leads = λ s h a e. cc;
  }
  compile_objects-Leads config mlir_path vmfb_path opened written (graph ∷ graphs) =
      Leads-scoped Always Owns out_index _ (λ s h. h)
        (destroy-Has session_member out_index objects.session refl)
        (Leads-scoped Always Owns out_provider _ (λ s h. h)
          (destroy-Has session_member out_provider objects.session refl)
          (Leads-bind Always Always Owns _ _
            (Leads-Always
              (generate_objects io objects.archive format_e opened written mlir_path graph))
            λ parameters.
              Leads-bind Always Always Owns _ _
                (Leads-Always (
                  checked (
                    compile_to_vmfb c io format_e mlir_path vmfb_path
                      (generate_compile_flags config))))
                λ _. traced_session-Leads vmfb_path graph parameters))
