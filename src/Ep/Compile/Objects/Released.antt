-- ===== src/Ep/Compile/Objects/Released.antt =====
-- Every object that `CompileImpl` creates is released.
use onnxruntime_ep_iree.Common.{
  ℕ, ◌≡◌, refl, inl, inr, Bool, List, [], ◌∷◌, ◌++◌, Option, none, some, Text, In, In-append_left,
}
use onnxruntime_ep_iree.Wrappers.{ok, err}
use onnxruntime_ep_iree.Wrappers.Pointers.{Pointers, get, run_op, run_ops, construct, destroy}
use onnxruntime_ep_iree.Wrappers.Pointers.Laws.{count, none_yet}
use onnxruntime_ep_iree.Wrappers.Pointers.Null.{Holds, Holds-mono, Holds-destroy}
use onnxruntime_ep_iree.Wrappers.Pointers.Scopes.{Ending}
use onnxruntime_ep_iree.Wrappers.Pointers.Settles.{
  Settles, remaining, Settles-fails, Settles-untraced, Settles-checked, Settles-created,
  Settles-move_construct, Settles-bind, Settles-return, Settles-scoped, Holds-balance,
  none_yet-Holds, run_ops-append,
}
use onnxruntime_ep_iree.Ep.Config.{Config, generate_compile_flags}
use onnxruntime_ep_iree.MlirGen.Graph.{Graph}
use onnxruntime_ep_iree.MlirGen.Archive.{Entry, Io}
use onnxruntime_ep_iree.MlirGen.Archive.Objects.{out_index, out_provider}
use onnxruntime_ep_iree.MlirGen.Archive.Objects.Settled.{outputs, generate_objects-Settles}
use onnxruntime_ep_iree.Ep.Compile.{
  Compiler, NodeComputeInfo, compile_to_vmfb, function_name, compile,
}
use onnxruntime_ep_iree.Ep.Compile.Objects.{
  CompileObjects, session, parameters_module, session_parameter, session_member, traced_register,
  traced_info, traced_session, compile_objects, release_info,
}
use onnxruntime_ep_iree.Ep.Compile.Objects.Results.{compile_objects-compile}
use onnxruntime_ep_iree.Ep.Compile.Objects.Session.{compile_objects-Leads}

module _ (c : Compiler) (io : Io) (format_e : ℕ → Text) (objects : CompileObjects) where
  traced_register-Settles :
      (vs : List ℕ) (parameters : Option (List Entry))
      → Settles vs vs (traced_register c io format_e objects parameters)
  unfolding traced_register
  traced_register-Settles vs none = Settles-untraced vs (some (ok tt))
  traced_register-Settles vs (some index) =
      let us = parameters_module ∷ vs in
      Settles-scoped vs parameters_module vs _ (
        Settles-bind us us _ _
          (Settles-created us parameters_module _ (c.create_parameters_module index) (inl refl))
          λ _. Settles-checked us (c.append_parameters_module index))

  -- The variables of `CompileImpl`, innermost first.
  abbrev locals : List ℕ
  locals = session ∷ outputs io objects.archive

  -- They and the member of the compute info.
  abbrev made : List ℕ
  made = session ∷ out_provider ∷ out_index ∷ session_member ∷ []

  below : (u : ℕ) → In u (session_parameter ∷ locals) → In u (session_parameter ∷ made)
  below u m = In-append_left u (session_parameter ∷ locals) (session_member ∷ []) m

  traced_info-Settles :
      (function : ℕ) (parameters : Option (List Entry))
      → Settles locals made (traced_info c io format_e objects function parameters)
  unfolding traced_info
  traced_info-Settles function parameters =
      Settles-return locals made _ (λ _. record { function = function; parameters = parameters })
        (Settles-scoped locals session_parameter made _ (
          Settles-bind _ _ _ _
            (Settles-move_construct _ (session_parameter ∷ locals) session_parameter session
              (λ u m. m) (inl refl))
            λ _.
              Settles-move_construct _ _ session_member session_parameter below
                (inr (inr (inr (inr (inl refl)))))))

  traced_session-Settles :
      (vmfb_path : Text) (graph : Graph) (parameters : Option (List Entry))
      → Settles
          (out_provider ∷ out_index ∷ [])
          (out_provider ∷ out_index ∷ session_member ∷ [])
          (traced_session c io format_e objects vmfb_path graph parameters)
  unfolding traced_session
  traced_session-Settles vmfb_path graph parameters = Settles-scoped _ session _ _ (
      Settles-bind locals made _ _
        (Settles-created locals session objects.session c.create_session (inl refl))
        λ _. Settles-bind locals made _ _ (traced_register-Settles locals parameters) λ _.
          Settles-bind locals made _ _ (Settles-checked locals (c.append_bytecode_module vmfb_path))
            λ _.
              Settles-bind locals made _ _
                (Settles-untraced locals (some (c.lookup_function (function_name graph))))
                λ function. traced_info-Settles function parameters)

  compile_objects-Settles :
      (config : Config) (mlir_path vmfb_path : Text) (opened written : Bool) (graphs : List Graph)
      → Settles []
          (session_member ∷ [])
          (compile_objects c io format_e objects config mlir_path vmfb_path opened written graphs)
  unfolding compile_objects
  compile_objects-Settles config mlir_path vmfb_path opened written [] =
      Settles-fails [] (session_member ∷ []) _
  compile_objects-Settles config mlir_path vmfb_path opened written (graph ∷ graphs) =
      Settles-scoped [] out_index (session_member ∷ []) _ (
        Settles-scoped (out_index ∷ []) out_provider (out_index ∷ session_member ∷ []) _ (
          Settles-bind _ _ _ _
            (generate_objects-Settles io objects.archive format_e opened written mlir_path graph)
            λ parameters.
              Settles-bind _ _ _ _
                (Settles-checked _ (
                  compile_to_vmfb c io format_e mlir_path vmfb_path
                    (generate_compile_flags config)))
                λ _. traced_session-Settles vmfb_path graph parameters))

  -- Resetting the member, as the destructor does, and destroying it.
  release_info-Holds :
      (r : Ending NodeComputeInfo) (s : Pointers)
      → Holds (remaining [] (session_member ∷ []) r) s
      → Holds [] (run_ops (release_info r) s)
  unfolding release_info run_ops run_op construct destroy
  release_info-Holds none s h = h
  release_info-Holds (some (err status)) s h = h
  release_info-Holds (some (ok info)) s h = Holds-destroy [] _ session_member (
      Holds-mono [] (session_member ∷ []) _ (λ u m. absurd m) (Holds-destroy [] s session_member h))

  -- `CompileImpl` with its owning pointers returns what it returns without them. If it succeeds, the
  -- compute info owns the session that was created. And whether it succeeds or fails: when ORT has released the compute info that it made, if it made
  -- one, each object whose ownership the pointers took (the session, the parameter module, the
  -- parameter indices and provider, the file handles) has been released exactly as often.
  pub compile_objects-released :
      (config : Config) (mlir_path vmfb_path : Text) (opened written : Bool) (graphs : List Graph)
      → let m =
          compile_objects c io format_e objects config mlir_path vmfb_path opened written graphs in
        let s = run_ops (m.0 ++ release_info m.1) none_yet in
        (m.1 ≡ compile c io format_e config mlir_path vmfb_path opened written graphs)
        × ((info : NodeComputeInfo)
            → m.1 ≡ some (ok info)
            → get session_member (run_ops m.0 none_yet).vars ≡ some objects.session)
        × ((b : ℕ) → count b s.released ≡ count b s.given)
  compile_objects-released config mlir_path vmfb_path opened written graphs =
      let m =
        compile_objects c io format_e objects config mlir_path vmfb_path opened written graphs in
      let settled =
        (compile_objects-Settles config mlir_path vmfb_path opened written graphs).settled none_yet
          none_yet-Holds in
      (
        compile_objects-compile c io format_e objects config mlir_path vmfb_path opened written
            graphs,
        (compile_objects-Leads c io format_e objects config mlir_path vmfb_path opened written
              graphs).leads
            none_yet tt,
        λ b. Holds-balance (m.0 ++ release_info m.1) b (
            rw (run_ops-append m.0 (release_info m.1) none_yet)
              (release_info-Holds m.1 (run_ops m.0 none_yet) settled)),
      )
