-- ===== src/Ep/Compile/Answers.antt =====
-- Exactly when `CompileImpl` succeeds: what the compiler and the session have to answer.
use onnxruntime_ep_iree.Common.{ℕ, ◌≡◌, Bool, List, ◌++◌, Option, none, some, Text, codes}
use onnxruntime_ep_iree.Common.Decimal.{pos}
use onnxruntime_ep_iree.Wrappers.{ok}
use onnxruntime_ep_iree.Ep.Config.{Config, generate_compile_flags}
use onnxruntime_ep_iree.MlirGen.Graph.{Graph}
use onnxruntime_ep_iree.MlirGen.Archive.{Entry, Io, generate_mlir}
use onnxruntime_ep_iree.Ep.Compile.{Compiler, NodeComputeInfo, compile_command}
use onnxruntime_ep_iree.Ep.Compile.Laws.{looked_up}

module _ (c : Compiler) (io : Io) (format_e : ℕ → Text) where
  -- The parameters module is created for the index of the archive and taken by the session, if
  -- there is such an index.
  abbrev Registered : Option (List Entry) → Type 0
  Registered parameters =
      (index : List Entry)
      → parameters ≡ some index
      → (c.create_parameters_module index ≡ none) × (c.append_parameters_module index ≡ none)

  -- What the environment answers in a compilation that succeeds.
  pub record Answered (config : Config) (mlir_path vmfb_path : Text) (opened written : Bool)
      (graph : Graph) (info : NodeComputeInfo) : Type 0 where
    pub generated :
        (generate_mlir io format_e opened written mlir_path graph).1 ≡ some (ok info.parameters)
    pub exit_code :
        c.run_command (compile_command mlir_path vmfb_path (generate_compile_flags config)) ≡ pos 0
    pub session : c.create_session ≡ none
    pub registered : Registered info.parameters
    pub loaded : c.append_bytecode_module vmfb_path ≡ none
    pub found : c.lookup_function (codes "module." ++ looked_up graph) ≡ ok info.function
