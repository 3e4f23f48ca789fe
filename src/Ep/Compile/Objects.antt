-- ===== src/Ep/Compile/Objects.antt =====
-- `CompileImpl` of src/iree_ep.cc with the owning pointers that it declares, and the release of the
-- compute info that it makes.
pub mod Results
pub mod Session
pub mod Released
use onnxruntime_ep_iree.Common.{ℕ, Bool, List, [], ◌∷◌, Option, none, some, Text, codes}
use onnxruntime_ep_iree.Wrappers.{Status, ok, err, ort_invalid_argument}
use onnxruntime_ep_iree.Wrappers.Pointers.{Op, reset_op, destroy_op, move_construct_op}
use onnxruntime_ep_iree.Wrappers.Pointers.Scopes.{
  Ending, Traced, pure, untraced, fails, checked, perform, ◌>>=◌, ◌>>◌, scoped, created,
}
use onnxruntime_ep_iree.Ep.Config.{Config, generate_compile_flags}
use onnxruntime_ep_iree.MlirGen.Graph.{Graph}
use onnxruntime_ep_iree.MlirGen.Archive.{Entry, Io}
use onnxruntime_ep_iree.MlirGen.Archive.Objects.{Objects, out_index, out_provider, generate_objects}
use onnxruntime_ep_iree.Ep.Compile.{Compiler, NodeComputeInfo, compile_to_vmfb, function_name}

-- The variables beside `parameter_index` and `parameter_provider`: those of `CompileImpl`, the
-- parameter of the constructor of `IreeNodeComputeInfo`, and its member.
abbrev pub session : ℕ
session = 6

abbrev parameters_module : ℕ
parameters_module = 7

abbrev session_parameter : ℕ
session_parameter = 8

abbrev pub session_member : ℕ
session_member = 9

-- The objects that the calls create.
pub record CompileObjects : Type 0 where
  pub archive : Objects
  pub session : ℕ
  pub parameters_module : ℕ

module _ (c : Compiler) (io : Io) (format_e : ℕ → Text) (objects : CompileObjects) where
  -- Phase 4
  traced_register : Option (List Entry) → Traced (Unit {0})
  traced_register none = pure tt
  traced_register (some index) = scoped parameters_module do
    created parameters_module objects.parameters_module (c.create_parameters_module index)
    checked (c.append_parameters_module index)

  -- `new IreeNodeComputeInfo(*ep, std::move(session), function)`
  traced_info : ℕ → Option (List Entry) → Traced NodeComputeInfo
  traced_info function parameters = do
    scoped session_parameter do
      perform (move_construct_op session_parameter session)
      perform (move_construct_op session_member session_parameter)
    pure (record { function = function; parameters = parameters })

  -- Phases 3 to 6
  traced_session : Text → Graph → Option (List Entry) → Traced NodeComputeInfo
  unfolding traced_register traced_info
  traced_session vmfb_path graph parameters = scoped session do
    created session objects.session c.create_session
    traced_register parameters
    checked (c.append_bytecode_module vmfb_path)
    function ← untraced (some (c.lookup_function (function_name graph)))
    traced_info function parameters

  unfoldable pub compile_objects :
      Config → Text → Text → Bool → Bool → List Graph → Traced NodeComputeInfo
  unfolding traced_session
  compile_objects config mlir_path vmfb_path opened written [] = fails (record {
    code = ort_invalid_argument;
    message = codes "IREE EP: No graphs provided to compile.";
  })
  compile_objects config mlir_path vmfb_path opened written (graph ∷ graphs) = scoped out_index (
      scoped out_provider do
        parameters ← generate_objects io objects.archive format_e opened written mlir_path graph
        checked (compile_to_vmfb c io format_e mlir_path vmfb_path (generate_compile_flags config))
        traced_session vmfb_path graph parameters)

-- `ReleaseNodeComputeInfosImpl` on the info that a call made, if it made one: its destructor resets
-- the session, and the member is destroyed.
unfoldable pub release_info : Ending NodeComputeInfo → List Op
release_info (some (ok info)) = reset_op session_member none ∷ destroy_op session_member ∷ []
release_info _ = []
