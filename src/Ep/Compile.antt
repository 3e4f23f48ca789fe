-- ===== src/Ep/Compile.antt =====
-- `CompileImpl` of src/iree_ep.cc and `CompileToVmfb` of src/iree_compile.cc. The calls of IREE are
-- the fields of `Compiler`, where a status is null on success; `run_command` is `std::system`.
pub mod Laws
pub mod Answers
pub mod Files
pub mod Objects
use mathlib.Core.Option
use onnxruntime_ep_iree.Common.{
  ℕ, Bool, true, false, List, [], ◌∷◌, ◌++◌, Option, none, some, ◌==◌, if◌then◌else◌, Text, codes,
  is_empty,
}
use onnxruntime_ep_iree.Common.Decimal.{ℤ, pos, negsuc, int_to_string}
use onnxruntime_ep_iree.Wrappers.{Status, Result, ok, err, ort_fail, ort_invalid_argument}
use onnxruntime_ep_iree.Ep.Config.{Config, generate_compile_flags}
use onnxruntime_ep_iree.MlirGen.Graph.{Graph}
use onnxruntime_ep_iree.MlirGen.Archive.{Entry, Io, generate_mlir}

-- Each flag behind a space.
join_flags : Text → List Text → Text
join_flags acc [] = acc
join_flags acc (flag ∷ flags) = join_flags (acc ++ (codes " " ++ flag)) flags

unfoldable pub compile_command : Text → Text → List Text → Text
unfolding join_flags
compile_command mlir_path vmfb_path flags =
    codes "iree-compile \""
    ++ (mlir_path
        ++ (codes "\" " ++ (join_flags [] flags ++ (codes " -o \"" ++ (vmfb_path ++ codes "\"")))))

-- The calls of the compiler and of the IREE runtime. A function is its handle.
pub record Compiler : Type 0 where
  pub run_command : Text → ℤ
  pub create_session : Option Status
  pub create_parameters_module : List Entry → Option Status
  pub append_parameters_module : List Entry → Option Status
  pub append_bytecode_module : Text → Option Status
  pub lookup_function : Text → Result ℕ

-- `IreeNodeComputeInfo`, and the parameters whose module its session has.
pub record NodeComputeInfo : Type 0 where
  pub function : ℕ
  pub parameters : Option (List Entry)

abbrev is_zero : ℤ → Bool
is_zero (pos n) = n == 0
is_zero (negsuc n) = false

abbrev pub first_error : Option Status → Option Status → Option Status
first_error none next = next
first_error (some status) next = some status

unfoldable pub function_name : Graph → Text
function_name graph = codes "module." ++ (if is_empty graph.name then codes "main" else graph.name)

module _ (c : Compiler) (io : Io) (format_e : ℕ → Text) where
  unfoldable pub compile_to_vmfb : Text → Text → List Text → Option Status
  compile_to_vmfb mlir_path vmfb_path flags =
      let command = compile_command mlir_path vmfb_path flags in
      let result = c.run_command command in
      if is_zero result
      then none
      else some (record {
        code = ort_fail;
        message =
            codes "IREE EP: iree-compile failed with exit code "
            ++ (int_to_string result ++ (codes ". Command: " ++ command));
      })

  -- Phase 4
  pub register_parameters : Option (List Entry) → Option Status
  register_parameters none = none
  register_parameters (some index) =
      first_error (c.create_parameters_module index) (c.append_parameters_module index)

  -- Phases 2 to 5
  load : Config → Text → Text → Option (List Entry) → Option Status
  unfolding register_parameters
  load config mlir_path vmfb_path parameters =
      first_error (compile_to_vmfb mlir_path vmfb_path (generate_compile_flags config)) (
        first_error c.create_session
          (first_error (register_parameters parameters) (c.append_bytecode_module vmfb_path)))

  -- Phase 6, behind the status of the phases before it.
  lookup : Graph → Option (List Entry) → Option Status → Result ℕ → Result NodeComputeInfo
  lookup graph parameters (some status) found = err status
  lookup graph parameters none (err status) = err status
  lookup graph parameters none (ok function) =
      ok (record { function = function; parameters = parameters })

  after_mlir : Config → Text → Text → Graph → Result (Option (List Entry)) → Result NodeComputeInfo
  unfolding load lookup
  after_mlir config mlir_path vmfb_path graph (err status) = err status
  after_mlir config mlir_path vmfb_path graph (ok parameters) =
      lookup graph parameters (load config mlir_path vmfb_path parameters)
        (c.lookup_function (function_name graph))

  -- The paths are those of the temporary files; `opened` and `written` are how the MLIR file behaves.
  -- `none` stands for an index out of range in the archive.
  unfoldable pub compile :
      Config → Text → Text → Bool → Bool → List Graph → Option (Result NodeComputeInfo)
  unfolding after_mlir
  compile config mlir_path vmfb_path opened written [] = some (
      err (record {
        code = ort_invalid_argument;
        message = codes "IREE EP: No graphs provided to compile.";
      }))
  compile config mlir_path vmfb_path opened written (graph ∷ graphs) =
      Option.map (after_mlir config mlir_path vmfb_path graph)
        (generate_mlir io format_e opened written mlir_path graph).1
