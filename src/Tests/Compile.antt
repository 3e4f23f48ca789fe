-- ===== src/Tests/Compile.antt =====
-- Runs of `CompileImpl`.
use onnxruntime_ep_iree.Common.{
  ℕ, ◌≡◌, ◌≢◌, refl, inl, inr, ◌⊎◌, Bool, true, [], ◌∷◌, none, some, Text, codes, text_eq,
  text_eq_iff, if◌then◌else◌, Bool-cases,
}
use onnxruntime_ep_iree.Common.Decimal.{pos}
use onnxruntime_ep_iree.Wrappers.{ok, err, ort_fail}
use onnxruntime_ep_iree.Ep.Config.{default_config}
use onnxruntime_ep_iree.MlirGen.Graph.{Graph}
use onnxruntime_ep_iree.MlirGen.Names.{sanitize_name}
use onnxruntime_ep_iree.MlirGen.Generator.{
  collect_metadata, new_generator, generate, emit_module_footer, emit_function_body, emit_return,
  emit_nodes, emit_initializers, emit_module_header,
}
use onnxruntime_ep_iree.MlirGen.Archive.{generate_mlir, build_parameter_archive}
use onnxruntime_ep_iree.Ep.Compile.{
  Compiler, NodeComputeInfo, compile_command, compile_to_vmfb, compile,
}
use onnxruntime_ep_iree.Ep.Compile.Laws.{compile_renamed}
use onnxruntime_ep_iree.Common.{◌||◌, false, arith}
use onnxruntime_ep_iree.Common.Decimal.{to_string}
use onnxruntime_ep_iree.Common.Paths.{append_path, is_absolute}
use onnxruntime_ep_iree.TempFile.{Files, temp_path, random_value}
use onnxruntime_ep_iree.TempFile.Laws.{temp_path-random_value}
use onnxruntime_ep_iree.Ep.Compile.Files.{Draw, compile_impl, compile_impl-files}
use onnxruntime_ep_iree.Common.{◌+◌, ◌++◌}
use onnxruntime_ep_iree.Wrappers.Pointers.{get, run_ops}
use onnxruntime_ep_iree.Wrappers.Pointers.Laws.{count, none_yet}
use onnxruntime_ep_iree.Ep.Compile.Objects.{
  CompileObjects, session_member, compile_objects, release_info,
}
use onnxruntime_ep_iree.Ep.Compile.Objects.Released.{compile_objects-released}
use onnxruntime_ep_iree.Tests.Archive.{float_text, io, graph}

command :
    compile_command (codes "a.mlir") (codes "a.vmfb") (codes "-x" ∷ codes "-y" ∷ [])
    ≡ codes "iree-compile \"a.mlir\"  -x -y -o \"a.vmfb\""
unfolding compile_command
command = refl

-- No parameters, and a session that finds any function.
abbrev plain : Graph
plain = record graph { initializers = [] }

abbrev compiler : Compiler
compiler = record {
  run_command = λ text. pos 0;
  create_session = none;
  create_parameters_module = λ index. none;
  append_parameters_module = λ index. none;
  append_bytecode_module = λ path. none;
  lookup_function = λ name. ok 7;
}

abbrev info : NodeComputeInfo
info = record { function = 7; parameters = none }

compiled :
    compile compiler io float_text default_config (codes "m") (codes "v") true true (plain ∷ [])
    ≡ some (ok info)
unfolding compile generate_mlir build_parameter_archive generate emit_module_footer
    emit_function_body emit_return emit_nodes emit_initializers emit_module_header collect_metadata
    compile_to_vmfb
compiled = refl

-- A name that sanitizing changes, and a session that finds what was written.
abbrev dotted : Graph
dotted = record plain { name = codes "torch.jit" }

abbrev strict : Compiler
strict = record compiler {
  lookup_function = λ name.
      if text_eq name (codes "module.torch_jit") || text_eq name (codes "module.__init")
      then ok 7
      else err (record { code = ort_fail; message = [] });
}

-- Names of functions that the compiler generates.
abbrev generated : Text → Bool
generated name = text_eq name (codes "__init")

found_only :
    (name : Text) (f : ℕ)
    → strict.lookup_function (codes "module." ++ name) ≡ ok f
    → (name ≡ (collect_metadata dotted new_generator).graph_name) ⊎ (generated name ≡ true)
unfolding collect_metadata sanitize_name text_eq
found_only name f = elim (Bool-cases (text_eq name (codes "torch_jit"))) [
  | inl e ↦ λ h. inl ((text_eq_iff name (codes "torch_jit")).0 e)
  | inr e ↦ elim (Bool-cases (text_eq name (codes "__init"))) [
    | inl i ↦ λ h. inr i
    | inr i ↦ rw (e, i) (λ h. cc)
  ]
]

renamed : sanitize_name (codes "torch.jit") ≢ codes "torch.jit"
unfolding sanitize_name
renamed h = cc

compile_renamed_example :
    compile strict io float_text default_config (codes "m") (codes "v") true true (dotted ∷ [])
    ≢ some (ok info)
unfolding text_eq
compile_renamed_example =
    compile_renamed strict io float_text default_config (codes "m") (codes "v") true true dotted []
      info generated found_only refl renamed

-- The phases leave the bytecode file only.
abbrev writes : Text → Text → Text → Files → Files
writes mlir_path vmfb_path irpa_path files q =
    if text_eq q mlir_path || text_eq q irpa_path then false else text_eq q vmfb_path || files q

abbrev draw : ℕ → Draw
draw low = record { high = 0; low = low; opened = true }

written_path :
    temp_path (codes "/tmp") (codes ".vmfb") (random_value 0 2) ≡ codes "/tmp/iree_ep_2.vmfb"
unfolding temp_path random_value append_path is_absolute to_string
written_path = refl

compile_impl-files_example :
    (compile_impl compiler io float_text writes
        (codes "/tmp")
        (draw 1)
        (draw 2)
        (draw 3)
        default_config
        true
        true
        (plain ∷ [])
        (λ q. false)).1
      (codes "/etc/hosts")
    ≡ false
unfolding temp_path random_value append_path to_string text_eq
compile_impl-files_example =
    compile_impl-files compiler io float_text writes (codes "/tmp") (draw 1) (draw 2) (draw 3)
      default_config true true plain [] (λ q. false) (codes "/etc/hosts") (λ g p h. ground arith)

temp_path-random_value_example : (◌≡◌ {A = ℕ} 7 7) × (◌≡◌ {A = ℕ} 9 9)
temp_path-random_value_example =
    temp_path-random_value (codes "/tmp") (codes ".mlir") 7 9 7 9 (omega arith) (omega arith)
      (omega arith) (omega arith) refl

abbrev compile_handles : CompileObjects
compile_handles = record {
  archive = record { source = 11; target = 12; provider = 13; file = λ i. 20 + i };
  session = 14;
  parameters_module = 15;
}

compile_objects-released_example :
    let m =
      compile_objects compiler io float_text compile_handles default_config
        (codes "m")
        (codes "v")
        true
        true
        (graph ∷ []) in
    let s = run_ops (m.0 ++ release_info m.1) none_yet in
    (m.1
      ≡ compile compiler io float_text default_config
          (codes "m")
          (codes "v")
          true
          true
          (graph ∷ []))
    × ((made : NodeComputeInfo)
        → m.1 ≡ some (ok made)
        → get session_member (run_ops m.0 none_yet).vars ≡ some 14)
    × ((b : ℕ) → count b s.released ≡ count b s.given)
compile_objects-released_example =
    compile_objects-released compiler io float_text compile_handles default_config (codes "m")
      (codes "v") true true (graph ∷ [])
