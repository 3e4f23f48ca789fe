-- ===== src/Ep/Compile/Files.antt =====
-- `CompileImpl` of src/iree_ep.cc with its temporary files. `phases` is what the phases do with the
-- files at the three paths: `GenerateMlir` and the compiler write them.
use onnxruntime_ep_iree.Common.{
  ℕ, ◌≡◌, ◌∙◌, Bool, true, false, ◌&&◌, ◌||◌, List, [], ◌∷◌, Option, if◌then◌else◌, Text, codes,
  text_eq, arith, inl, inr, Bool-cases,
}
use onnxruntime_ep_iree.Wrappers.{Result}
use onnxruntime_ep_iree.Ep.Config.{Config}
use onnxruntime_ep_iree.MlirGen.Graph.{Graph}
use onnxruntime_ep_iree.MlirGen.Archive.{Io}
use onnxruntime_ep_iree.TempFile.{
  Files, create, TempFile, temp_path, random_value, new_temp_file, keep_file, destroy,
}
use onnxruntime_ep_iree.TempFile.Laws.{temp_path-ne, destroy_three}
use onnxruntime_ep_iree.Ep.Compile.{Compiler, NodeComputeInfo, compile}

-- What the constructor of one temporary file depends on.
pub record Draw : Type 0 where
  pub high : ℕ
  pub low : ℕ
  pub opened : Bool

-- With `Keep`, if the configuration asks for it.
abbrev marked : Config → TempFile → TempFile
marked config t = if config.save_intermediates then keep_file t else t

module _ (c : Compiler) (io : Io) (format_e : ℕ → Text)
    (phases : Text → Text → Text → Files → Files) (temp_dir : Text) (mlir vmfb irpa : Draw) where
  abbrev pub mlir_path : Text
  mlir_path = temp_path temp_dir (codes ".mlir") (random_value mlir.high mlir.low)

  abbrev pub vmfb_path : Text
  vmfb_path = temp_path temp_dir (codes ".vmfb") (random_value vmfb.high vmfb.low)

  abbrev pub irpa_path : Text
  irpa_path = temp_path temp_dir (codes ".irpa") (random_value irpa.high irpa.low)

  -- The files at the start of the first phase.
  abbrev pub created_files : Files → Files
  created_files files =
      let after_mlir = if mlir.opened then create mlir_path files else files in
      let after_vmfb = if vmfb.opened then create vmfb_path after_mlir else after_mlir in
      if irpa.opened then create irpa_path after_vmfb else after_vmfb

  -- The destructors run in the reverse order, on every path behind the test for graphs.
  unfoldable pub compile_impl :
      Config → Bool → Bool → List Graph → Files → Option (Result NodeComputeInfo) × Files
  compile_impl config opened written [] files =
      (compile c io format_e config [] [] opened written [], files)
  compile_impl config opened written (graph ∷ graphs) files =
      let (mlir_temp, f) =
        new_temp_file temp_dir (codes ".mlir") mlir.high mlir.low mlir.opened files in
      let (vmfb_temp, g) =
        new_temp_file temp_dir (codes ".vmfb") vmfb.high vmfb.low vmfb.opened f in
      let (irpa_temp, h) =
        new_temp_file temp_dir (codes ".irpa") irpa.high irpa.low irpa.opened g in
      let mlir_file = marked config mlir_temp in
      let vmfb_file = marked config vmfb_temp in
      let irpa_file = marked config irpa_temp in
      (
        compile c io format_e config mlir_file.path vmfb_file.path opened written (graph ∷ graphs),
        destroy mlir_file (
            destroy vmfb_file
              (destroy irpa_file (phases mlir_file.path vmfb_file.path irpa_file.path h))),
      )

  -- The three paths of the call.
  abbrev pub is_temp : Text → Bool
  is_temp q = text_eq q mlir_path || text_eq q vmfb_path || text_eq q irpa_path

  created_files-other :
      (files : Files) (q : Text) → is_temp q ≡ false → created_files files q ≡ files q
  unfolding create
  created_files-other files q h = ground arith

  phases-other :
      (files : Files) (q : Text)
      → ((g : Files) (p : Text)
          → is_temp p ≡ false
          → phases mlir_path vmfb_path irpa_path g p ≡ g p)
      → is_temp q ≡ false
      → phases mlir_path vmfb_path irpa_path (created_files files) q ≡ files q
  phases-other files q touches h = touches (created_files files) q h ∙ created_files-other files q h

  -- Where the phases touch no other files than those at the three paths: after `CompileImpl`, with
  -- whatever result it returns, the files at the three paths are gone, or are what the phases left of
  -- them if the intermediates are saved, and every other file is as it was.
  pub compile_impl-files :
      (config : Config) (opened written : Bool) (graph : Graph) (graphs : List Graph)
      (files : Files) (q : Text)
      → ((g : Files) (p : Text)
          → is_temp p ≡ false
          → phases mlir_path vmfb_path irpa_path g p ≡ g p)
      → (compile_impl config opened written (graph ∷ graphs) files).1 q ≡ (
          if is_temp q
          then config.save_intermediates
            && phases mlir_path vmfb_path irpa_path (created_files files) q
          else files q)
  unfolding compile_impl new_temp_file keep_file
  compile_impl-files config opened written graph graphs files q touches =
      let left = phases mlir_path vmfb_path irpa_path (created_files files) in
      let removed = λ (keep : Bool).
        destroy_three mlir_path vmfb_path irpa_path keep left q
          (temp_path-ne temp_dir (codes ".mlir") (random_value mlir.high mlir.low))
          (temp_path-ne temp_dir (codes ".vmfb") (random_value vmfb.high vmfb.low))
          (temp_path-ne temp_dir (codes ".irpa") (random_value irpa.high irpa.low)) in
      elim (Bool-cases (is_temp q)) [
        | inl t ↦ elim (Bool-cases config.save_intermediates) [
          | inl e ↦ rw (e, t) (rw t at removed true)
          | inr e ↦ rw (e, t) (rw t at removed false)
        ]
        | inr t ↦ elim (Bool-cases config.save_intermediates) [
          | inl e ↦ rw (e, t) ((rw t at removed true) ∙ phases-other files q touches t)
          | inr e ↦ rw (e, t) ((rw t at removed false) ∙ phases-other files q touches t)
        ]
      ]
