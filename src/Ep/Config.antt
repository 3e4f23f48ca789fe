-- ===== src/Ep/Config.antt =====
-- `IreeEp::Config` (src/iree_ep.h) and `GenerateCompileFlags` (src/iree_ep.cc), in a build without
-- `assert`.
use onnxruntime_ep_iree.Common.{
  Bool, false, not, ◌||◌, List, [], ◌∷◌, ◌++◌, if◌then◌else◌, Text, codes, text_eq, is_empty,
}

pub record Config : Type 0 where
  pub enable_ep_context : Bool
  pub target_arch : Text
  pub opt_level : Text
  pub backend : Text
  pub save_intermediates : Bool

-- `Config config = {};`
abbrev pub default_config : Config
default_config = record {
  enable_ep_context = false;
  target_arch = [];
  opt_level = codes "O0";
  backend = [];
  save_intermediates = false;
}

abbrev llvm_cpu_flags : Config → List Text
llvm_cpu_flags config =
    codes "--iree-hal-target-device=local"
    ∷ codes "--iree-hal-local-target-device-backends=llvm-cpu"
    ∷ codes "--iree-llvmcpu-target-cpu=host"
    ∷ (if text_eq config.opt_level (codes "O2") || text_eq config.opt_level (codes "O3")
        then codes "--iree-opt-data-tiling" ∷ []
        else [])

-- The device flag, and the target flag if an architecture is given.
abbrev gpu_flags : Text → Text → Config → List Text
gpu_flags device target config =
    device ∷ (if not (is_empty config.target_arch) then (target ++ config.target_arch) ∷ [] else [])

backend_flags : Config → List Text
backend_flags config =
    if text_eq config.backend (codes "llvm-cpu")
    then llvm_cpu_flags config
    else if text_eq config.backend (codes "vulkan")
    then codes "--iree-hal-target-device=vulkan" ∷ []
    else if text_eq config.backend (codes "cuda")
    then gpu_flags (codes "--iree-hal-target-device=cuda") (codes "--iree-cuda-target=") config
    else if text_eq config.backend (codes "hip")
    then gpu_flags (codes "--iree-hal-target-device=hip") (codes "--iree-hip-target=") config
    else []

unfoldable pub generate_compile_flags : Config → List Text
unfolding backend_flags
generate_compile_flags config =
    backend_flags config ++ (codes "--iree-opt-level=" ++ config.opt_level) ∷ []
