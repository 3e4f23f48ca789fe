-- ===== src/Ep/Flags.antt =====
-- The flags for the compiler, by backend.
use onnxruntime_ep_iree.Common.{
  ◌≡◌, refl, inl, inr, Bool, true, false, not, ◌&&◌, ◌||◌, List, [], ◌∷◌, ◌++◌, ◌==◌, if◌then◌else◌,
  Text, codes, text_eq, is_empty, Bool-cases,
}
use onnxruntime_ep_iree.Ep.Config.{Config, generate_compile_flags}

-- `s` starts with `prefix`.
unfoldable pub starts_with : Text → Text → Bool
starts_with [] s = true
starts_with (c ∷ p) [] = false
starts_with (c ∷ p) (d ∷ s) = c == d && starts_with p s

-- The backends that `CreateEpImpl` sets.
unfoldable pub is_backend : Text → Bool
is_backend b =
    text_eq b (codes "llvm-cpu")
    || text_eq b (codes "vulkan")
    || text_eq b (codes "cuda")
    || text_eq b (codes "hip")

abbrev cpu_middle : Config → List Text
cpu_middle config =
    codes "--iree-hal-local-target-device-backends=llvm-cpu"
    ∷ codes "--iree-llvmcpu-target-cpu=host"
    ∷ (if text_eq config.opt_level (codes "O2") || text_eq config.opt_level (codes "O3")
        then codes "--iree-opt-data-tiling" ∷ []
        else [])

abbrev target_flag : Text → Config → List Text
target_flag target config =
    if not (is_empty config.target_arch) then (target ++ config.target_arch) ∷ [] else []

-- For the backends llvm-cpu, vulkan, cuda and hip the first flag selects the target device, and the last is the
-- optimization level of the configuration.
pub generate_compile_flags-device :
    (config : Config)
    → is_backend config.backend ≡ true
    → (first : Text) × (middle : List Text) × (generate_compile_flags config
        ≡ first ∷ (middle ++ (codes "--iree-opt-level=" ++ config.opt_level) ∷ []))
      × (starts_with (codes "--iree-hal-target-device=") first ≡ true)
unfolding generate_compile_flags starts_with is_backend
generate_compile_flags-device config h =
    elim (Bool-cases (text_eq config.backend (codes "llvm-cpu"))) [
      | inl e ↦ rw e (codes "--iree-hal-target-device=local", cpu_middle config, refl, refl)
      | inr e ↦ elim (Bool-cases (text_eq config.backend (codes "vulkan"))) [
        | inl v ↦ rw (e, v) (codes "--iree-hal-target-device=vulkan", [], refl, refl)
        | inr v ↦ elim (Bool-cases (text_eq config.backend (codes "cuda"))) [
          | inl c ↦
              rw (e, v, c)
                (
                  codes "--iree-hal-target-device=cuda",
                  target_flag (codes "--iree-cuda-target=") config,
                  refl,
                  refl,
                )
          | inr c ↦ elim (Bool-cases (text_eq config.backend (codes "hip"))) [
            | inl d ↦
                rw (e, v, c, d)
                  (
                    codes "--iree-hal-target-device=hip",
                    target_flag (codes "--iree-hip-target=") config,
                    refl,
                    refl,
                  )
            | inr d ↦ cc (rw (e, v, c, d) at h)
          ]
        ]
      ]
    ]
