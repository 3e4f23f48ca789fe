-- ===== src/Factory/CreateEp/Tables.antt =====
-- The drivers, the options and the device types that `CreateEpImpl` tells apart, as tables.
use mathlib.Core.Option
use mathlib.Core.Option.{some-injective}
use onnxruntime_ep_iree.Common.{
  ◌≡◌, ◌≢◌, ◌↔◌, refl, sym, subst, inl, inr, ◌⊎◌, true, false, not, ◌||◌, List, [], ◌∷◌, Option,
  none, some, Text, codes, text_eq, text_eq_iff, is_empty, In, Bool-cases,
}
use onnxruntime_ep_iree.Ep.Config.{Config}
use onnxruntime_ep_iree.Factory.State.{HardwareDeviceType, cpu, gpu, npu}
use onnxruntime_ep_iree.Factory.CreateEp.{SessionOptions, read_config, select_backend, is_cpu}

-- The drivers that are supported, each with its backend.
abbrev pub backends : List (Text × Text)
backends =
    (codes "vulkan", codes "vulkan")
    ∷ (codes "cuda", codes "cuda")
    ∷ (codes "hip", codes "hip")
    ∷ (codes "local-task", codes "llvm-cpu")
    ∷ (codes "local-sync", codes "llvm-cpu")
    ∷ []

-- The value of an option of the session, with a default also where the session has no options.
abbrev pub option_or : Option SessionOptions → Text → Text → Text
option_or none key default = default
option_or (some options) key default = Option.get_or (options.entry key) default

-- The configuration that the session asks for, with this backend.
abbrev pub config_for : Option SessionOptions → Text → Config
config_for options backend = record {
  enable_ep_context = false;
  target_arch = option_or options (codes "ep.iree.target_arch") [];
  opt_level = option_or options (codes "ep.iree.opt_level") (codes "O0");
  backend = backend;
  save_intermediates =
      text_eq (option_or options (codes "ep.iree.save_intermediates") (codes "0")) (codes "1");
}

pub read_config-config_for :
    (options : Option SessionOptions) (b : Text)
    → record (read_config options) { backend = b } ≡ config_for options b
unfolding read_config text_eq
read_config-config_for none b = refl
read_config-config_for (some options) b = refl

in_table :
    (driver name b backend : Text)
    → text_eq driver name ≡ true
    → ◌≡◌ {A = Option Text} (some backend) (some b)
    → ◌≡◌ {A = Text × Text} (driver, b) (name, backend)
in_table driver name b backend e h =
    λ k. ((text_eq_iff driver name).0 e k, sym (some-injective backend b h) k)

select_backend-In : (driver b : Text) → select_backend driver ≡ some b → In (driver, b) backends
unfolding select_backend
select_backend-In driver b = elim (Bool-cases (text_eq driver (codes "vulkan"))) [
  | inl e ↦ rw e (λ h. inl (in_table driver _ b _ e h))
  | inr v ↦ elim (Bool-cases (text_eq driver (codes "cuda"))) [
    | inl e ↦ rw (v, e) (λ h. inr (inl (in_table driver _ b _ e h)))
    | inr c ↦ elim (Bool-cases (text_eq driver (codes "hip"))) [
      | inl e ↦ rw (v, c, e) (λ h. inr (inr (inl (in_table driver _ b _ e h))))
      | inr p ↦ elim (Bool-cases (text_eq driver (codes "local-task"))) [
        | inl e ↦ rw (v, c, p, e) (λ h. inr (inr (inr (inl (in_table driver _ b _ e h)))))
        | inr t ↦ elim (Bool-cases (text_eq driver (codes "local-sync"))) [
          | inl e ↦
              rw (v, c, p, t, e) (λ h. inr (inr (inr (inr (inl (in_table driver _ b _ e h))))))
          | inr n ↦ rw (v, c, p, t, n) (λ h. cc)
        ]
      ]
    ]
  ]
]

pub select_backend-backends :
    (driver b : Text) → (select_backend driver ≡ some b) ↔ In (driver, b) backends
unfolding select_backend text_eq
select_backend-backends driver b = (
  select_backend-In driver b,
  λ m. elim m [
    | inl e ↦ of_pair e refl
    | inr (inl e) ↦ of_pair e refl
    | inr (inr (inl e)) ↦ of_pair e refl
    | inr (inr (inr (inl e))) ↦ of_pair e refl
    | inr (inr (inr (inr (inl e)))) ↦ of_pair e refl
    | inr (inr (inr (inr (inr none_left)))) ↦ absurd none_left
  ],
)
  where
    of_pair :
        {p : Text × Text}
        → ◌≡◌ {A = Text × Text} (driver, b) p
        → select_backend p.0 ≡ some p.1
        → select_backend driver ≡ some b
    of_pair e h = subst (λ (q : Text × Text). select_backend q.0 ≡ some q.1) (sym e) h

pub is_cpu_iff :
    (t : HardwareDeviceType) (arch : Text)
    → (is_cpu t || not (is_empty arch) ≡ true) ↔ ((t ≡ cpu) ⊎ (arch ≢ []))
unfolding is_cpu
is_cpu_iff cpu arch = (λ h. inl refl, λ h. refl)
is_cpu_iff gpu [] = (λ h. cc, λ h. elim h [ inl e ↦ cc | inr n ↦ absurd (n refl) ])
is_cpu_iff gpu (c ∷ arch) = (λ h. inr (λ e. cc), λ h. refl)
is_cpu_iff npu [] = (λ h. cc, λ h. elim h [ inl e ↦ cc | inr n ↦ absurd (n refl) ])
is_cpu_iff npu (c ∷ arch) = (λ h. inr (λ e. cc), λ h. refl)
