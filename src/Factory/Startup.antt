-- ===== src/Factory/Startup.antt =====
-- From the enumeration of devices to an execution provider: what `CreateEpImpl` makes of the devices
-- that `CreateIreeHwDevices` registered.
use mathlib.Core.Option.{some-injective}
use onnxruntime_ep_iree.Common.{
  ℕ, ◌%◌, ◌^◌, ◌<◌, ◌≡◌, ◌≢◌, refl, sym, ap, ◌∙◌, inl, inr, true, List, [], ◌∷◌, ◌++◌, map, Option,
  In, IsDistinct, some, arith, Text, codes, text_eq, get_elem?, length, All-get_elem?, subst,
  Bool-cases, ◌||◌,
}
use onnxruntime_ep_iree.Common.Decimal.{stoul, to_string, stoul-to_string}
use onnxruntime_ep_iree.Ep.Config.{generate_compile_flags}
use onnxruntime_ep_iree.Ep.Flags.{starts_with, is_backend, generate_compile_flags-device}
use onnxruntime_ep_iree.Factory.State.{Factory, HardwareDevice, gpu}
use onnxruntime_ep_iree.Factory.Cache.{Runtime}
use onnxruntime_ep_iree.Factory.Cache.Laws.{IsCacheValid, get_device_for_id-Lookup, Lookup-range}
use onnxruntime_ep_iree.Factory.Devices.{
  DriverReport, DeviceReport, hardware_device, create_iree_hw_devices,
}
use onnxruntime_ep_iree.Factory.Devices.Laws.{
  Attempt, attempts, successes, created-gpu, length-created, successes-concat,
}
use onnxruntime_ep_iree.Factory.CreateEp.{
  SessionOptions, IreeEp, created, read_config, select_backend, identity, create_ep,
}
use onnxruntime_ep_iree.Factory.CreateEp.Laws.{
  create_ep-Creates, create_ep_one, create_ep_without_target_arch,
}

-- `GetKeyValue` gives the value of each pair in a list of pairs with distinct keys.
abbrev pub Answers : (List (Text × Text) → Text → Option Text) → Type 0
Answers get =
    (pairs : List (Text × Text)) (key value : Text)
    → IsDistinct (map (λ p. p.0) pairs)
    → In (key, value) pairs
    → get pairs key ≡ some value

-- Every registered device needs a target architecture, also one of a CPU driver such as
-- `local-task`: without it no execution provider is created.
pub registered_needs_target_arch :
    {W : Type 0} (rt : Runtime W) (rs : List DriverReport) (k : ℕ) (d : HardwareDevice)
    (options : Option SessionOptions) (f : Factory W) (ep : IreeEp)
    → get_elem? (create_iree_hw_devices (some rs)) k ≡ some d
    → (read_config options).target_arch ≡ []
    → (create_ep rt (d ∷ []) options f).0 ≢ created ep
registered_needs_target_arch rt rs k d options f ep found =
    create_ep_without_target_arch rt d options f ep (
      All-get_elem? (λ x. x.device_type ≡ gpu) (create_iree_hw_devices (some rs)) k (created-gpu rs)
        found)

from_some :
    (b backend : Text)
    → is_backend b ≡ true
    → ◌≡◌ {A = Option Text} (some b) (some backend)
    → is_backend backend ≡ true
from_some b backend h e = subst (λ t. is_backend t ≡ true) (some-injective b backend e) h

select_backend-is_backend :
    (driver backend : Text) → select_backend driver ≡ some backend → is_backend backend ≡ true
unfolding select_backend is_backend text_eq
select_backend-is_backend driver backend = elim (Bool-cases (text_eq driver (codes "vulkan"))) [
  | inl e ↦ rw e (λ h. from_some (codes "vulkan") backend refl h)
  | inr e ↦ elim (Bool-cases (text_eq driver (codes "cuda"))) [
    | inl c ↦ rw (e, c) (λ h. from_some (codes "cuda") backend refl h)
    | inr c ↦ elim (Bool-cases (text_eq driver (codes "hip"))) [
      | inl p ↦ rw (e, c, p) (λ h. from_some (codes "hip") backend refl h)
      | inr p ↦
          elim (Bool-cases
            (text_eq driver (codes "local-task") || text_eq driver (codes "local-sync"))) [
              | inl l ↦ rw (e, c, p, l) (λ h. from_some (codes "llvm-cpu") backend refl h)
              | inr l ↦ rw (e, c, p, l) (λ h. cc)
            ]
    ]
  ]
]

-- The compiler flags of an execution provider that was created name a target device first.
pub create_ep-flags :
    {W : Type 0} (rt : Runtime W) (ds : List HardwareDevice) (options : Option SessionOptions)
    (f : Factory W) (ep : IreeEp)
    → (create_ep rt ds options f).0 ≡ created ep
    → (first : Text) × (middle : List Text) × (generate_compile_flags ep.config
        ≡ first ∷ (middle ++ (codes "--iree-opt-level=" ++ ep.config.opt_level) ∷ []))
      × (starts_with (codes "--iree-hal-target-device=") first ≡ true)
create_ep-flags rt ds options f ep h =
    let (d, one, c) = create_ep-Creates rt ds options f ep h in
    generate_compile_flags-device ep.config
      (rw c.configured (select_backend-is_backend _ c.backend c.selected))

module _ {W : Type 0} (rt : Runtime W) (answers : Answers rt.get_key_value) where
  metadata-IsDistinct :
      (driver path : Text) (i : ℕ)
      → IsDistinct (map (λ p. p.0) (hardware_device driver path i).metadata)
  unfolding hardware_device
  metadata-IsDistinct driver path i = (
    λ m. elim m [
      | inl e ↦ omega (arith, ap length e)
      | inr (inl e) ↦ omega (arith, ap length e)
      | inr (inr none_left) ↦ absurd none_left
    ],
    (
      λ m. elim m [ inl e ↦ omega (arith, ap length e) | inr none_left ↦ absurd none_left ],
      (λ m. absurd m, tt),
    ),
  )

  identity-hardware_device :
      (driver path : Text) (i : ℕ)
      → identity rt (hardware_device driver path i)
        ≡ some (record { driver_name = driver; device_path = path; device_id_str = to_string i })
  unfolding identity hardware_device
  identity-hardware_device driver path i =
      let d = hardware_device driver path i in
      let value = λ (key v : Text). answers d.metadata key v (metadata-IsDistinct driver path i) in
      rw (value (codes "iree.driver") driver (inl refl), identity)
        (rw (value (codes "iree.device_path") path (inr (inl refl)), identity)
          (rw (value (codes "iree.device_id") (to_string i) (inr (inr (inl refl))), identity)))

  -- Where `GetKeyValue` gives the values of a list with distinct keys, an execution provider that is
  -- created for a registered device has that device's id: it survives the metadata as text.
  pub create_ep-device_id :
      (driver path : Text) (i : ℕ) (options : Option SessionOptions) (f : Factory W) (ep : IreeEp)
      → i < 2 ^ 32
      → (create_ep rt (hardware_device driver path i ∷ []) options f).0 ≡ created ep
      → ep.device_id ≡ (hardware_device driver path i).device_id
  unfolding hardware_device
  create_ep-device_id driver path i options f ep small h =
      let c = create_ep_one rt (hardware_device driver path i) options f ep h in
      let known =
        some-injective c.ident _ (sym c.identified ∙ identity-hardware_device driver path i) in
      let id : c.id ≡ i =
        some-injective c.id i (
          sym c.parsed ∙ ap (λ t. stoul t.device_id_str) known ∙ stoul-to_string i (omega arith)) in
      ap (λ e. e.device_id) c.configured ∙ ap (λ n. n % 2 ^ 32) id

  -- Where `GetKeyValue` gives the value of each pair in a list of pairs with distinct keys, and the
  -- cached ids are in range: if a registration failed before the device that is attempted last, no execution provider is ever
  -- created for that device.
  pub lost_device :
      (rs : List DriverReport) (before : List Attempt) (driver : Text) (d : DeviceReport)
      (options : Option SessionOptions) (f : Factory W) (ep : IreeEp)
      → attempts rs ≡ before ++ (driver, d) ∷ []
      → successes before < length before
      → length before < 2 ^ 32
      → f.hw_devices ≡ create_iree_hw_devices (some rs)
      → IsCacheValid f
      → (create_ep rt (hardware_device driver d.path (length before) ∷ []) options f).0 ≢ created ep
  unfolding hardware_device
  lost_device rs before driver d options f ep last lost small devices v h =
      let dev = hardware_device driver d.path (length before) in
      let c = create_ep_one rt dev options f ep h in
      let id : c.id % 2 ^ 32 ≡ length before % 2 ^ 32 =
        sym (ap (λ e. e.device_id) c.configured)
        ∙ create_ep-device_id driver d.path (length before) options f ep small h in
      let reached : c.id % 2 ^ 32 < length f.hw_devices =
        Lookup-range (get_device_for_id-Lookup rt (c.id % 2 ^ 32) f) (ap (λ p. p.0) c.opened) v in
      let count : length f.hw_devices ≡ successes (before ++ (driver, d) ∷ []) =
        ap length devices ∙ length-created rs ∙ ap successes last in
      omega (arith, successes-concat before (driver, d))
