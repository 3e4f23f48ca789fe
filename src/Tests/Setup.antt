-- ===== src/Tests/Setup.antt =====
-- A small machine: two drivers, one of them with a device that ORT refuses.
use onnxruntime_ep_iree.Common.{
  ℕ, suc, ◌≡◌, refl, sym, ap, subst, inl, inr, true, false, [], ◌∷◌, List, map, Option, none, some,
  Text, codes, text_eq, text_eq_iff, text_eq_refl, In, Bool-cases, if◌then◌else◌,
}
use onnxruntime_ep_iree.Ep.Config.{default_config}
use onnxruntime_ep_iree.Factory.State.{Factory, HardwareDevice, MemoryInfo}
use onnxruntime_ep_iree.Factory.Devices.{
  DeviceReport, DriverReport, hardware_device, create_iree_hw_devices,
}
use onnxruntime_ep_iree.Factory.Cache.{Runtime}
use onnxruntime_ep_iree.Factory.Startup.{Answers}
use onnxruntime_ep_iree.Factory.CreateEp.{SessionOptions, IreeEp}

-- The last value that was added under a key.
unfoldable pub value_of : List (Text × Text) → Text → Option Text
value_of [] key = none
value_of ((k, v) ∷ pairs) key =
    let later = value_of pairs key in
    elim later [ none ↦ if text_eq k key then some v else none | some w ↦ some w ]

value_of-absent :
    (pairs : List (Text × Text)) (key : Text)
    → ¬ In key (map (λ p. p.0) pairs)
    → value_of pairs key ≡ none
unfolding value_of
value_of-absent [] key h = refl
value_of-absent ((k, v) ∷ pairs) key h =
    rw (value_of-absent pairs key (λ m. h (inr m)), value_of)
      (elim (Bool-cases (text_eq k key)) [
        | inl e ↦ absurd (h (inl (sym ((text_eq_iff k key).0 e))))
        | inr e ↦ rw e
      ])

pub value_of-Answers : Answers value_of
unfolding value_of
value_of-Answers [] key value d m = absurd m
value_of-Answers ((k, v) ∷ pairs) key value d (inl e) =
    let same = ap (λ p. p.0) e in
    let absent =
      value_of-absent pairs key (λ m. d.0 (subst (λ t. In t (map (λ p. p.0) pairs)) same m)) in
    rw (absent, value_of, ← same, text_eq_refl key, ← ap (λ p. p.1) e)
value_of-Answers ((k, v) ∷ pairs) key value d (inr m) =
    rw (value_of-Answers pairs key value d.1 m, value_of)

-- The handle of a new device is the number of those before it.
abbrev pub runtime : Runtime ℕ
runtime = record { create_device = λ uri w. (some w, suc w); get_key_value = value_of }

abbrev pub works : DeviceReport
works = record { path = codes "0"; hw_device_created = true }

abbrev pub fails : DeviceReport
fails = record { path = codes "1"; hw_device_created = false }

abbrev pub healthy : List DriverReport
healthy =
    record { driver_name = codes "local-task"; created = true; devices = some (works ∷ []) }
    ∷ record { driver_name = codes "cuda"; created = false; devices = none }
    ∷ record { driver_name = codes "hip"; created = true; devices = some (works ∷ []) }
    ∷ []

abbrev pub mixed : List DriverReport
mixed =
    record { driver_name = codes "local-task"; created = true; devices = some (fails ∷ []) }
    ∷ record { driver_name = codes "hip"; created = true; devices = some (works ∷ []) }
    ∷ []

abbrev pub task_device : HardwareDevice
task_device = hardware_device (codes "local-task") (codes "0") 0

abbrev pub hip_device : HardwareDevice
hip_device = hardware_device (codes "hip") (codes "0") 1

abbrev pub info : ℕ → MemoryInfo
info id = record { name = codes "IREE"; vendor_id = 0x1EEE; device_id = id; alignment = 0 }

abbrev pub factory : List DriverReport → Factory ℕ
factory rs = record {
  ep_name = codes "IREE";
  hw_devices = create_iree_hw_devices (some rs);
  device_cache = [];
  device_memory_infos = info 0 ∷ info 1 ∷ [];
  allocators = [];
  data_transfer = false;
  world = 0;
}

-- A session with a target architecture only.
abbrev pub session : Option SessionOptions
session = some (record {
  entry = λ key. if text_eq key (codes "ep.iree.target_arch") then some (codes "gfx942") else none;
})

-- The execution provider for `hip_device`.
abbrev pub hip_ep : IreeEp
hip_ep = record {
  name = codes "IREE";
  config = record default_config { target_arch = codes "gfx942"; backend = codes "hip" };
  device_id = 1;
}
