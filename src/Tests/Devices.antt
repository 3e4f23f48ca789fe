-- ===== src/Tests/Devices.antt =====
-- Runs of the enumeration of devices, of the device cache and of the report to ORT.
use onnxruntime_ep_iree.Common.{
  ℕ, ◌≡◌, ◌≤◌, ◌⊎◌, refl, [], ◌∷◌, none, some, get_elem?, length, take, codes,
}
use onnxruntime_ep_iree.Common.Decimal.{to_string}
use onnxruntime_ep_iree.Factory.State.{HardwareDevice}
use onnxruntime_ep_iree.Factory.Devices.{
  add_device, add_devices, hardware_device, create_iree_hw_devices,
}
use onnxruntime_ep_iree.Factory.Devices.Laws.{attempts, successes, registered_device}
use onnxruntime_ep_iree.Factory.Supported.{get_supported_devices}
use onnxruntime_ep_iree.Factory.Supported.Laws.{state_after, get_supported_devices_lem}
use onnxruntime_ep_iree.Tests.Setup.{works, fails, healthy, mixed, task_device, hip_device, factory}

enumerated : create_iree_hw_devices (some healthy) ≡ task_device ∷ hip_device ∷ []
unfolding create_iree_hw_devices add_devices add_device hardware_device
enumerated = refl

registered_device_example :
    (dev : HardwareDevice) × (get_elem? (create_iree_hw_devices (some mixed)) 0 ≡ some dev)
    × (dev.device_id ≡ 1)
    × (dev.metadata
        ≡ (codes "iree.driver", codes "hip")
          ∷ (codes "iree.device_path", codes "0")
          ∷ (codes "iree.device_id", to_string 1)
          ∷ [])
unfolding attempts successes
registered_device_example =
    registered_device mixed ((codes "local-task", fails) ∷ []) [] (codes "hip") works refl refl

get_supported_devices_lem_example :
    let (status, s) = get_supported_devices (λ _. none) (λ _. none) 1 (factory healthy) in
    (k released : ℕ) × (s
      ≡ state_after
          (factory healthy).device_memory_infos
          (take k (factory healthy).hw_devices)
          released)
    × (k ≤ length (factory healthy).hw_devices)
    × (k ≤ 1)
    × (status ≡ none → (k ≡ length (factory healthy).hw_devices) ⊎ (k ≡ 1))
get_supported_devices_lem_example =
    get_supported_devices_lem (λ _. none) (λ _. none) 1 (factory healthy)
