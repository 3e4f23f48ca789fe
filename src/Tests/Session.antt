-- ===== src/Tests/Session.antt =====
-- Runs of the creation of an execution provider.
use onnxruntime_ep_iree.Common.{◌≡◌, ◌≢◌, ◌↔◌, refl, List, [], ◌∷◌, none, arith, codes, text_eq}
use onnxruntime_ep_iree.Common.Decimal.{stoul, to_string}
use onnxruntime_ep_iree.Factory.State.{HardwareDevice, find}
use onnxruntime_ep_iree.Factory.Devices.{
  add_device, add_devices, hardware_device, create_iree_hw_devices,
}
use onnxruntime_ep_iree.Factory.Cache.{get_device_for_id}
use onnxruntime_ep_iree.Factory.CreateEp.{created, create_ep, read_config}
use onnxruntime_ep_iree.Factory.CreateEp.Complete.{Described, create_ep-Described}
use onnxruntime_ep_iree.Factory.Devices.Laws.{attempts, successes}
use onnxruntime_ep_iree.Factory.Startup.{registered_needs_target_arch, lost_device}
use onnxruntime_ep_iree.Tests.Setup.{
  runtime, value_of, value_of-Answers, works, fails, healthy, mixed, task_device, hip_device,
  factory, session, hip_ep,
}

hip_created : (create_ep runtime (hip_device ∷ []) session (factory healthy)).0 ≡ created hip_ep
unfolding create_ep hardware_device create_iree_hw_devices add_devices add_device value_of text_eq
    find stoul to_string get_device_for_id
hip_created = refl

create_ep-Described_example :
    (create_ep runtime (hip_device ∷ []) session (factory healthy)
      ≡ (created hip_ep, (create_ep runtime (hip_device ∷ []) session (factory healthy)).1))
    ↔ ((d : HardwareDevice) × (◌≡◌ {A = List HardwareDevice} (hip_device ∷ []) (d ∷ []))
        × Described runtime d session
            (factory healthy)
            (create_ep runtime (hip_device ∷ []) session (factory healthy)).1
            hip_ep)
create_ep-Described_example =
    create_ep-Described runtime (hip_device ∷ []) session (factory healthy)
      (create_ep runtime (hip_device ∷ []) session (factory healthy)).1 hip_ep

registered_needs_target_arch_example :
    (create_ep runtime (task_device ∷ []) none (factory healthy)).0 ≢ created hip_ep
unfolding create_iree_hw_devices add_devices add_device read_config
registered_needs_target_arch_example =
    registered_needs_target_arch runtime healthy 0 task_device none (factory healthy) hip_ep refl
      refl

lost_device_example :
    (create_ep runtime (hip_device ∷ []) session (factory mixed)).0 ≢ created hip_ep
unfolding find attempts successes
lost_device_example =
    lost_device runtime value_of-Answers mixed ((codes "local-task", fails) ∷ []) (codes "hip")
      works session (factory mixed) hip_ep refl (omega arith) (omega arith) refl
      (λ id h. absurd (h refl))
