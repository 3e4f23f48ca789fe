-- ===== src/Tests/Plugin.antt =====
-- A run of the plugin: the devices are reported, and an execution provider and an allocator are
-- created for the second of them.
use onnxruntime_ep_iree.Common.{
  ℕ, ◌≡◌, ◌≢◌, refl, sym, subst, inl, true, [], ◌∷◌, none, some, codes, text_eq, In,
}
use onnxruntime_ep_iree.Common.Decimal.{pos, stoul, to_string}
use onnxruntime_ep_iree.Wrappers.{ok}
use onnxruntime_ep_iree.Factory.State.{Factory, AllocatorInit, find, assign}
use onnxruntime_ep_iree.Factory.Devices.{
  add_device, add_devices, hardware_device, create_iree_hw_devices,
}
use onnxruntime_ep_iree.Factory.Cache.{get_device_for_id}
use onnxruntime_ep_iree.Factory.Supported.{get_supported_devices, memory_info_for}
use onnxruntime_ep_iree.Factory.CreateEp.{create_ep}
use onnxruntime_ep_iree.Factory.CreateAllocator.{create_allocator}
use onnxruntime_ep_iree.Factory.Lifetime.{
  allocator_destroyed, device_released, instance_released, new_factory, destroy_factory,
}
use onnxruntime_ep_iree.Factory.Lifetime.Laws.{Before, destroy_factory-Before}
use onnxruntime_ep_iree.Factory.CreateAllocator.Laws.{AllocatorsValid}
use onnxruntime_ep_iree.Plugin.{
  Plugin, add_ep, create_ep_factories, gets_supported_devices, creates_ep, creates_allocator, Steps,
  start, next,
}
use onnxruntime_ep_iree.Plugin.Invariant.{Shared, new_plugin, reachable-Shared, ep-allocator-device}
use onnxruntime_ep_iree.Tests.Setup.{value_of, runtime, healthy, hip_device, session, hip_ep, info}

abbrev fresh : Plugin ℕ
fresh = new_plugin runtime (codes "IREE") true (some healthy) 0

abbrev reported : Plugin ℕ
reported = record fresh {
  factory = record fresh.factory {
    device_memory_infos =
        (get_supported_devices (λ i. none) (λ i. none) 8 fresh.factory).1.device_memory_infos;
  };
}

abbrev with_ep : Plugin ℕ
with_ep = record reported {
  factory = (create_ep runtime (hip_device ∷ []) session reported.factory).1;
  eps = add_ep (create_ep runtime (hip_device ∷ []) session reported.factory).0 reported.eps;
}

abbrev with_allocator : Plugin ℕ
with_allocator = record with_ep {
  factory = (create_allocator runtime (some (ok (pos 1))) with_ep.factory).1;
}

reaches : Steps runtime fresh with_ep
reaches =
    next (next start (gets_supported_devices (λ i. none) (λ i. none) 8))
      (creates_ep (hip_device ∷ []) session)

goes_on : Steps runtime with_ep with_allocator
goes_on = next start (creates_allocator (some (ok (pos 1))))

abbrev allocator : AllocatorInit
allocator = record { device_id = 1; device = 0; memory_info = info 1 }

has_ep : with_ep.eps ≡ hip_ep ∷ []
unfolding create_ep value_of hardware_device text_eq stoul to_string get_device_for_id find
    new_factory create_iree_hw_devices add_devices add_device
has_ep = refl

has_allocator : find 1 with_allocator.factory.allocators ≡ some allocator
unfolding find create_allocator create_ep value_of hardware_device text_eq stoul to_string
    get_device_for_id new_factory create_iree_hw_devices add_devices add_device
    get_supported_devices assign memory_info_for
has_allocator = refl

holds_ep : In hip_ep with_ep.eps
holds_ep = subst (In hip_ep) (sym has_ep) (inl refl)

reachable-Shared_example : Shared with_ep
reachable-Shared_example =
    reachable-Shared runtime (codes "IREE") true (some healthy) 0 with_ep reaches

ep-allocator-device_example :
    (get_device_for_id runtime hip_ep.device_id with_ep.factory ≡ (some 0, with_ep.factory))
    × (get_device_for_id runtime hip_ep.device_id with_allocator.factory
        ≡ (some 0, with_allocator.factory))
ep-allocator-device_example =
    ep-allocator-device runtime (codes "IREE") true (some healthy) 0 with_ep with_allocator hip_ep
      allocator reaches goes_on holds_ep has_allocator

valid : AllocatorsValid with_allocator.factory
valid =
    (reachable-Shared runtime (codes "IREE") true (some healthy) 0 with_allocator
      (next reaches (creates_allocator (some (ok (pos 1)))))).allocators

destroy_factory-Before_example :
    Before
      (allocator_destroyed allocator)
      (device_released 0)
      (destroy_factory true with_allocator.factory)
    × Before (device_released 0) instance_released (destroy_factory true with_allocator.factory)
destroy_factory-Before_example =
    destroy_factory-Before with_allocator.factory 1 allocator valid has_allocator

no_slot : (f : Factory ℕ) → create_ep_factories none 0 true (some healthy) 0 ≢ ok (f ∷ [])
unfolding create_ep_factories
no_slot f h = cc
