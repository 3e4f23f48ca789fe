-- ===== src/Tests/Allocators.antt =====
-- Runs of `CreateAllocatorImpl`.
use onnxruntime_ep_iree.Common.{ℕ, ◌≡◌, refl, some, text_eq}
use onnxruntime_ep_iree.Common.Decimal.{pos}
use onnxruntime_ep_iree.Wrappers.{ok}
use onnxruntime_ep_iree.Factory.State.{Factory, AllocatorInit, find, assign}
use onnxruntime_ep_iree.Factory.Devices.{
  add_device, add_devices, hardware_device, create_iree_hw_devices,
}
use onnxruntime_ep_iree.Factory.Cache.{get_device_for_id}
use onnxruntime_ep_iree.Factory.CreateAllocator.{create_allocator}
use onnxruntime_ep_iree.Factory.CreateAllocator.Laws.{AllocatorsValid}
use onnxruntime_ep_iree.Tests.Setup.{value_of, runtime, healthy, info, factory}

abbrev start : Factory ℕ
start = factory healthy

abbrev after_one : Factory ℕ
after_one = (create_allocator runtime (some (ok (pos 1))) start).1

start_valid : AllocatorsValid start
unfolding find
start_valid id a h = cc

allocated : (create_allocator runtime (some (ok (pos 1))) start).0 ≡ ok (some 1)
unfolding create_allocator find create_iree_hw_devices add_devices add_device hardware_device
    get_device_for_id value_of text_eq
allocated = refl

abbrev allocator : AllocatorInit
allocator = record { device_id = 1; device = 0; memory_info = info 1 }

holds : find 1 after_one.allocators ≡ some allocator
unfolding create_allocator find assign create_iree_hw_devices add_devices add_device hardware_device
    get_device_for_id value_of text_eq
holds = refl
