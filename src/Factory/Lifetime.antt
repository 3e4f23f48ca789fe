-- ===== src/Factory/Lifetime.antt =====
-- The constructor, the getters and the destructor of `IreeEpFactory` (src/iree_ep_factory.cc), and the
-- order in which its members are destroyed (src/iree_ep_factory.h).
pub mod Laws
use onnxruntime_ep_iree.Common.{
  ℕ, Bool, true, false, List, [], ◌∷◌, ◌++◌, map, Option, none, some, if◌then◌else◌, Text, codes,
}
use onnxruntime_ep_iree.Factory.State.{
  Factory, HardwareDevice, MemoryInfo, AllocatorInit, ep_vendor_id,
}
use onnxruntime_ep_iree.Factory.Devices.{DriverReport, create_iree_hw_devices}

-- `instance_created` is whether `iree_runtime_instance_create` succeeds; `reports` is what the
-- drivers answer then.
unfoldable pub new_factory : {W : Type 0} → Text → Bool → Option (List DriverReport) → W → Factory W
new_factory ep_name instance_created reports w = record {
  ep_name = ep_name;
  hw_devices = (if instance_created then create_iree_hw_devices reports else []);
  device_cache = [];
  device_memory_infos = [];
  allocators = [];
  data_transfer = false;
  world = w;
}

unfoldable pub get_name : {W : Type 0} → Factory W → Text
get_name f = f.ep_name

unfoldable pub get_vendor : {W : Type 0} → Factory W → Text
get_vendor f = codes "IREE"

unfoldable pub get_vendor_id : {W : Type 0} → Factory W → ℕ
get_vendor_id f = ep_vendor_id

unfoldable pub get_version : {W : Type 0} → Factory W → Text
get_version f = codes "0.1.0"

unfoldable pub is_stream_aware : {W : Type 0} → Factory W → Bool
is_stream_aware f = false

-- What the destructor gives back, one event for each object.
pub data Release : Type 0 where
  allocator_destroyed : AllocatorInit → Release
  data_transfer_destroyed : Release
  device_released : ℕ → Release
  hardware_device_released : HardwareDevice → Release
  memory_info_released : MemoryInfo → Release
  instance_released : Release

-- The body of the destructor, and the members that are left, in the reverse order of their
-- declaration. The order inside a map is that of the list.
unfoldable pub destroy_factory : {W : Type 0} → Bool → Factory W → List Release
destroy_factory instance_created f =
    map (λ (entry : ℕ × AllocatorInit). allocator_destroyed entry.1) f.allocators
    ++ ((if f.data_transfer then data_transfer_destroyed ∷ [] else [])
        ++ (map (λ (entry : ℕ × ℕ). device_released entry.1) f.device_cache
            ++ (map hardware_device_released f.hw_devices
                ++ (map memory_info_released f.device_memory_infos
                    ++ (if instance_created then instance_released ∷ [] else [])))))
