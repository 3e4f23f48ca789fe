-- ===== src/Factory/Devices.antt =====
-- `CreateIreeHwDevices` of src/iree_ep_factory.cc. The reports are what the IREE runtime answers:
-- the drivers that it enumerates, whether a driver is created, the devices that it lists, and
-- whether ORT creates the hardware device that is asked for.
pub mod Laws
use onnxruntime_ep_iree.Common.{
  ℕ, suc, ◌+◌, ◌%◌, ◌^◌, Bool, true, false, List, [], ◌∷◌, ◌++◌, Option, none, some, if◌then◌else◌,
  Text, codes,
}
use onnxruntime_ep_iree.Common.Decimal.{to_string}
use onnxruntime_ep_iree.Factory.State.{HardwareDevice, gpu, ep_vendor_id}

pub record DeviceReport : Type 0 where
  pub path : Text
  pub hw_device_created : Bool

-- `devices` is `none` if `iree_hal_driver_query_available_devices` fails.
pub record DriverReport : Type 0 where
  pub driver_name : Text
  pub created : Bool
  pub devices : Option (List DeviceReport)

-- The two variables of the loops.
pub record Enumeration : Type 0 where
  pub device_index : ℕ
  pub hw_devices : List HardwareDevice

-- `CreateHardwareDevice` for the device with this index.
unfoldable pub hardware_device : Text → Text → ℕ → HardwareDevice
hardware_device driver_name device_path device_index = record {
  device_type = gpu;
  vendor_id = ep_vendor_id;
  device_id = device_index % 2 ^ 32;
  vendor = codes "IREE";
  metadata =
      (codes "iree.driver", driver_name)
      ∷ (codes "iree.device_path", device_path)
      ∷ (codes "iree.device_id", to_string device_index)
      ∷ [];
}

-- One round of the inner loop. The index grows also where the creation fails.
unfoldable pub add_device : Text → DeviceReport → Enumeration → Enumeration
add_device driver_name d s = record {
  device_index = s.device_index + 1;
  hw_devices =
      (if d.hw_device_created
        then s.hw_devices ++ hardware_device driver_name d.path s.device_index ∷ []
        else s.hw_devices);
}

unfoldable pub add_devices : Text → List DeviceReport → Enumeration → Enumeration
add_devices driver_name [] s = s
add_devices driver_name (d ∷ ds) s = add_devices driver_name ds (add_device driver_name d s)

-- One round of the outer loop, with its two `continue`s.
add_driver : DriverReport → Enumeration → Enumeration
add_driver r s =
    if r.created
    then (elim r.devices [ none ↦ s | some ds ↦ add_devices r.driver_name ds s ])
    else s

add_drivers : List DriverReport → Enumeration → Enumeration
unfolding add_driver
add_drivers [] s = s
add_drivers (r ∷ rs) s = add_drivers rs (add_driver r s)

-- `none` if `iree_hal_driver_registry_enumerate` fails.
unfoldable pub create_iree_hw_devices : Option (List DriverReport) → List HardwareDevice
unfolding add_drivers
create_iree_hw_devices none = []
create_iree_hw_devices (some rs) =
    (add_drivers rs (record { device_index = 0; hw_devices = [] })).hw_devices
