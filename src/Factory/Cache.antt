-- ===== src/Factory/Cache.antt =====
-- `GetDeviceForId` of src/iree_ep_factory.cc. `create_device` is `iree_hal_create_device` for a URI:
-- the handle, or `none` for a status that is not OK. `get_key_value` is ORT's `GetKeyValue`, on the
-- pairs that were added.
pub mod Laws
use onnxruntime_ep_iree.Common.{
  ℕ, List, ◌++◌, Option, none, some, leb, if◌then◌else◌, Text, codes, length, get_elem?,
}
use onnxruntime_ep_iree.Factory.State.{Factory, HardwareDevice, find, assign}

-- The parts of ORT and IREE that the factory calls.
pub record Runtime (W : Type 0) : Type 0 where
  pub create_device : Text → W → Option ℕ × W
  pub get_key_value : List (Text × Text) → Text → Option Text

module _ {W : Type 0} (rt : Runtime W) where
  -- `driver://path`, if the metadata have both.
  unfoldable pub device_uri : HardwareDevice → Option Text
  device_uri d = elim (rt.get_key_value d.metadata (codes "iree.driver")) [
    | none ↦ none
    | some driver_name ↦ elim (rt.get_key_value d.metadata (codes "iree.device_path")) [
      | none ↦ none
      | some device_path ↦ some (driver_name ++ (codes "://" ++ device_path))
    ]
  ]

  cache_device : ℕ → Option ℕ → Factory W → Option ℕ × Factory W
  cache_device device_id none f = (none, f)
  cache_device device_id (some handle) f =
      (some handle, record f { device_cache = assign device_id handle f.device_cache })

  open_device : ℕ → Option Text → Factory W → Option ℕ × Factory W
  unfolding cache_device
  open_device device_id none f = (none, f)
  open_device device_id (some uri) f =
      let (created, w) = rt.create_device uri f.world in
      cache_device device_id created (record f { world = w })

  -- `hw_devices_[device_id]`, behind the test that the id is in range.
  device_at : ℕ → Option HardwareDevice → Factory W → Option ℕ × Factory W
  unfolding open_device device_uri
  device_at device_id none f = (none, f)
  device_at device_id (some d) f = open_device device_id (device_uri d) f

  unfoldable pub get_device_for_id : ℕ → Factory W → Option ℕ × Factory W
  unfolding device_at
  get_device_for_id device_id f = elim (find device_id f.device_cache) [
    | some handle ↦ (some handle, f)
    | none ↦
        if leb (length f.hw_devices) device_id
        then (none, f)
        else device_at device_id (get_elem? f.hw_devices device_id) f
  ]
