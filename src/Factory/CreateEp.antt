-- ===== src/Factory/CreateEp.antt =====
-- `CreateEpImpl` of src/iree_ep_factory.cc. The callback is `noexcept`, so an exception of
-- `std::stoul` ends the process.
pub mod Laws
pub mod Keeps
pub mod Tables
pub mod Complete
use mathlib.Core.Option
use onnxruntime_ep_iree.Common.{
  ℕ, ◌%◌, ◌^◌, Bool, true, false, not, ◌&&◌, ◌||◌, ◌++◌, List, [], ◌∷◌, Option, none, some, ◌==◌,
  if◌then◌else◌, Text, codes, text_eq, is_empty,
}
use onnxruntime_ep_iree.Common.Decimal.{stoul}
use onnxruntime_ep_iree.Ep.Config.{Config, default_config}
use onnxruntime_ep_iree.Wrappers.{Status, OrtErrorCode, ort_invalid_argument, ort_not_implemented}
use onnxruntime_ep_iree.Factory.State.{Factory, HardwareDevice, HardwareDeviceType, cpu, gpu, npu}
use onnxruntime_ep_iree.Factory.Cache.{Runtime, get_device_for_id}

-- The config entries of the session, by key.
pub record SessionOptions : Type 0 where
  pub entry : Text → Option Text

-- `IreeEp`, as its constructor sets it up.
pub record IreeEp : Type 0 where
  pub name : Text
  pub config : Config
  pub device_id : ℕ

-- `IreeEp::IreeDevice`
abbrev pub iree_device : {W : Type 0} → Runtime W → IreeEp → Factory W → Option ℕ × Factory W
iree_device rt ep f = get_device_for_id rt ep.device_id f

pub data Outcome : Type 0 where
  created : IreeEp → Outcome
  failed : Status → Outcome
  terminated : Outcome

abbrev get_config_entry_or_default : SessionOptions → Text → Text → Text
get_config_entry_or_default options key default = Option.get_or (options.entry key) default

unfoldable pub read_config : Option SessionOptions → Config
read_config none = default_config
read_config (some options) = record default_config {
  target_arch = get_config_entry_or_default options (codes "ep.iree.target_arch") [];
  opt_level = get_config_entry_or_default options (codes "ep.iree.opt_level") (codes "O0");
  save_intermediates =
      text_eq (get_config_entry_or_default options (codes "ep.iree.save_intermediates") (codes "0"))
        (codes "1");
}

-- The backend of a driver; `none` for an unknown one.
unfoldable pub select_backend : Text → Option Text
select_backend driver =
    if text_eq driver (codes "vulkan")
    then some (codes "vulkan")
    else if text_eq driver (codes "cuda")
    then some (codes "cuda")
    else if text_eq driver (codes "hip")
    then some (codes "hip")
    else if text_eq driver (codes "local-task") || text_eq driver (codes "local-sync")
    then some (codes "llvm-cpu")
    else none

unfoldable pub is_cpu : HardwareDeviceType → Bool
is_cpu cpu = true
is_cpu gpu = false
is_cpu npu = false

abbrev pub invalid_argument : Text → Outcome
invalid_argument message = failed (record { code = ort_invalid_argument; message = message })

-- The driver, the path and the id that the metadata must have.
pub record Identity : Type 0 where
  pub driver_name : Text
  pub device_path : Text
  pub device_id_str : Text

module _ {W : Type 0} (rt : Runtime W) where
  unfoldable pub identity : HardwareDevice → Option Identity
  identity d = elim (rt.get_key_value d.metadata (codes "iree.driver")) [
    | none ↦ none
    | some driver_name ↦ elim (rt.get_key_value d.metadata (codes "iree.device_path")) [
      | none ↦ none
      | some device_path ↦ elim (rt.get_key_value d.metadata (codes "iree.device_id")) [
        | none ↦ none
        | some device_id_str ↦ some (record {
          driver_name = driver_name;
          device_path = device_path;
          device_id_str = device_id_str;
        })
      ]
    ]
  ]

  finish : Config → ℕ → Text → Option ℕ × Factory W → Outcome × Factory W
  finish config device_id name (none, f) =
      (invalid_argument (codes "IREE EP: Failed to get device from factory"), f)
  finish config device_id name (some handle, f) =
      (created (record { name = name; config = config; device_id = device_id }), f)

  -- The last part: the HAL device, and the new instance.
  instantiate : Config → ℕ → Factory W → Outcome × Factory W
  unfolding finish
  instantiate config device_id f =
      finish config device_id f.ep_name (get_device_for_id rt device_id f)

  with_backend : HardwareDevice → Text → ℕ → Config → Option Text → Factory W → Outcome × Factory W
  unfolding instantiate is_cpu
  with_backend d driver device_id config none f =
      (invalid_argument (codes "IREE EP: Unknown driver: " ++ driver), f)
  with_backend d driver device_id config (some backend) f =
      if not (is_cpu d.device_type) && is_empty config.target_arch
      then (
        invalid_argument
            (codes "IREE EP: 'target_arch' option must be specified for non-CPU devices"),
        f,
      )
      else instantiate (record config { backend = backend }) device_id f

  with_id :
      HardwareDevice → Text → Option SessionOptions → Option ℕ → Factory W → Outcome × Factory W
  unfolding with_backend read_config select_backend
  with_id d driver options none f = (terminated, f)
  with_id d driver options (some id) f =
      with_backend d driver (id % 2 ^ 32) (read_config options) (select_backend driver) f

  with_identity :
      HardwareDevice → Option SessionOptions → Option Identity → Factory W → Outcome × Factory W
  unfolding with_id
  with_identity d options none f = (
    invalid_argument
        (codes "IREE EP: Driver, device path, or device_id not found in hardware device metadata"),
    f,
  )
  with_identity d options (some i) f = with_id d i.driver_name options (stoul i.device_id_str) f

  unfoldable pub create_ep :
      List HardwareDevice → Option SessionOptions → Factory W → Outcome × Factory W
  unfolding with_identity identity
  create_ep (d ∷ []) options f = with_identity d options (identity d) f
  create_ep _ options f = (
    failed (record { code = ort_not_implemented; message = codes "NYI: Multi-device IREE EP" }),
    f,
  )
