-- ===== src/Plugin.antt =====
-- The plugin as ORT sees it: the entry points of src/plugin_entry.cc, and the calls of ORT into the
-- factory, its execution providers and its data transfer, in any order.
pub mod Calls
pub mod Invariant
use mathlib.Core.Option
use onnxruntime_ep_iree.Common.{
  ℕ, zero, suc, Bool, List, [], ◌∷◌, Option, none, some, if◌then◌else◌, ltb, Text, codes, In,
}
use onnxruntime_ep_iree.Common.Decimal.{ℤ}
use onnxruntime_ep_iree.Wrappers.{Status, Result, ok, err, ort_invalid_argument}
use onnxruntime_ep_iree.OrtUtils.Convert.{Hal, OrtTensor}
use onnxruntime_ep_iree.Factory.State.{Factory, HardwareDevice}
use onnxruntime_ep_iree.Factory.Devices.{DriverReport}
use onnxruntime_ep_iree.Factory.Cache.{Runtime}
use onnxruntime_ep_iree.Factory.Supported.{get_supported_devices}
use onnxruntime_ep_iree.Factory.CreateEp.{
  SessionOptions, IreeEp, Outcome, created, failed, terminated, create_ep, iree_device,
}
use onnxruntime_ep_iree.Factory.CreateAllocator.{
  create_allocator, create_data_transfer, release_allocator, create_sync_stream_for_device,
}
use onnxruntime_ep_iree.Factory.Lifetime.{Release, new_factory, destroy_factory}
use onnxruntime_ep_iree.DataTransfer.{Tensor, Transfer, State, copy_tensors, release_data_transfer}
use onnxruntime_ep_iree.Ep.Compute.{Kernel, at_world, compute}

-- The factories that are handed to ORT.
unfoldable pub create_ep_factories :
    {W : Type 0}
    → Option Text
    → ℕ
    → Bool
    → Option (List DriverReport)
    → W
    → Result (List (Factory W))
create_ep_factories registration_name max_factories instance_created reports w =
    if ltb max_factories 1
    then err
        (record { code = ort_invalid_argument; message = codes "Need at least one factory slot" })
    else ok (
        new_factory (Option.get_or registration_name (codes "IREE")) instance_created reports w
        ∷ [])

unfoldable pub release_ep_factory : {W : Type 0} → Bool → Factory W → List Release
release_ep_factory instance_created f = destroy_factory instance_created f

-- The factory, the execution providers that ORT holds and the transfers that were made.
pub record Plugin (W : Type 0) : Type 0 where
  pub factory : Factory W
  pub eps : List IreeEp
  pub transfers : List Transfer

-- What the data transfer reads and changes.
abbrev pub transfer_state : {W : Type 0} → Plugin W → State W
transfer_state p = record { factory = p.factory; transfers = p.transfers }

-- What a call of `CreateEpImpl` adds.
abbrev pub add_ep : Outcome → List IreeEp → List IreeEp
add_ep (created ep) eps = ep ∷ eps
add_ep (failed status) eps = eps
add_ep terminated eps = eps

-- `ReleaseEpImpl`: the instance is deleted.
abbrev pub remove_ep : ℕ → List IreeEp → List IreeEp
remove_ep k [] = []
remove_ep zero (ep ∷ eps) = eps
remove_ep (suc k) (ep ∷ eps) = ep ∷ remove_ep k eps

-- A call of ORT. What ORT and the HAL answer during the call is any value. `CompileImpl` looks up the
-- device for its session; what the runtime is like after that call is any value too.
pub data Step {W : Type 0} (rt : Runtime W) (p : Plugin W) : Plugin W → Type 0 where
  gets_supported_devices :
      (create_ep_device add_allocator_info : ℕ → Option Status) (max_ep_devices : ℕ)
      → Step rt p (record p {
        factory = record p.factory {
          device_memory_infos =
              (get_supported_devices create_ep_device add_allocator_info max_ep_devices
                p.factory).1.device_memory_infos;
        };
      })
  creates_ep :
      (devices : List HardwareDevice) (options : Option SessionOptions)
      → Step rt p (record p {
        factory = (create_ep rt devices options p.factory).1;
        eps = add_ep (create_ep rt devices options p.factory).0 p.eps;
      })
  releases_ep : (k : ℕ) → Step rt p (record p { eps = remove_ep k p.eps })
  creates_allocator :
      (memory_info : Option (Result ℤ))
      → Step rt p (record p { factory = (create_allocator rt memory_info p.factory).1 })
  releases_allocator :
      (allocator : Option ℕ)
      → Step rt p (record p { factory = release_allocator allocator p.factory })
  creates_sync_stream :
      Step rt p (record p { factory = (create_sync_stream_for_device p.factory).1 })
  creates_data_transfer : Step rt p (record p { factory = create_data_transfer p.factory })
  releases_data_transfer : Step rt p (record p {
    factory = (release_data_transfer (transfer_state p)).factory;
    transfers = (release_data_transfer (transfer_state p)).transfers;
  })
  copies :
      (transfer : List Transfer → Transfer → Option Status) (pairs : List (Tensor × Tensor))
      → Step rt p (record p {
        factory = (copy_tensors rt transfer pairs (transfer_state p)).1.factory;
        transfers = (copy_tensors rt transfer pairs (transfer_state p)).1.transfers;
      })
  compiles :
      (ep : IreeEp) (w : W)
      → In ep p.eps
      → Step rt p (record p { factory = at_world (iree_device rt ep p.factory).1 w })
  computes :
      (hal : Hal W) (kernel : Kernel W) (ep : IreeEp) (inputs : List OrtTensor)
      → In ep p.eps
      → Step rt p (record p { factory = (compute rt hal kernel ep inputs p.factory).factory })

-- Any number of calls.
pub data Steps {W : Type 0} (rt : Runtime W) (p : Plugin W) : Plugin W → Type 0 where
  start : Steps rt p p
  next : {q r : Plugin W} → Steps rt p q → Step rt q r → Steps rt p r
