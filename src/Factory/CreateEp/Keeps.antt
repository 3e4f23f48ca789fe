-- ===== src/Factory/CreateEp/Keeps.antt =====
-- What `CreateEpImpl` leaves of the factory: a property that looking up a device keeps is kept, also
-- where the call fails.
use onnxruntime_ep_iree.Common.{
  ℕ, ◌%◌, ◌^◌, inl, inr, not, ◌&&◌, List, [], ◌∷◌, Option, none, some, Text, is_empty, Bool-cases,
}
use onnxruntime_ep_iree.Common.Decimal.{stoul}
use onnxruntime_ep_iree.Ep.Config.{Config}
use onnxruntime_ep_iree.Factory.State.{Factory, HardwareDevice}
use onnxruntime_ep_iree.Factory.Cache.{Runtime, get_device_for_id}
use onnxruntime_ep_iree.Factory.CreateEp.{
  SessionOptions, read_config, select_backend, is_cpu, Identity, identity, finish, with_backend,
  with_id, with_identity, create_ep,
}

module _ {W : Type 0} (rt : Runtime W) (P : Factory W → Type 0) where
  finish-keeps :
      (config : Config) (id : ℕ) (name : Text) (r : Option ℕ × Factory W)
      → P r.1
      → P (finish rt config id name r).1
  unfolding finish
  finish-keeps config id name (none, f) h = h
  finish-keeps config id name (some handle, f) h = h

  with_backend-keeps :
      (d : HardwareDevice) (driver : Text) (id : ℕ) (config : Config) (o : Option Text)
      (f : Factory W)
      → ((j : ℕ) → P (get_device_for_id rt j f).1)
      → P f
      → P (with_backend rt d driver id config o f).1
  unfolding with_backend
  with_backend-keeps d driver id config none f k h = h
  with_backend-keeps d driver id config (some backend) f k h =
      elim (Bool-cases (not (is_cpu d.device_type) && is_empty config.target_arch)) [
        | inl e ↦ rw e h
        | inr e ↦ rw e (
            finish-keeps (record config { backend = backend }) id f.ep_name
              (get_device_for_id rt id f) (k id))
      ]

  with_id-keeps :
      (d : HardwareDevice) (driver : Text) (options : Option SessionOptions) (o : Option ℕ)
      (f : Factory W)
      → ((j : ℕ) → P (get_device_for_id rt j f).1)
      → P f
      → P (with_id rt d driver options o f).1
  unfolding with_id
  with_id-keeps d driver options none f k h = h
  with_id-keeps d driver options (some id) f k h =
      with_backend-keeps d driver (id % 2 ^ 32) (read_config options) (select_backend driver) f k h

  with_identity-keeps :
      (d : HardwareDevice) (options : Option SessionOptions) (o : Option Identity) (f : Factory W)
      → ((j : ℕ) → P (get_device_for_id rt j f).1)
      → P f
      → P (with_identity rt d options o f).1
  unfolding with_identity
  with_identity-keeps d options none f k h = h
  with_identity-keeps d options (some i) f k h =
      with_id-keeps d i.driver_name options (stoul i.device_id_str) f k h

  pub create_ep-keeps :
      (ds : List HardwareDevice) (options : Option SessionOptions) (f : Factory W)
      → ((j : ℕ) → P (get_device_for_id rt j f).1)
      → P f
      → P (create_ep rt ds options f).1
  unfolding create_ep
  create_ep-keeps [] options f k h = h
  create_ep-keeps (d ∷ []) options f k h = with_identity-keeps d options (identity rt d) f k h
  create_ep-keeps (d ∷ e ∷ ds) options f k h = h
