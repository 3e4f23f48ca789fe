-- ===== src/Plugin/Invariant.antt =====
-- What holds in every state that the calls of ORT can lead to.
use mathlib.Core.Option.{some-injective}
use onnxruntime_ep_iree.Common.{
  ℕ, zero, suc, ◌≡◌, refl, sym, ap, ◌∙◌, subst, Bool, List, [], ◌∷◌, Option, some, All, All-mono,
  All-In, In, Text,
}
use onnxruntime_ep_iree.Factory.State.{Factory, HardwareDevice, AllocatorInit, find}
use onnxruntime_ep_iree.Factory.Devices.{DriverReport}
use onnxruntime_ep_iree.Factory.Cache.{Runtime, get_device_for_id}
use onnxruntime_ep_iree.Factory.Cache.Laws.{
  IsCacheValid, get_device_for_id-Lookup, get_device_for_id_cached, Lookup-find,
}
use onnxruntime_ep_iree.Factory.CreateEp.{
  SessionOptions, IreeEp, Outcome, created, failed, terminated, create_ep,
}
use onnxruntime_ep_iree.Factory.CreateEp.Laws.{create_ep-device}
use onnxruntime_ep_iree.Factory.CreateAllocator.Laws.{AllocatorsValid}
use onnxruntime_ep_iree.Factory.Lifetime.{new_factory}
use onnxruntime_ep_iree.DataTransfer.Copies.{Extends}
use onnxruntime_ep_iree.Plugin.{
  Plugin, add_ep, remove_ep, Step, gets_supported_devices, creates_ep, releases_ep,
  creates_allocator, releases_allocator, creates_sync_stream, creates_data_transfer,
  releases_data_transfer, copies, compiles, computes, Steps, start, next,
}
use onnxruntime_ep_iree.Plugin.Calls.{Step-Extends, Step-in_range, Step-AllocatorsValid}

-- The device of an execution provider is open.
abbrev pub IsOpen : {W : Type 0} → Factory W → IreeEp → Type 0
IsOpen f ep = (handle : ℕ) × (find ep.device_id f.device_cache ≡ some handle)

-- The cached ids are in range, each allocator works on the HAL device that is cached for its id, and
-- the device of each execution provider that ORT holds is open.
pub record Shared {W : Type 0} (p : Plugin W) : Type 0 where
  pub in_range : IsCacheValid p.factory
  pub allocators : AllocatorsValid p.factory
  pub opened : All (IsOpen p.factory) p.eps

IsOpen-Extends :
    {W : Type 0} (f g : Factory W) (eps : List IreeEp)
    → Extends f g
    → All (IsOpen f) eps
    → All (IsOpen g) eps
IsOpen-Extends f g eps e = All-mono (λ ep (h, found). (h, e ep.device_id h found)) eps

IsOpen-remove :
    {W : Type 0} (f : Factory W) (k : ℕ) (eps : List IreeEp)
    → All (IsOpen f) eps
    → All (IsOpen f) (remove_ep k eps)
IsOpen-remove f k [] h = tt
IsOpen-remove f zero (ep ∷ eps) h = h.1
IsOpen-remove f (suc k) (ep ∷ eps) h = (h.0, IsOpen-remove f k eps h.1)

IsOpen-add :
    {W : Type 0} (f : Factory W) (o : Outcome) (eps : List IreeEp)
    → ((ep : IreeEp) → o ≡ created ep → IsOpen f ep)
    → All (IsOpen f) eps
    → All (IsOpen f) (add_ep o eps)
IsOpen-add f (created ep) eps one h = (one ep refl, h)
IsOpen-add f (failed status) eps one h = h
IsOpen-add f terminated eps one h = h

module _ {W : Type 0} (rt : Runtime W) where
  create_ep-IsOpen :
      (ds : List HardwareDevice) (options : Option SessionOptions) (f : Factory W) (ep : IreeEp)
      → (create_ep rt ds options f).0 ≡ created ep
      → IsOpen (create_ep rt ds options f).1 ep
  create_ep-IsOpen ds options f ep h =
      let g = (create_ep rt ds options f).1 in
      let (handle, e) = create_ep-device rt ds options f ep h in
      (
        handle,
        subst (λ (k : Factory W). find ep.device_id k.device_cache ≡ some handle) (ap (λ r. r.1) e)
            (Lookup-find (get_device_for_id-Lookup rt ep.device_id g) (ap (λ r. r.0) e)),
      )

  -- The execution providers after a call are those before it, but for those that `CreateEpImpl` and
  -- `ReleaseEpImpl` add and remove.
  Step-opened :
      {p q : Plugin W}
      → (s : Step rt p q) → Extends p.factory q.factory
      → All (IsOpen p.factory) p.eps
      → All (IsOpen q.factory) q.eps
  Step-opened {p} (gets_supported_devices devices infos max) e h = h
  Step-opened {p} (creates_ep ds options) e h =
      IsOpen-add (create_ep rt ds options p.factory).1 (create_ep rt ds options p.factory).0 p.eps
        (create_ep-IsOpen ds options p.factory)
        (IsOpen-Extends p.factory (create_ep rt ds options p.factory).1 p.eps e h)
  Step-opened {p} (releases_ep k) e h = IsOpen-remove p.factory k p.eps h
  Step-opened {p} {q} (creates_allocator arg) e h = IsOpen-Extends p.factory q.factory p.eps e h
  Step-opened (releases_allocator allocator) e h = h
  Step-opened creates_sync_stream e h = h
  Step-opened releases_data_transfer e h = h
  Step-opened {p} {q} creates_data_transfer e h = IsOpen-Extends p.factory q.factory p.eps e h
  Step-opened {p} {q} (copies transfer pairs) e h = IsOpen-Extends p.factory q.factory p.eps e h
  Step-opened {p} {q} (compiles ep w member) e h = IsOpen-Extends p.factory q.factory p.eps e h
  Step-opened {p} {q} (computes hal kernel ep inputs member) e h =
      IsOpen-Extends p.factory q.factory p.eps e h

  Step-Shared : {p q : Plugin W} → Step rt p q → Shared p → Shared q
  Step-Shared s v = record {
    in_range = Step-in_range rt s v.in_range;
    allocators = Step-AllocatorsValid rt s v.allocators;
    opened = Step-opened s (Step-Extends rt s) v.opened;
  }

  -- A device that is open keeps its handle in all later states.
  pub Steps-Extends : {p q : Plugin W} → Steps rt p q → Extends p.factory q.factory
  Steps-Extends start = λ j h x. x
  Steps-Extends (next steps s) = λ j h x. Step-Extends rt s j h (Steps-Extends steps j h x)

  pub Steps-Shared : {p q : Plugin W} → Steps rt p q → Shared p → Shared q
  Steps-Shared start v = v
  Steps-Shared (next steps s) v = Step-Shared s (Steps-Shared steps v)

  -- The plugin behind a new factory.
  abbrev pub new_plugin : Text → Bool → Option (List DriverReport) → W → Plugin W
  new_plugin ep_name instance_created reports w = record {
    factory = new_factory ep_name instance_created reports w;
    eps = [];
    transfers = [];
  }

  new_plugin-Shared :
      (ep_name : Text) (instance_created : Bool) (reports : Option (List DriverReport)) (w : W)
      → Shared (new_plugin ep_name instance_created reports w)
  unfolding new_factory find
  new_plugin-Shared ep_name instance_created reports w = record {
    in_range = λ id h. absurd (h refl);
    allocators = λ id a h. cc;
    opened = tt;
  }

  -- In every state that any calls of ORT lead to from a new factory, the cached ids are in range, each
  -- allocator works on the HAL device that is cached for its id, and the device of every execution
  -- provider that ORT holds is open.
  pub reachable-Shared :
      (ep_name : Text) (instance_created : Bool) (reports : Option (List DriverReport)) (w : W)
      (p : Plugin W)
      → Steps rt (new_plugin ep_name instance_created reports w) p
      → Shared p
  reachable-Shared ep_name instance_created reports w p steps =
      Steps-Shared steps (new_plugin-Shared ep_name instance_created reports w)

  -- If `p` was reached from a new factory, ORT holds an execution provider there, and calls lead from
  -- `p` to a state `q` with an allocator of the same device id: then looking that id up, as each
  -- computation and each transfer does, gives the HAL device of that allocator already in `p`, where
  -- the allocator may not exist yet, and still in `q`, and opens nothing.
  pub ep-allocator-device :
      (ep_name : Text) (instance_created : Bool) (reports : Option (List DriverReport)) (w : W)
      (p q : Plugin W) (ep : IreeEp) (a : AllocatorInit)
      → Steps rt (new_plugin ep_name instance_created reports w) p
      → Steps rt p q
      → In ep p.eps
      → find ep.device_id q.factory.allocators ≡ some a
      → (get_device_for_id rt ep.device_id p.factory ≡ (some a.device, p.factory))
        × (get_device_for_id rt ep.device_id q.factory ≡ (some a.device, q.factory))
  ep-allocator-device ep_name instance_created reports w p q ep a reached more member found =
      let before = reachable-Shared ep_name instance_created reports w p reached in
      let (handle, held) = All-In (IsOpen p.factory) p.eps ep before.opened member in
      let (_, now, _) = (Steps-Shared more before).allocators ep.device_id a found in
      let same : a.device ≡ handle =
        some-injective a.device handle (sym now ∙ Steps-Extends more ep.device_id handle held) in
      rw same (
        get_device_for_id_cached rt ep.device_id handle p.factory held,
        get_device_for_id_cached rt ep.device_id handle q.factory
            (Steps-Extends more ep.device_id handle held),
      )
