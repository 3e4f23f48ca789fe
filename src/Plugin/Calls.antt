-- ===== src/Plugin/Calls.antt =====
-- What each call of ORT keeps of the factory.
use onnxruntime_ep_iree.Common.{
  ℕ, zero, suc, ◌≡◌, sym, ap, subst, Bool, List, [], ◌∷◌, ◌++◌, Option, some, get_elem?, true,
  false, if◌then◌else◌,
}
use onnxruntime_ep_iree.Wrappers.{Status}
use onnxruntime_ep_iree.Factory.State.{Factory}
use onnxruntime_ep_iree.Factory.Cache.{Runtime, get_device_for_id}
use onnxruntime_ep_iree.Factory.Cache.Laws.{
  IsCacheValid, get_device_for_id-Lookup, get_device_for_id-IsCacheValid,
}
use onnxruntime_ep_iree.Factory.Supported.{get_supported_devices}
use onnxruntime_ep_iree.Factory.Supported.Laws.{infos_below, state_after, get_supported_devices_lem}
use onnxruntime_ep_iree.Factory.CreateEp.Keeps.{create_ep-keeps}
use onnxruntime_ep_iree.Factory.CreateAllocator.{create_data_transfer}
use onnxruntime_ep_iree.Factory.CreateAllocator.Laws.{
  AllocatorsValid, Lookup-AllocatorsValid, create_allocator-AllocatorsValid,
}
use onnxruntime_ep_iree.Factory.CreateAllocator.Keeps.{create_allocator-keeps}
use onnxruntime_ep_iree.DataTransfer.Copies.{Extends, Lookup-Extends}
use onnxruntime_ep_iree.DataTransfer.Laws.{copy_tensors-keeps}
use onnxruntime_ep_iree.Ep.Compute.Keeps.{compute-keeps}
use onnxruntime_ep_iree.Plugin.{
  Plugin, transfer_state, Step, gets_supported_devices, creates_ep, releases_ep, creates_allocator,
  releases_allocator, creates_sync_stream, creates_data_transfer, releases_data_transfer, copies,
  compiles, computes,
}

get_elem?-append_left {ℓ} :
    {A : Type ℓ} (xs ys : List A) (i : ℕ) (x : A)
    → get_elem? xs i ≡ some x
    → get_elem? (xs ++ ys) i ≡ some x
get_elem?-append_left [] ys i x h = cc
get_elem?-append_left (y ∷ xs) ys zero x h = h
get_elem?-append_left (y ∷ xs) ys (suc i) x h = get_elem?-append_left xs ys i x h

data_transfer-keeps :
    {W : Type 0} (P : Factory W → Type 0) (f : Factory W)
    → ((g : Factory W) (b : Bool) → P g → P (record g { data_transfer = b }))
    → P f
    → P (create_data_transfer f)
unfolding create_data_transfer
data_transfer-keeps P f ignores h =
    elim f.data_transfer as (λ b. P (if b then f else record f { data_transfer = true })) [
      | true ↦ h
      | false ↦ ignores f true h
    ]

-- The memory infos that `GetSupportedDevicesImpl` adds stand behind those of the allocators.
supported-AllocatorsValid :
    {W : Type 0} (create_ep_device add_allocator_info : ℕ → Option Status) (max : ℕ) (f : Factory W)
    → AllocatorsValid f
    → AllocatorsValid (record f {
      device_memory_infos =
          (get_supported_devices create_ep_device add_allocator_info max f).1.device_memory_infos;
    })
unfolding state_after
supported-AllocatorsValid create_ep_device add_allocator_info max f v id a h =
    let (k, released, e, _, _, _) =
      get_supported_devices_lem create_ep_device add_allocator_info max f in
    let (same, held, described) = v id a h in
    (
      same,
      held,
      subst (λ infos. get_elem? infos id ≡ some a.memory_info)
          (sym (ap (λ s. s.device_memory_infos) e))
          (get_elem?-append_left f.device_memory_infos (infos_below _) id a.memory_info described),
    )

module _ {W : Type 0} (rt : Runtime W) where
  lookup-Extends : (f : Factory W) (id : ℕ) → Extends f (get_device_for_id rt id f).1
  lookup-Extends f id = Lookup-Extends (get_device_for_id-Lookup rt id f)

  lookup-AllocatorsValid :
      (f : Factory W) → AllocatorsValid f → (id : ℕ) → AllocatorsValid (get_device_for_id rt id f).1
  lookup-AllocatorsValid f v id = Lookup-AllocatorsValid (get_device_for_id-Lookup rt id f) v

  lookup-keeps_Extends :
      (f g : Factory W) (id : ℕ) → Extends f g → Extends f (get_device_for_id rt id g).1
  lookup-keeps_Extends f g id e j h x = lookup-Extends g id j h (e j h x)

  -- No call takes a device from the cache or exchanges it.
  pub Step-Extends : {p q : Plugin W} → Step rt p q → Extends p.factory q.factory
  unfolding create_data_transfer
  Step-Extends (gets_supported_devices devices infos max) = λ j h x. x
  Step-Extends {p} (creates_ep ds options) =
      create_ep-keeps rt (Extends p.factory) ds options p.factory (lookup-Extends p.factory)
        (λ j h x. x)
  Step-Extends (releases_ep k) = λ j h x. x
  Step-Extends {p} (creates_allocator arg) =
      create_allocator-keeps rt (Extends p.factory) (λ f m e. e) arg p.factory
        (lookup-Extends p.factory) (λ j h x. x)
  Step-Extends (releases_allocator allocator) = λ j h x. x
  Step-Extends creates_sync_stream = λ j h x. x
  Step-Extends releases_data_transfer = λ j h x. x
  Step-Extends {p} creates_data_transfer =
      data_transfer-keeps (Extends p.factory) p.factory (λ f b e. e) (λ j h x. x)
  Step-Extends {p} (copies transfer pairs) =
      copy_tensors-keeps rt transfer (Extends p.factory)
        (λ f id. lookup-keeps_Extends p.factory f id) pairs (transfer_state p) (λ j h x. x)
  Step-Extends {p} (compiles ep w member) = lookup-Extends p.factory ep.device_id
  Step-Extends {p} (computes hal kernel ep inputs member) =
      compute-keeps (Extends p.factory) (λ f w e. e) rt hal kernel ep inputs p.factory
        (lookup-Extends p.factory ep.device_id)

  pub Step-in_range :
      {p q : Plugin W} → Step rt p q → IsCacheValid p.factory → IsCacheValid q.factory
  Step-in_range (gets_supported_devices devices infos max) v = v
  Step-in_range {p} (creates_ep ds options) v =
      create_ep-keeps rt IsCacheValid ds options p.factory
        (λ id. get_device_for_id-IsCacheValid rt id p.factory v) v
  Step-in_range (releases_ep k) v = v
  Step-in_range {p} (creates_allocator arg) v =
      create_allocator-keeps rt IsCacheValid (λ f m e. e) arg p.factory
        (λ id. get_device_for_id-IsCacheValid rt id p.factory v) v
  Step-in_range (releases_allocator allocator) v = v
  Step-in_range creates_sync_stream v = v
  Step-in_range releases_data_transfer v = v
  Step-in_range {p} creates_data_transfer v =
      data_transfer-keeps IsCacheValid p.factory (λ f b e. e) v
  Step-in_range {p} (copies transfer pairs) v =
      copy_tensors-keeps rt transfer IsCacheValid (λ f id. get_device_for_id-IsCacheValid rt id f)
        pairs (transfer_state p) v
  Step-in_range {p} (compiles ep w member) v =
      get_device_for_id-IsCacheValid rt ep.device_id p.factory v
  Step-in_range {p} (computes hal kernel ep inputs member) v =
      compute-keeps IsCacheValid (λ f w e. e) rt hal kernel ep inputs p.factory
        (get_device_for_id-IsCacheValid rt ep.device_id p.factory v)

  pub Step-AllocatorsValid :
      {p q : Plugin W} → Step rt p q → AllocatorsValid p.factory → AllocatorsValid q.factory
  Step-AllocatorsValid {p} (gets_supported_devices devices infos max) v =
      supported-AllocatorsValid devices infos max p.factory v
  Step-AllocatorsValid {p} (creates_ep ds options) v =
      create_ep-keeps rt AllocatorsValid ds options p.factory (lookup-AllocatorsValid p.factory v) v
  Step-AllocatorsValid (releases_ep k) v = v
  Step-AllocatorsValid {p} (creates_allocator arg) v =
      create_allocator-AllocatorsValid rt arg p.factory v
  Step-AllocatorsValid (releases_allocator allocator) v = v
  Step-AllocatorsValid creates_sync_stream v = v
  Step-AllocatorsValid releases_data_transfer v = v
  Step-AllocatorsValid {p} creates_data_transfer v =
      data_transfer-keeps AllocatorsValid p.factory (λ f b e. e) v
  Step-AllocatorsValid {p} (copies transfer pairs) v =
      copy_tensors-keeps rt transfer AllocatorsValid (λ f id w. lookup-AllocatorsValid f w id) pairs
        (transfer_state p) v
  Step-AllocatorsValid {p} (compiles ep w member) v =
      lookup-AllocatorsValid p.factory v ep.device_id
  Step-AllocatorsValid {p} (computes hal kernel ep inputs member) v =
      compute-keeps AllocatorsValid (λ f w e. e) rt hal kernel ep inputs p.factory
        (lookup-AllocatorsValid p.factory v ep.device_id)
