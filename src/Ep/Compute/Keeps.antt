-- ===== src/Ep/Compute/Keeps.antt =====
-- What a computation leaves of the factory: a property that does not depend on the state of the
-- runtime, and that looking up a device keeps, is kept.
use onnxruntime_ep_iree.Common.{
  ℕ, zero, suc, inl, inr, List, [], ◌∷◌, Option, none, some, Option-cases, Bool-cases,
}
use onnxruntime_ep_iree.Wrappers.{Status, Result, ok, err}
use onnxruntime_ep_iree.OrtUtils.{iree_to_onnx_element_type}
use onnxruntime_ep_iree.OrtUtils.Convert.{Hal, OrtTensor, View, ort_tensor_to_iree_buffer_view}
use onnxruntime_ep_iree.Factory.State.{Factory}
use onnxruntime_ep_iree.Factory.Cache.{Runtime, get_device_for_id}
use onnxruntime_ep_iree.Factory.CreateEp.{IreeEp}
use onnxruntime_ep_iree.Ep.Compute.{
  Kernel, pushed, invoked, Ran, after, step, at_world, is_undefined, convert_inputs, with_view,
  release_views, push_inputs, deliver_view, deliver_popped, deliver_outputs, call, deinitialize,
  after_initialize, with_call, compute,
}

module _ {W : Type 0} (P : Factory W → Type 0)
    (moves : (f : Factory W) (w : W) → P f → P (at_world f w)) (rt : Runtime W) (hal : Hal W)
    (kernel : Kernel W) where
  after-keeps : (r rest : Ran W) → P r.factory → P rest.factory → P (after r rest).factory
  unfolding after
  after-keeps r rest h k = elim (Option-cases r.status) [
    | inr (status, e) ↦ rw (e, after) h
    | inl e ↦ rw (e, after) k
  ]

  with_view-keeps :
      (f : Factory W) (view : Result ℕ × W) (rest : List ℕ × Ran W)
      → P f
      → P rest.1.factory
      → P (with_view rt hal kernel f view rest).1.factory
  unfolding with_view
  with_view-keeps f (err status, w) rest h k = moves f w h
  with_view-keeps f (ok v, w) (views, r) h k = k

  convert_inputs-keeps :
      (device : Option ℕ) (inputs : List OrtTensor) (f : Factory W)
      → P f
      → P (convert_inputs rt hal kernel device inputs f).1.factory
  unfolding convert_inputs
  convert_inputs-keeps device [] f h = h
  convert_inputs-keeps device (input ∷ inputs) f h =
      let view = ort_tensor_to_iree_buffer_view hal device input f.world in
      with_view-keeps f view (convert_inputs rt hal kernel device inputs (at_world f view.1)) h
        (convert_inputs-keeps device inputs (at_world f view.1) (moves f view.1 h))

  release_views-keeps :
      (views : List ℕ) (f : Factory W) → P f → P (release_views rt hal kernel views f)
  unfolding release_views
  release_views-keeps [] f h = h
  release_views-keeps (v ∷ views) f h = release_views-keeps views _ (moves f _ h)

  push_inputs-keeps :
      (views : List ℕ) (f : Factory W) → P f → P (push_inputs rt hal kernel views f).factory
  unfolding push_inputs
  push_inputs-keeps [] f h = h
  push_inputs-keeps (v ∷ views) f h =
      let r = step (pushed v ∷ []) f (kernel.push_input v f.world) in
      let one = moves f (kernel.push_input v f.world).1 h in
      after-keeps r (push_inputs rt hal kernel views r.factory) one
        (push_inputs-keeps views r.factory one)

  deliver_view-keeps :
      (device : Option ℕ) (i : ℕ) (view : View) (f : Factory W)
      → P f
      → P (deliver_view rt hal kernel device i view f).factory
  unfolding deliver_view
  deliver_view-keeps device i view f h =
      elim (Bool-cases (is_undefined (iree_to_onnx_element_type view.element_type))) [
        | inl e ↦ rw (e, deliver_view) h
        | inr e ↦ rw (e, deliver_view) (moves f _ h)
      ]

  deliver_popped-keeps :
      (device : Option ℕ) (i : ℕ) (popped : Result ℕ) (f : Factory W)
      → P f
      → P (deliver_popped rt hal kernel device i popped f).factory
  unfolding deliver_popped
  deliver_popped-keeps device i (err status) f h = h
  deliver_popped-keeps device i (ok v) f h =
      moves _ _ (deliver_view-keeps device i (hal.view v f.world) f h)

  deliver_outputs-keeps :
      (device : Option ℕ) (n i : ℕ) (f : Factory W)
      → P f
      → P (deliver_outputs rt hal kernel device n i f).factory
  unfolding deliver_outputs
  deliver_outputs-keeps device zero i f h = h
  deliver_outputs-keeps device (suc n) i f h =
      let (popped, w) = kernel.pop_output f.world in
      let r = deliver_popped rt hal kernel device i popped (at_world f w) in
      let one = deliver_popped-keeps device i popped (at_world f w) (moves f w h) in
      after-keeps r (deliver_outputs rt hal kernel device n (suc i) r.factory) one
        (deliver_outputs-keeps device n (suc i) r.factory one)

  call-keeps :
      (device : Option ℕ) (views : List ℕ) (f : Factory W)
      → P f
      → P (call rt hal kernel device views f).factory
  unfolding call
  call-keeps device views f h =
      let pushes = push_inputs rt hal kernel views f in
      let (status, w) = kernel.invoke pushes.factory.world in
      let n = kernel.output_count w in
      let invocation = step (invoked n ∷ []) pushes.factory (status, w) in
      let deliveries = deliver_outputs rt hal kernel device n 0 invocation.factory in
      let pushes_done = push_inputs-keeps views f h in
      let invoked_done = moves pushes.factory w pushes_done in
      after-keeps pushes (after invocation deliveries) pushes_done (
        after-keeps invocation deliveries invoked_done
          (deliver_outputs-keeps device n 0 invocation.factory invoked_done))

  after_initialize-keeps :
      (device : Option ℕ) (views : List ℕ) (f : Factory W) (r : Option Status × W)
      → P f
      → P (after_initialize rt hal kernel device views f r).factory
  unfolding after_initialize deinitialize
  after_initialize-keeps device views f (some status, w) h = moves f w h
  after_initialize-keeps device views f (none, w) h =
      moves _ _ (call-keeps device views (at_world f w) (moves f w h))

  pub compute-keeps :
      (ep : IreeEp) (inputs : List OrtTensor) (f : Factory W)
      → P (get_device_for_id rt ep.device_id f).1
      → P (compute rt hal kernel ep inputs f).factory
  unfolding compute with_call
  compute-keeps ep inputs f h =
      let (device, g) = get_device_for_id rt ep.device_id f in
      let (views, first) = convert_inputs rt hal kernel device inputs g in
      let rest = with_call rt hal kernel device views first.factory in
      let converted = convert_inputs-keeps device inputs g h in
      release_views-keeps views (after first rest).factory (
        after-keeps first rest converted (
          after_initialize-keeps device views first.factory (kernel.initialize first.factory.world)
            converted))
