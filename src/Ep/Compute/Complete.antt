-- ===== src/Ep/Compute/Complete.antt =====
-- A computation succeeds where nothing that it calls fails.
use onnxruntime_ep_iree.Common.{
  ℕ, zero, suc, ◌≡◌, refl, inl, inr, false, List, [], ◌∷◌, Option, none, some, All, Bool-cases,
}
use onnxruntime_ep_iree.Common.Decimal.{ℤ}
use onnxruntime_ep_iree.Wrappers.{Status, Result, ok, err}
use onnxruntime_ep_iree.OrtUtils.{
  IreeType, onnx_to_iree_element_type, iree_to_onnx_element_type, get_buffer_view_shape,
}
use onnxruntime_ep_iree.OrtUtils.Convert.{
  Hal, OrtTensor, View, OutputTransfer, is_type_none, on_device, ort_tensor_to_iree_buffer_view,
  iree_buffer_view_to_ort_tensor,
}
use onnxruntime_ep_iree.Factory.State.{Factory}
use onnxruntime_ep_iree.Factory.Cache.{Runtime, get_device_for_id}
use onnxruntime_ep_iree.Factory.CreateEp.{IreeEp}
use onnxruntime_ep_iree.Ep.Compute.{
  Kernel, pushed, invoked, Ran, after, step, at_world, is_undefined, convert_inputs, with_view,
  push_inputs, deliver_view, deliver_popped, deliver_outputs, call, deinitialize, after_initialize,
  with_call, compute,
}

-- The calls of the HAL and of the runtime succeed. `Left n w` says that the call has `n` outputs left
-- in the state `w`: a pop takes one of them, and the delivery of an output takes none.
pub record Works {W : Type 0} (hal : Hal W) (kernel : Kernel W) (Left : ℕ → W → Type 0)
    : Type 0 where
  pub creates :
      (device : Option ℕ) (buffer : ℕ) (dims : List ℕ) (type : IreeType) (w : W)
      → (v : ℕ) × ((hal.create_view device buffer dims type w).0 ≡ ok v)
  pub copies :
      (device : Option ℕ) (bytes size : ℕ) (dims : List ℕ) (type : IreeType) (w : W)
      → (v : ℕ) × ((hal.copy_view device bytes size dims type w).0 ≡ ok v)
  pub initializes : (w : W) → (kernel.initialize w).0 ≡ none
  pub pushes : (v : ℕ) (w : W) → (kernel.push_input v w).0 ≡ none
  pub invokes : (w : W) → (kernel.invoke w).0 ≡ none
  pub counts : (w : W) → Left (kernel.output_count (kernel.invoke w).1) (kernel.invoke w).1
  pub pops :
      (n : ℕ) (w : W)
      → Left (suc n) w
      → ((v : ℕ) × ((kernel.pop_output w).0 ≡ ok v)) × Left n (kernel.pop_output w).1
  pub has_type :
      (v : ℕ) (w : W) → is_undefined (iree_to_onnx_element_type (hal.view v w).element_type) ≡ false
  pub transfers :
      (device : Option ℕ) (t : OutputTransfer) (w : W) → (hal.transfer device t w).0 ≡ none
  pub gets_output :
      (n i : ℕ) (shape : List ℤ) (w : W) → Left n w → Left n (kernel.get_output i shape w).1
  pub keeps_transfer :
      (n : ℕ) (device : Option ℕ) (t : OutputTransfer) (w : W)
      → Left n w
      → Left n (hal.transfer device t w).1
  pub keeps_release : (n v : ℕ) (w : W) → Left n w → Left n (kernel.release_view v w)

after-status :
    {W : Type 0} (r rest : Ran W)
    → r.status ≡ none
    → rest.status ≡ none
    → (after r rest).status ≡ none
unfolding after
after-status r rest h k = rw h k

module _ {W : Type 0} (rt : Runtime W) (hal : Hal W) (kernel : Kernel W) (Left : ℕ → W → Type 0)
    (works : Works hal kernel Left) where
  converts :
      (device : Option ℕ) (input : OrtTensor) (w : W)
      → is_type_none (onnx_to_iree_element_type input.element_type) ≡ false
      → (v : ℕ) × ((ort_tensor_to_iree_buffer_view hal device input w).0 ≡ ok v)
  unfolding ort_tensor_to_iree_buffer_view
  converts device input w supported = elim (Bool-cases (on_device input.vendor_id)) [
    | inl e ↦
        rw (supported, e, ort_tensor_to_iree_buffer_view) (works.creates device input.raw _ _ w)
    | inr e ↦
        rw (supported, e, ort_tensor_to_iree_buffer_view) (works.copies device input.raw _ _ _ w)
  ]

  with_view-status :
      (f : Factory W) (view : Result ℕ × W) (rest : List ℕ × Ran W) (v : ℕ)
      → view.0 ≡ ok v
      → rest.1.status ≡ none
      → (with_view rt hal kernel f view rest).1.status ≡ none
  unfolding with_view
  with_view-status f (err status, w) rest v e h = cc
  with_view-status f (ok x, w) (views, r) v e h = h

  convert_inputs-status :
      (device : Option ℕ) (inputs : List OrtTensor) (f : Factory W)
      → All (λ t. is_type_none (onnx_to_iree_element_type t.element_type) ≡ false) inputs
      → (convert_inputs rt hal kernel device inputs f).1.status ≡ none
  unfolding convert_inputs
  convert_inputs-status device [] f h = refl
  convert_inputs-status device (input ∷ inputs) f h =
      let view = ort_tensor_to_iree_buffer_view hal device input f.world in
      let (v, e) = converts device input f.world h.0 in
      with_view-status f view (convert_inputs rt hal kernel device inputs (at_world f view.1)) v e
        (convert_inputs-status device inputs (at_world f view.1) h.1)

  push_inputs-status :
      (views : List ℕ) (f : Factory W) → (push_inputs rt hal kernel views f).status ≡ none
  unfolding push_inputs
  push_inputs-status [] f = refl
  push_inputs-status (v ∷ views) f =
      let r = step (pushed v ∷ []) f (kernel.push_input v f.world) in
      after-status r (push_inputs rt hal kernel views r.factory) (works.pushes v f.world)
        (push_inputs-status views r.factory)

  -- A part that succeeds and leaves `n` outputs.
  abbrev Fine : ℕ → Ran W → Type 0
  Fine n r = (r.status ≡ none) × Left n r.factory.world

  deliver_view-Fine :
      (device : Option ℕ) (n i : ℕ) (view : View) (f : Factory W)
      → is_undefined (iree_to_onnx_element_type view.element_type) ≡ false
      → Left n f.world
      → Fine n (deliver_view rt hal kernel device i view f)
  unfolding deliver_view iree_buffer_view_to_ort_tensor
  deliver_view-Fine device n i view f typed h =
      rw (typed, deliver_view)
        (
          works.transfers device _ _,
          works.keeps_transfer n device _ _
              (works.gets_output n i (get_buffer_view_shape view.dims) f.world h),
        )

  deliver_popped-Fine :
      (device : Option ℕ) (n i : ℕ) (popped : Result ℕ) (v : ℕ) (f : Factory W)
      → popped ≡ ok v
      → Left n f.world
      → Fine n (deliver_popped rt hal kernel device i popped f)
  unfolding deliver_popped
  deliver_popped-Fine device n i (err status) v f e h = cc
  deliver_popped-Fine device n i (ok x) v f e h =
      let (status, left) =
        deliver_view-Fine device n i (hal.view x f.world) f (works.has_type x f.world) h in
      (status, works.keeps_release n x _ left)

  deliver_outputs-status :
      (device : Option ℕ) (n i : ℕ) (f : Factory W)
      → Left n f.world
      → (deliver_outputs rt hal kernel device n i f).status ≡ none
  unfolding deliver_outputs
  deliver_outputs-status device zero i f h = refl
  deliver_outputs-status device (suc n) i f h =
      let (popped, w) = kernel.pop_output f.world in
      let ((v, e), left) = works.pops n f.world h in
      let (status, more) = deliver_popped-Fine device n i popped v (at_world f w) e left in
      let r = deliver_popped rt hal kernel device i popped (at_world f w) in
      after-status r (deliver_outputs rt hal kernel device n (suc i) r.factory) status
        (deliver_outputs-status device n (suc i) r.factory more)

  call-status :
      (device : Option ℕ) (views : List ℕ) (f : Factory W)
      → (call rt hal kernel device views f).status ≡ none
  unfolding call
  call-status device views f =
      let pushes = push_inputs rt hal kernel views f in
      let (status, w) = kernel.invoke pushes.factory.world in
      let n = kernel.output_count w in
      let invocation = step (invoked n ∷ []) pushes.factory (status, w) in
      let deliveries = deliver_outputs rt hal kernel device n 0 invocation.factory in
      after-status pushes (after invocation deliveries) (push_inputs-status views f) (
        after-status invocation deliveries (works.invokes pushes.factory.world) (
          deliver_outputs-status device n 0 invocation.factory (works.counts pushes.factory.world)))

  after_initialize-status :
      (device : Option ℕ) (views : List ℕ) (f : Factory W) (p : Option Status × W)
      → p.0 ≡ none
      → (after_initialize rt hal kernel device views f p).status ≡ none
  unfolding after_initialize deinitialize
  after_initialize-status device views f (some status, w) e = cc
  after_initialize-status device views f (none, w) e = call-status device views (at_world f w)

  -- Where the calls of the HAL and of the runtime succeed, every pop gives one of the outputs that the
  -- call has, of a type that ORT has, and the types of all inputs are supported: `ComputeImpl`
  -- succeeds.
  pub compute-status :
      (ep : IreeEp) (inputs : List OrtTensor) (f : Factory W)
      → All (λ t. is_type_none (onnx_to_iree_element_type t.element_type) ≡ false) inputs
      → (compute rt hal kernel ep inputs f).status ≡ none
  unfolding compute with_call
  compute-status ep inputs f supported =
      let (device, g) = get_device_for_id rt ep.device_id f in
      let (views, first) = convert_inputs rt hal kernel device inputs g in
      after-status first (with_call rt hal kernel device views first.factory)
        (convert_inputs-status device inputs g supported)
        (after_initialize-status device views first.factory (kernel.initialize first.factory.world)
          (works.initializes first.factory.world))
