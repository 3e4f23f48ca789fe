-- ===== src/Ep/Compute/Steps.antt =====
-- The parts of `ComputeImpl` that are loops, where they succeed: each step is in the state that the one
-- before it left.
use onnxruntime_ep_iree.Common.{
  ℕ, zero, suc, ◌≡◌, ◌≢◌, refl, sym, ap, ◌∙◌, inl, inr, false, List, [], ◌∷◌, ◌++◌, Option, none,
  Option-cases, Bool-cases, subst,
}
use onnxruntime_ep_iree.Wrappers.{Status, Result, ok, err}
use onnxruntime_ep_iree.OrtUtils.{OnnxType, undefined, iree_to_onnx_element_type}
use onnxruntime_ep_iree.OrtUtils.Convert.{
  Hal, OrtTensor, View, ort_tensor_to_iree_buffer_view, iree_buffer_view_to_ort_tensor,
}
use onnxruntime_ep_iree.Factory.State.{Factory}
use onnxruntime_ep_iree.Factory.Cache.{Runtime}
use onnxruntime_ep_iree.Ep.Compute.{
  Kernel, Output, made, released, pushed, delivered, Ran, after, step, at_world, is_undefined,
  convert_inputs, with_view, push_inputs, deliver_view, deliver_popped, deliver_outputs,
}
use onnxruntime_ep_iree.Ep.Compute.Order.{
  pushed_events, Converted, converted_all, convert, Pushed, pushed_all, push, IsOutput, Delivered,
  done, next,
}

-- Two parts that succeed one after the other.
pub after-none :
    {W : Type 0} (r rest : Ran W)
    → (after r rest).status ≡ none
    → (r.status ≡ none) × (rest.status ≡ none) × ((after r rest).events ≡ r.events ++ rest.events)
unfolding after
after-none r rest = elim (Option-cases r.status) [
  | inr (status, e) ↦ rw (e, after) (λ h. cc)
  | inl e ↦ rw (e, after) (λ h. (refl, h, refl))
]

is_undefined_sound : (t : OnnxType) → is_undefined t ≡ false → t ≢ undefined
is_undefined_sound t h e = cc (rw e at h)

pub after-factory :
    {W : Type 0} (r rest : Ran W) → r.status ≡ none → (after r rest).factory ≡ rest.factory
unfolding after
after-factory r rest e = rw (e, after)

-- A pair whose status is null.
pub null_status : {W : Type 0} (p : Option Status × W) → p.0 ≡ none → p ≡ (none, p.1)
null_status p e = λ k. (e k, p.1)

module _ {W : Type 0} (rt : Runtime W) (hal : Hal W) (kernel : Kernel W) where
  with_view-Converted :
      (device : Option ℕ) (input : OrtTensor) (inputs : List OrtTensor) (f : Factory W) (w : W)
      (view : Result ℕ × W) (rest : List ℕ × Ran W)
      → ort_tensor_to_iree_buffer_view hal device input w ≡ view
      → (rest.1.status ≡ none → Converted hal device inputs rest.0 view.1 rest.1.factory.world)
      → let r = with_view rt hal kernel f view rest in
        r.1.status ≡ none → Converted hal device (input ∷ inputs) r.0 w r.1.factory.world
  unfolding with_view
  with_view-Converted device input inputs f w (err status, x) rest e more = λ h. cc
  with_view-Converted device input inputs f w (ok v, x) (views, r) e more = λ h. convert e (more h)

  pub convert_inputs-Converted :
      (device : Option ℕ) (inputs : List OrtTensor) (f : Factory W)
      → let r = convert_inputs rt hal kernel device inputs f in
        r.1.status ≡ none → Converted hal device inputs r.0 f.world r.1.factory.world
  unfolding convert_inputs
  convert_inputs-Converted device [] f = λ h. converted_all
  convert_inputs-Converted device (input ∷ inputs) f =
      let view = ort_tensor_to_iree_buffer_view hal device input f.world in
      with_view-Converted device input inputs f f.world view
        (convert_inputs rt hal kernel device inputs (at_world f view.1)) refl
        (convert_inputs-Converted device inputs (at_world f view.1))

  pub push_inputs-Pushed :
      (views : List ℕ) (f : Factory W)
      → let r = push_inputs rt hal kernel views f in
        r.status ≡ none
        → Pushed kernel views f.world r.factory.world × (r.events ≡ pushed_events views)
  unfolding push_inputs
  push_inputs-Pushed [] f = λ h. (pushed_all, refl)
  push_inputs-Pushed (v ∷ views) f =
      let r = step (pushed v ∷ []) f (kernel.push_input v f.world) in
      let rest = push_inputs rt hal kernel views r.factory in
      λ h.
        let (one, more, events) = after-none r rest h in
        let (pushes, later) = push_inputs-Pushed views r.factory more in
        (
          subst (λ (g : Factory W). Pushed kernel (v ∷ views) f.world g.world)
              (sym (after-factory r rest one))
              (push (null_status (kernel.push_input v f.world) one) pushes),
          events ∙ ap (λ es. pushed v ∷ es) later,
        )

  -- One output, from the state after its view was popped to the one before the view is released.
  Transferred : Option ℕ → ℕ → View → W → W → Output → Type 0
  Transferred device i view x y o =
      IsOutput kernel i view x o
      × (hal.transfer device o.transfer (kernel.get_output i o.shape x).1 ≡ (none, y))

  deliver_view-Transferred :
      (device : Option ℕ) (i : ℕ) (view : View) (f : Factory W)
      → let r = deliver_view rt hal kernel device i view f in
        r.status ≡ none
        → (o : Output) × Transferred device i view f.world r.factory.world o
          × (r.events ≡ delivered o ∷ [])
  unfolding deliver_view iree_buffer_view_to_ort_tensor Transferred
  deliver_view-Transferred device i view f =
      elim (Bool-cases (is_undefined (iree_to_onnx_element_type view.element_type))) [
        | inl e ↦ rw (e, deliver_view) (λ h. cc)
        | inr e ↦
            rw (e, deliver_view)
              (λ h. (
                _,
                (
                  record {
                    index = refl;
                    shape = refl;
                    element_type = refl;
                    is_defined = is_undefined_sound (iree_to_onnx_element_type view.element_type) e;
                    source = refl;
                    target = refl;
                    to_device = refl;
                    byte_length = refl;
                  },
                  null_status _ h,
                ),
                refl,
              ))
      ]

  deliver_popped-Transferred :
      (device : Option ℕ) (i : ℕ) (popped : Result ℕ) (f : Factory W)
      → let r = deliver_popped rt hal kernel device i popped f in
        r.status ≡ none
        → (v : ℕ) × (y : W) × (o : Output) × (popped ≡ ok v)
          × Transferred device i (hal.view v f.world) f.world y o
          × (r.factory.world ≡ kernel.release_view v y)
          × (r.events ≡ made v ∷ delivered o ∷ released v ∷ [])
  unfolding deliver_popped
  deliver_popped-Transferred device i (err status) f = λ h. cc
  deliver_popped-Transferred device i (ok v) f = λ h.
      let (o, transfers, events) = deliver_view-Transferred device i (hal.view v f.world) f h in
      (v, _, o, refl, transfers, refl, ap (λ es. made v ∷ (es ++ released v ∷ [])) events)

  pub deliver_outputs-Delivered :
      (device : Option ℕ) (n i : ℕ) (f : Factory W)
      → let r = deliver_outputs rt hal kernel device n i f in
        r.status ≡ none → Delivered hal kernel device n i r.events f.world r.factory.world
  unfolding deliver_outputs Transferred
  deliver_outputs-Delivered device zero i f = λ h. done
  deliver_outputs-Delivered device (suc n) i f =
      let (popped, w) = kernel.pop_output f.world in
      let r = deliver_popped rt hal kernel device i popped (at_world f w) in
      let rest = deliver_outputs rt hal kernel device n (suc i) r.factory in
      λ h.
        let (one, more, events) = after-none r rest h in
        let (v, y, o, is_popped, (is_output, transfers), left, round) =
          deliver_popped-Transferred device i popped (at_world f w) one in
        let later =
          subst (λ z. Delivered hal kernel device n (suc i) rest.events z rest.factory.world) left
            (deliver_outputs-Delivered device n (suc i) r.factory more) in
        subst
          (λ (g : Factory W).
            Delivered hal kernel device (suc n) i (after r rest).events f.world g.world)
          (sym (after-factory r rest one))
          (subst (λ es. Delivered hal kernel device (suc n) i es f.world rest.factory.world)
            (sym (events ∙ ap (λ es. es ++ rest.events) round))
            (next v w y o (λ k. (is_popped k, w)) is_output transfers later))
