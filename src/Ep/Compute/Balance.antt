-- ===== src/Ep/Compute/Balance.antt =====
-- The references to views and the runtime call of a computation, on every path.
use onnxruntime_ep_iree.Common.{
  tally, tally-append, ℕ, zero, suc, ◌+◌, ◌≡◌, refl, sym, inl, inr, Bool, List, [], ◌∷◌, ◌++◌,
  Option, none, some, arith, Option-cases, Bool-cases,
}
use onnxruntime_ep_iree.Wrappers.{Status, Result, ok, err}
use onnxruntime_ep_iree.OrtUtils.{iree_to_onnx_element_type}
use onnxruntime_ep_iree.OrtUtils.Convert.{Hal, OrtTensor, View}
use onnxruntime_ep_iree.Factory.State.{Factory}
use onnxruntime_ep_iree.Factory.Cache.{Runtime, get_device_for_id}
use onnxruntime_ep_iree.Factory.CreateEp.{IreeEp}
use onnxruntime_ep_iree.Ep.Compute.{
  Kernel, Event, pushed, invoked, Ran, after, step, at_world, is_undefined, convert_inputs,
  after_initialize, push_inputs, deliver_view, deliver_popped, deliver_outputs, call, deinitialize,
  with_call, release_events, compute,
}
use onnxruntime_ep_iree.Ep.Compute.Pairs.{
  is_made, is_released, is_initialized, is_deinitialized, Even, Even-append, Pair, Pair-views,
  Pair-call, made_events, convert_inputs-events,
}

module _ (p q : Event → Bool) (pair : Pair p q) where
  after-Even :
      {W : Type 0} (r rest : Ran W)
      → Even p q r.events
      → Even p q rest.events
      → Even p q (after r rest).events
  unfolding after
  after-Even r rest h k = elim (Option-cases r.status) [
    | inr (status, e) ↦ rw (e, after) h
    | inl e ↦ rw (e, after) (Even-append p q r.events rest.events h k)
  ]

  views-Even :
      (vs : List ℕ)
      → tally p (made_events vs) + tally p (release_events vs)
        ≡ tally q (made_events vs) + tally q (release_events vs)
  unfolding tally
  views-Even [] = refl
  views-Even (v ∷ vs) =
      let ih = views-Even vs in
      let one = pair.0 v [] refl in unfold tally in ground (arith, ih, one)

  -- Releasing the views makes up for having made them.
  released-Even :
      {W : Type 0} (vs : List ℕ) (first rest : Ran W)
      → first.events ≡ made_events vs
      → Even p q rest.events
      → Even p q ((after first rest).events ++ release_events vs)
  unfolding after
  released-Even vs first rest made_all h =
      let views = views-Even vs in
      elim (Option-cases first.status) [
        | inr (status, e) ↦
            rw (e, after, made_all)
              (omega (
                arith,
                views,
                tally-append p (made_events vs) (release_events vs),
                tally-append q (made_events vs) (release_events vs),
              ))
        | inl e ↦
            rw (e, after, made_all)
              (omega (
                arith,
                views,
                h,
                tally-append p (made_events vs ++ rest.events) (release_events vs),
                tally-append q (made_events vs ++ rest.events) (release_events vs),
                tally-append p (made_events vs) rest.events,
                tally-append q (made_events vs) rest.events,
              ))
      ]

  module _ {W : Type 0} (rt : Runtime W) (hal : Hal W) (kernel : Kernel W) where
    push_inputs-Even :
        (views : List ℕ) (f : Factory W) → Even p q (push_inputs rt hal kernel views f).events
    unfolding push_inputs tally
    push_inputs-Even [] f = refl
    push_inputs-Even (v ∷ views) f =
        let r = step (pushed v ∷ []) f (kernel.push_input v f.world) in
        after-Even r (push_inputs rt hal kernel views r.factory) (pair.2 v)
          (push_inputs-Even views r.factory)

    deliver_view-Even :
        (device : Option ℕ) (i : ℕ) (view : View) (f : Factory W)
        → Even p q (deliver_view rt hal kernel device i view f).events
    unfolding deliver_view tally
    deliver_view-Even device i view f =
        elim (Bool-cases (is_undefined (iree_to_onnx_element_type view.element_type))) [
          | inl e ↦ rw (e, deliver_view) refl
          | inr e ↦ rw (e, deliver_view) (pair.4 _)
        ]

    deliver_popped-Even :
        (device : Option ℕ) (i : ℕ) (popped : Result ℕ) (f : Factory W)
        → Even p q (deliver_popped rt hal kernel device i popped f).events
    unfolding deliver_popped tally
    deliver_popped-Even device i (err status) f = refl
    deliver_popped-Even device i (ok v) f =
        pair.0 v (deliver_view rt hal kernel device i (hal.view v f.world) f).events
          (deliver_view-Even device i (hal.view v f.world) f)

    deliver_outputs-Even :
        (device : Option ℕ) (n i : ℕ) (f : Factory W)
        → Even p q (deliver_outputs rt hal kernel device n i f).events
    unfolding deliver_outputs tally
    deliver_outputs-Even device zero i f = refl
    deliver_outputs-Even device (suc n) i f =
        let (popped, w) = kernel.pop_output f.world in
        let r = deliver_popped rt hal kernel device i popped (at_world f w) in
        after-Even r (deliver_outputs rt hal kernel device n (suc i) r.factory)
          (deliver_popped-Even device i popped (at_world f w))
          (deliver_outputs-Even device n (suc i) r.factory)

    call-Even :
        (device : Option ℕ) (views : List ℕ) (f : Factory W)
        → Even p q (call rt hal kernel device views f).events
    unfolding call
    call-Even device views f =
        let pushes = push_inputs rt hal kernel views f in
        let (status, w) = kernel.invoke pushes.factory.world in
        let n = kernel.output_count w in
        let invocation = step (invoked n ∷ []) pushes.factory (status, w) in
        after-Even pushes
          (after invocation (deliver_outputs rt hal kernel device n 0 invocation.factory))
          (push_inputs-Even views f)
          (after-Even invocation (deliver_outputs rt hal kernel device n 0 invocation.factory)
            (pair.3 n) (deliver_outputs-Even device n 0 invocation.factory))

    after_initialize-Even :
        (device : Option ℕ) (views : List ℕ) (f : Factory W) (r : Option Status × W)
        → Even p q (after_initialize rt hal kernel device views f r).events
    unfolding after_initialize deinitialize tally
    after_initialize-Even device views f (some status, w) = refl
    after_initialize-Even device views f (none, w) =
        pair.1 (call rt hal kernel device views (at_world f w)).events
          (call-Even device views (at_world f w))

    compute-Even :
        (ep : IreeEp) (inputs : List OrtTensor) (f : Factory W)
        → Even p q (compute rt hal kernel ep inputs f).events
    unfolding compute with_call
    compute-Even ep inputs f =
        let (device, g) = get_device_for_id rt ep.device_id f in
        let (views, first) = convert_inputs rt hal kernel device inputs g in
        released-Even views first (with_call rt hal kernel device views first.factory)
          (convert_inputs-events rt hal kernel device inputs g)
          (after_initialize-Even device views first.factory (kernel.initialize first.factory.world))

module _ {W : Type 0} (rt : Runtime W) (hal : Hal W) (kernel : Kernel W) where
  -- On every path of `ComputeImpl`, each view is released exactly as often as a reference to it was
  -- given: the views of the inputs, also where a later input or the call fails, and those of the
  -- outputs.
  pub compute-views :
      (ep : IreeEp) (inputs : List OrtTensor) (f : Factory W) (view : ℕ)
      → let events = (compute rt hal kernel ep inputs f).events in
        tally (is_released view) events ≡ tally (is_made view) events
  compute-views ep inputs f view =
      sym
        (compute-Even (is_made view) (is_released view) (Pair-views view) rt hal kernel ep inputs f)

  -- On every path of `ComputeImpl`, the runtime call is deinitialized exactly as often as it was
  -- initialized.
  pub compute-call :
      (ep : IreeEp) (inputs : List OrtTensor) (f : Factory W)
      → let events = (compute rt hal kernel ep inputs f).events in
        tally is_deinitialized events ≡ tally is_initialized events
  compute-call ep inputs f =
      sym (compute-Even is_initialized is_deinitialized Pair-call rt hal kernel ep inputs f)
