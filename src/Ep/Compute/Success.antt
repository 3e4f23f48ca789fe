-- ===== src/Ep/Compute/Success.antt =====
-- What a computation that succeeds has done, in order.
use onnxruntime_ep_iree.Common.{
  ℕ, ◌≡◌, refl, sym, ap, ◌∙◌, List, [], ◌∷◌, ◌++◌, Option, none, some, subst,
}
use onnxruntime_ep_iree.Wrappers.{Status}
use onnxruntime_ep_iree.OrtUtils.Convert.{Hal, OrtTensor}
use onnxruntime_ep_iree.Factory.State.{Factory}
use onnxruntime_ep_iree.Factory.Cache.{Runtime, get_device_for_id}
use onnxruntime_ep_iree.Factory.CreateEp.{IreeEp}
use onnxruntime_ep_iree.Ep.Compute.{
  Kernel, Event, initialized, deinitialized, invoked, after, step, at_world, convert_inputs,
  push_inputs, deliver_outputs, call, deinitialize, after_initialize, with_call, release_events,
  release_views, compute,
}
use onnxruntime_ep_iree.Ep.Compute.Pairs.{made_events, convert_inputs-events}
use onnxruntime_ep_iree.Ep.Compute.Order.{pushed_events, Pushed, Delivered, releases, Computed}
use onnxruntime_ep_iree.Ep.Compute.Steps.{
  after-none, after-factory, null_status, convert_inputs-Converted, push_inputs-Pushed,
  deliver_outputs-Delivered,
}

module _ {W : Type 0} (rt : Runtime W) (hal : Hal W) (kernel : Kernel W) where
  -- From the initialized call to the last output, with the events in between.
  Called : Option ℕ → List ℕ → List Event → W → W → Type 0
  Called device views es w z =
      (x : W) × (y : W) × (outputs : List Event) × Pushed kernel views w x
      × (kernel.invoke x ≡ (none, y))
      × Delivered hal kernel device (kernel.output_count y) 0 outputs y z
      × (es ≡ pushed_events views ++ (invoked (kernel.output_count y) ∷ outputs))

  call-Called :
      (device : Option ℕ) (views : List ℕ) (f : Factory W)
      → let r = call rt hal kernel device views f in
        r.status ≡ none → Called device views r.events f.world r.factory.world
  unfolding call Called
  call-Called device views f =
      let pushes = push_inputs rt hal kernel views f in
      let (status, w) = kernel.invoke pushes.factory.world in
      let n = kernel.output_count w in
      let invocation = step (invoked n ∷ []) pushes.factory (status, w) in
      let deliveries = deliver_outputs rt hal kernel device n 0 invocation.factory in
      λ h.
        let (pushed_fine, more, events) = after-none pushes (after invocation deliveries) h in
        let (invoked_fine, delivered_fine, later) = after-none invocation deliveries more in
        let (pushes_views, pushed_views) = push_inputs-Pushed rt hal kernel views f pushed_fine in
        let last =
          after-factory pushes (after invocation deliveries) pushed_fine
          ∙ after-factory invocation deliveries invoked_fine in
        (
          pushes.factory.world,
          w,
          deliveries.events,
          pushes_views,
          null_status (status, w) invoked_fine,
          subst (λ (g : Factory W). Delivered hal kernel device n 0 deliveries.events w g.world)
              (sym last)
              (deliver_outputs-Delivered rt hal kernel device n 0 invocation.factory
                delivered_fine),
          events
              ∙ ap (λ es. es ++ (after invocation deliveries).events) pushed_views
              ∙ ap (λ es. pushed_events views ++ es) later,
        )

  after_initialize-Called :
      (device : Option ℕ) (views : List ℕ) (f : Factory W) (p : Option Status × W)
      → let r = after_initialize rt hal kernel device views f p in
        r.status ≡ none
        → (es : List Event) × (z : W) × (p.0 ≡ none)
          × Called device views es p.1 z
          × (r.factory.world ≡ kernel.deinitialize z)
          × (r.events ≡ initialized ∷ (es ++ deinitialized ∷ []))
  unfolding after_initialize deinitialize
  after_initialize-Called device views f (some status, w) = λ h. cc
  after_initialize-Called device views f (none, w) =
      λ h. (_, _, refl, call-Called device views (at_world f w) h, refl, refl)

  release_views-releases :
      (views : List ℕ) (f : Factory W)
      → (release_views rt hal kernel views f).world ≡ releases kernel views f.world
  unfolding release_views
  release_views-releases [] f = refl
  release_views-releases (v ∷ views) f =
      release_views-releases views (at_world f (kernel.release_view v f.world))

  -- If `ComputeImpl` succeeds, then in this order, each step in the state of the runtime that the
  -- one before it left: each input was converted to a view, the call was initialized, all views
  -- were pushed in the order of the inputs, the function was invoked, every output that the call
  -- has after that was popped and delivered once under its own index, with the shape, the type and
  -- all the bytes of the popped view and in the direction that its memory asks for, its view was
  -- released, the call was deinitialized, and the views of the inputs were released.
  pub compute-Computed :
      (ep : IreeEp) (inputs : List OrtTensor) (f : Factory W)
      → let r = compute rt hal kernel ep inputs f in
        let looked_up = get_device_for_id rt ep.device_id f in
        r.status ≡ none
        → Computed hal kernel looked_up.0 inputs r.events looked_up.1.world r.factory.world
  unfolding compute with_call Called
  compute-Computed ep inputs f =
      let (device, g) = get_device_for_id rt ep.device_id f in
      let (views, first) = convert_inputs rt hal kernel device inputs g in
      let start = kernel.initialize first.factory.world in
      let rest = with_call rt hal kernel device views first.factory in
      λ h.
        let (converted, more, events) = after-none first rest h in
        let (es, z, fine, (x, y, outputs, pushes, invokes, delivers, called), left, body) =
          after_initialize-Called device views first.factory start more in
        record {
          views = views;
          outputs = outputs;
          after_conversion = first.factory.world;
          after_initialization = start.1;
          after_pushes = x;
          after_invoke = y;
          after_outputs = z;
          converts = convert_inputs-Converted rt hal kernel device inputs g converted;
          initializes = null_status start fine;
          pushes = pushes;
          invokes = invokes;
          delivers = delivers;
          ends =
              release_views-releases views (after first rest).factory
              ∙ ap (λ (k : Factory W). releases kernel views k.world)
                  (after-factory first rest converted)
              ∙ ap (releases kernel views) left;
          in_order =
              ap (λ l. l ++ release_events views)
                (events
                  ∙ ap (λ l. l ++ rest.events) (convert_inputs-events rt hal kernel device inputs g)
                  ∙ ap (λ l. made_events views ++ l)
                      (body ∙ ap (λ l. initialized ∷ (l ++ deinitialized ∷ [])) called));
        }
