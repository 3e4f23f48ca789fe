-- ===== src/Ep/Compute.antt =====
-- `ComputeImpl` of src/iree_ep.cc, with `RuntimeCall` and the pointers to buffer views of
-- src/iree_wrappers.h. The HAL is that of OrtUtils/Convert; the calls on the runtime call and on the
-- kernel context are the fields of `Kernel`, where a status is null on success.
pub mod Pairs
pub mod Balance
pub mod Order
pub mod Steps
pub mod Success
pub mod Keeps
pub mod Complete
use onnxruntime_ep_iree.Common.{
  ℕ, zero, suc, Bool, true, false, List, [], ◌∷◌, ◌++◌, Option, none, some, if◌then◌else◌, codes,
}
use onnxruntime_ep_iree.Common.Decimal.{ℤ}
use onnxruntime_ep_iree.Wrappers.{Status, Result, ok, err, ort_not_implemented}
use onnxruntime_ep_iree.OrtUtils.{
  OnnxType, undefined, iree_to_onnx_element_type, get_buffer_view_shape,
}
use onnxruntime_ep_iree.OrtUtils.Convert.{
  Hal, OrtTensor, View, OutputTransfer, ort_tensor_to_iree_buffer_view, output_transfer,
  iree_buffer_view_to_ort_tensor,
}
use onnxruntime_ep_iree.Factory.State.{Factory}
use onnxruntime_ep_iree.Factory.Cache.{Runtime}
use onnxruntime_ep_iree.Factory.CreateEp.{IreeEp, iree_device}

-- The runtime call, `ctx.GetOutput`, and the release of a view.
pub record Kernel (W : Type 0) : Type 0 where
  pub initialize : W → Option Status × W
  pub deinitialize : W → W
  pub push_input : ℕ → W → Option Status × W
  pub invoke : W → Option Status × W
  pub output_count : W → ℕ
  pub pop_output : W → Result ℕ × W
  pub get_output : ℕ → List ℤ → W → OrtTensor × W
  pub release_view : ℕ → W → W

-- An output tensor that was asked for, and its transfer.
pub record Output : Type 0 where
  pub index : ℕ
  pub shape : List ℤ
  pub element_type : OnnxType
  pub transfer : OutputTransfer

-- What a computation does, by the effects that matter: the references to views that it is given and
-- that it releases, the runtime call, and the outputs.
pub data Event : Type 0 where
  made : ℕ → Event
  released : ℕ → Event
  initialized : Event
  deinitialized : Event
  pushed : ℕ → Event
  invoked : ℕ → Event
  delivered : Output → Event

-- A status, null on success, what was done, and the factory afterwards, in which the state of the
-- runtime stands.
pub record Ran (W : Type 0) : Type 0 where
  pub status : Option Status
  pub events : List Event
  pub factory : Factory W

abbrev pub at_world : {W : Type 0} → Factory W → W → Factory W
at_world f w = record f { world = w }

-- A return on an error leaves the rest out.
unfoldable pub after : {W : Type 0} → Ran W → Ran W → Ran W
after r rest = elim r.status [
  | some status ↦ r
  | none ↦ record { status = rest.status; events = r.events ++ rest.events; factory = rest.factory }
]

-- A destructor: it runs whatever the status is.
abbrev pub finally : {W : Type 0} → Ran W → List Event → Factory W → Ran W
finally r events f = record { status = r.status; events = r.events ++ events; factory = f }

-- A call of the runtime and its effect.
abbrev pub step : {W : Type 0} → List Event → Factory W → Option Status × W → Ran W
step events f (status, w) = record { status = status; events = events; factory = at_world f w }

abbrev pub release_events : List ℕ → List Event
release_events [] = []
release_events (v ∷ views) = released v ∷ release_events views

abbrev pub is_undefined : OnnxType → Bool
is_undefined undefined = true
is_undefined _ = false

module _ {W : Type 0} (rt : Runtime W) (hal : Hal W) (kernel : Kernel W) where
  -- The view of one input, in front of those of the inputs after it.
  unfoldable pub with_view : Factory W → Result ℕ × W → List ℕ × Ran W → List ℕ × Ran W
  with_view f (err status, w) rest =
      ([], record { status = some status; events = []; factory = at_world f w })
  with_view f (ok v, w) (views, r) =
      (v ∷ views, record { status = r.status; events = made v ∷ r.events; factory = r.factory })

  -- The views of the inputs up to the first that fails, and the run up to there.
  unfoldable pub convert_inputs : Option ℕ → List OrtTensor → Factory W → List ℕ × Ran W
  unfolding with_view
  convert_inputs device [] f = ([], record { status = none; events = []; factory = f })
  convert_inputs device (input ∷ inputs) f =
      let view = ort_tensor_to_iree_buffer_view hal device input f.world in
      let rest = convert_inputs device inputs (at_world f view.1) in with_view f view rest

  -- The destructor of `input_views`.
  unfoldable pub release_views : List ℕ → Factory W → Factory W
  release_views [] f = f
  release_views (v ∷ views) f = release_views views (at_world f (kernel.release_view v f.world))

  unfoldable pub push_inputs : List ℕ → Factory W → Ran W
  push_inputs [] f = record { status = none; events = []; factory = f }
  push_inputs (v ∷ views) f =
      let r = step (pushed v ∷ []) f (kernel.push_input v f.world) in
      let rest = push_inputs views r.factory in after r rest

  -- The rest of a round, with the view that was popped.
  unfoldable pub deliver_view : Option ℕ → ℕ → View → Factory W → Ran W
  deliver_view device i view f =
      let element_type = iree_to_onnx_element_type view.element_type in
      let shape = get_buffer_view_shape view.dims in
      let (output, w) = kernel.get_output i shape f.world in
      if is_undefined element_type
      then record {
        status = some (record {
          code = ort_not_implemented;
          message = codes "IREE EP: Unsupported output element type";
        });
        events = [];
        factory = f;
      }
      else step
          (delivered (record {
            index = i;
            shape = shape;
            element_type = element_type;
            transfer = output_transfer view output;
          })
            ∷ [])
          f (iree_buffer_view_to_ort_tensor hal device view output w)

  -- `output_view_ptr` releases the view at the end of the round.
  unfoldable pub deliver_popped : Option ℕ → ℕ → Result ℕ → Factory W → Ran W
  deliver_popped device i (err status) f = record { status = some status; events = []; factory = f }
  deliver_popped device i (ok v) f =
      let r = deliver_view device i (hal.view v f.world) f in
      record {
        status = r.status;
        events = made v ∷ (r.events ++ released v ∷ []);
        factory = at_world r.factory (kernel.release_view v r.factory.world);
      }

  -- The rounds from `i`, of which `n` are left.
  unfoldable pub deliver_outputs : Option ℕ → ℕ → ℕ → Factory W → Ran W
  deliver_outputs device zero i f = record { status = none; events = []; factory = f }
  deliver_outputs device (suc n) i f =
      let (popped, w) = kernel.pop_output f.world in
      let r = deliver_popped device i popped (at_world f w) in
      let rest = deliver_outputs device n (suc i) r.factory in after r rest

  -- What follows `MarkInitialized`.
  unfoldable pub call : Option ℕ → List ℕ → Factory W → Ran W
  call device views f =
      let pushes = push_inputs views f in
      let (status, w) = kernel.invoke pushes.factory.world in
      let invocation = step (invoked (kernel.output_count w) ∷ []) pushes.factory (status, w) in
      after pushes
        (after invocation (deliver_outputs device (kernel.output_count w) 0 invocation.factory))

  -- `Deinitialize`, on the flag `initialized_`.
  unfoldable pub deinitialize : Bool → Ran W → Ran W
  deinitialize true r =
      finally r (deinitialized ∷ []) (at_world r.factory (kernel.deinitialize r.factory.world))
  deinitialize false r = r

  -- The flag is set if the initialization succeeds, and read by the destructor.
  unfoldable pub after_initialize : Option ℕ → List ℕ → Factory W → Option Status × W → Ran W
  unfolding deinitialize
  after_initialize device views f (some status, w) =
      deinitialize false (record { status = some status; events = []; factory = at_world f w })
  after_initialize device views f (none, w) =
      let r = call device views (at_world f w) in
      deinitialize true
        (record { status = r.status; events = initialized ∷ r.events; factory = r.factory })

  -- From the declaration of `call` to its destructor.
  unfoldable pub with_call : Option ℕ → List ℕ → Factory W → Ran W
  unfolding after_initialize
  with_call device views f = after_initialize device views f (kernel.initialize f.world)

  unfoldable pub compute : IreeEp → List OrtTensor → Factory W → Ran W
  compute ep inputs f =
      let (device, g) = iree_device rt ep f in
      let (views, conversion) = convert_inputs device inputs g in
      let r = after conversion (with_call device views conversion.factory) in
      finally r (release_events views) (release_views views r.factory)
