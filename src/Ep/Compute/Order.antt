-- ===== src/Ep/Compute/Order.antt =====
-- The order of the events of a computation that succeeds.
use onnxruntime_ep_iree.Common.{ℕ, suc, ◌≡◌, ◌≢◌, List, [], ◌∷◌, ◌++◌, Option, none}
use onnxruntime_ep_iree.Wrappers.{ok}
use onnxruntime_ep_iree.OrtUtils.{undefined, iree_to_onnx_element_type, get_buffer_view_shape}
use onnxruntime_ep_iree.OrtUtils.Convert.{
  Hal, OrtTensor, View, on_device, ort_tensor_to_iree_buffer_view,
}
use onnxruntime_ep_iree.Ep.Compute.{
  Kernel, Output, Event, made, released, initialized, deinitialized, pushed, invoked, delivered,
  release_events,
}
use onnxruntime_ep_iree.Ep.Compute.Pairs.{made_events}

abbrev pub pushed_events : List ℕ → List Event
pushed_events [] = []
pushed_events (v ∷ views) = pushed v ∷ pushed_events views

-- One view for each input, which is what its conversion gave, in the order of the inputs: each in the
-- state of the runtime that the one before it left.
pub data Converted {W : Type 0} (hal : Hal W) (device : Option ℕ)
    : List OrtTensor → List ℕ → W → W → Type 0 where
  converted_all : {w : W} → Converted hal device [] [] w w
  convert :
      {input : OrtTensor} {inputs : List OrtTensor} {v : ℕ} {views : List ℕ} {w x y : W}
      → ort_tensor_to_iree_buffer_view hal device input w ≡ (ok v, x)
      → Converted hal device inputs views x y
      → Converted hal device (input ∷ inputs) (v ∷ views) w y

-- The views are pushed, in order.
pub data Pushed {W : Type 0} (kernel : Kernel W) : List ℕ → W → W → Type 0 where
  pushed_all : {w : W} → Pushed kernel [] w w
  push :
      {v : ℕ} {views : List ℕ} {w x y : W}
      → kernel.push_input v w ≡ (none, x)
      → Pushed kernel views x y
      → Pushed kernel (v ∷ views) w y

-- Output `i` is asked for, in the state `w`, with the shape and the type of a view, and receives the
-- whole buffer of the view, in the direction that its memory asks for.
pub record IsOutput {W : Type 0} (kernel : Kernel W) (i : ℕ) (view : View) (w : W) (o : Output)
    : Type 0 where
  pub index : o.index ≡ i
  pub shape : o.shape ≡ get_buffer_view_shape view.dims
  pub element_type : o.element_type ≡ iree_to_onnx_element_type view.element_type
  pub is_defined : o.element_type ≢ undefined
  pub source : o.transfer.source ≡ view.buffer
  pub target : o.transfer.target ≡ (kernel.get_output i o.shape w).0.raw
  pub to_device : o.transfer.to_device ≡ on_device (kernel.get_output i o.shape w).0.vendor_id
  pub byte_length : o.transfer.byte_length ≡ view.byte_length

-- `n` outputs from `i` on: a view is popped from the call, its output is transferred, and the view is
-- released in the same round.
pub data Delivered {W : Type 0} (hal : Hal W) (kernel : Kernel W) (device : Option ℕ)
    : ℕ → ℕ → List Event → W → W → Type 0 where
  done : {i : ℕ} {w : W} → Delivered hal kernel device 0 i [] w w
  next :
      {n i : ℕ} {es : List Event} {w z : W} (v : ℕ) (x y : W) (o : Output)
      → kernel.pop_output w ≡ (ok v, x)
      → IsOutput kernel i (hal.view v x) x o
      → hal.transfer device o.transfer (kernel.get_output i o.shape x).1 ≡ (none, y)
      → Delivered hal kernel device n (suc i) es (kernel.release_view v y) z
      → Delivered hal kernel device (suc n) i (made v ∷ delivered o ∷ released v ∷ es) w z

-- What the releases of the views leave.
abbrev pub releases : {W : Type 0} → Kernel W → List ℕ → W → W
releases kernel [] w = w
releases kernel (v ∷ views) w = releases kernel views (kernel.release_view v w)

-- A computation from the state `before` to the state `end`, step by step: all views are made, the
-- call is initialized, all views are pushed, the function is invoked, the outputs that the call has
-- then are delivered, the call is deinitialized and the views are released; and its events.
pub record Computed {W : Type 0} (hal : Hal W) (kernel : Kernel W) (device : Option ℕ)
    (inputs : List OrtTensor) (events : List Event) (before end : W) : Type 0 where
  pub views : List ℕ
  pub outputs : List Event
  pub after_conversion : W
  pub after_initialization : W
  pub after_pushes : W
  pub after_invoke : W
  pub after_outputs : W
  pub converts : Converted hal device inputs views before after_conversion
  pub initializes : kernel.initialize after_conversion ≡ (none, after_initialization)
  pub pushes : Pushed kernel views after_initialization after_pushes
  pub invokes : kernel.invoke after_pushes ≡ (none, after_invoke)
  pub delivers :
      Delivered hal kernel device
        (kernel.output_count after_invoke)
        0
        outputs
        after_invoke
        after_outputs
  pub ends : end ≡ releases kernel views (kernel.deinitialize after_outputs)
  pub in_order :
      events
      ≡ (made_events views
          ++ (initialized
              ∷ ((pushed_events views ++ (invoked (kernel.output_count after_invoke) ∷ outputs))
                  ++ deinitialized ∷ [])))
        ++ release_events views
