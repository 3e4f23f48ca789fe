-- ===== src/Ep/Compute/Pairs.antt =====
-- The events that come in pairs: views made and released, the call initialized and the reverse.
use onnxruntime_ep_iree.Common.{
  tally, tally-append, ℕ, ◌≡◌, refl, ap, Bool, true, false, List, [], ◌∷◌, ◌++◌, Option, arith,
  ◌==◌,
}
use onnxruntime_ep_iree.Wrappers.{Result, ok, err}
use onnxruntime_ep_iree.OrtUtils.Convert.{Hal, OrtTensor, ort_tensor_to_iree_buffer_view}
use onnxruntime_ep_iree.Factory.State.{Factory}
use onnxruntime_ep_iree.Factory.Cache.{Runtime}
use onnxruntime_ep_iree.Ep.Compute.{
  Kernel, Output, Event, made, released, initialized, deinitialized, pushed, invoked, delivered,
  Ran, at_world, convert_inputs, with_view,
}

abbrev pub is_made : ℕ → Event → Bool
is_made b (made v) = v == b
is_made b _ = false

abbrev pub is_released : ℕ → Event → Bool
is_released b (released v) = v == b
is_released b _ = false

abbrev pub is_initialized : Event → Bool
is_initialized initialized = true
is_initialized _ = false

abbrev pub is_deinitialized : Event → Bool
is_deinitialized deinitialized = true
is_deinitialized _ = false

-- Both kinds occur equally often.
abbrev pub Even : (p q : Event → Bool) → List Event → Type 0
Even p q es = tally p es ≡ tally q es

pub Even-append :
    (p q : Event → Bool) (xs ys : List Event) → Even p q xs → Even p q ys → Even p q (xs ++ ys)
Even-append p q xs ys h k = omega (arith, h, k, tally-append p xs ys, tally-append q xs ys)

-- References taken and given back, or initializations of the call and the reverse.
abbrev pub Pair : (p q : Event → Bool) → Type 0
Pair p q =
    ((v : ℕ) (es : List Event) → Even p q es → Even p q (made v ∷ (es ++ released v ∷ [])))
    × ((es : List Event) → Even p q es → Even p q (initialized ∷ (es ++ deinitialized ∷ [])))
    × ((v : ℕ) → Even p q (pushed v ∷ []))
    × ((n : ℕ) → Even p q (invoked n ∷ []))
    × ((o : Output) → Even p q (delivered o ∷ []))

pub Pair-views : (b : ℕ) → Pair (is_made b) (is_released b)
unfolding tally
Pair-views b = (
  λ v es h. ground (
    arith,
    h,
    tally-append (is_made b) es (released v ∷ []),
    tally-append (is_released b) es (released v ∷ []),
  ),
  λ es h. ground (
    arith,
    h,
    tally-append (is_made b) es (deinitialized ∷ []),
    tally-append (is_released b) es (deinitialized ∷ []),
  ),
  λ v. refl,
  λ n. refl,
  λ o. refl,
)

pub Pair-call : Pair is_initialized is_deinitialized
unfolding tally
Pair-call = (
  λ v es h. ground (
    arith,
    h,
    tally-append is_initialized es (released v ∷ []),
    tally-append is_deinitialized es (released v ∷ []),
  ),
  λ es h. ground (
    arith,
    h,
    tally-append is_initialized es (deinitialized ∷ []),
    tally-append is_deinitialized es (deinitialized ∷ []),
  ),
  λ v. refl,
  λ n. refl,
  λ o. refl,
)

-- The events of the conversion are its views, also where it fails.
abbrev pub made_events : List ℕ → List Event
made_events [] = []
made_events (v ∷ views) = made v ∷ made_events views

module _ {W : Type 0} (rt : Runtime W) (hal : Hal W) (kernel : Kernel W) where
  with_view-events :
      (f : Factory W) (view : Result ℕ × W) (rest : List ℕ × Ran W)
      → rest.1.events ≡ made_events rest.0
      → let r = with_view rt hal kernel f view rest in r.1.events ≡ made_events r.0
  unfolding with_view
  with_view-events f (err status, w) rest h = refl
  with_view-events f (ok v, w) (views, r) h = ap (λ es. made v ∷ es) h

  pub convert_inputs-events :
      (device : Option ℕ) (inputs : List OrtTensor) (f : Factory W)
      → let r = convert_inputs rt hal kernel device inputs f in r.1.events ≡ made_events r.0
  unfolding convert_inputs
  convert_inputs-events device [] f = refl
  convert_inputs-events device (input ∷ inputs) f =
      let view = ort_tensor_to_iree_buffer_view hal device input f.world in
      with_view-events f view (convert_inputs rt hal kernel device inputs (at_world f view.1))
        (convert_inputs-events device inputs (at_world f view.1))
