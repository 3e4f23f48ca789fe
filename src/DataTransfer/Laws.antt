-- ===== src/DataTransfer/Laws.antt =====
-- What `CopyTensorsImpl` does with its pairs of tensors.
use onnxruntime_ep_iree.Common.{
  ℕ, ◌≡◌, sym, ap, ◌∙◌, subst, inl, inr, true, Bool-cases, List, [], ◌∷◌, ◌++◌, Option, none,
  Option-cases, append_assoc, append-nil,
}
use onnxruntime_ep_iree.Wrappers.{Status}
use onnxruntime_ep_iree.Factory.State.{Factory}
use onnxruntime_ep_iree.Factory.Cache.{Runtime, get_device_for_id}
use onnxruntime_ep_iree.Factory.Cache.Laws.{get_device_for_id-Lookup}
use onnxruntime_ep_iree.DataTransfer.{
  MemoryDevice, Direction, is_iree, can_copy, device_to_host, host_to_device, device_to_device,
  Tensor, Transfer, State, copy_tensor, copy_tensors,
}
use onnxruntime_ep_iree.DataTransfer.Copies.{
  Moves, to_host, to_device, on_device, CopyOf, Extends, Lookup-Extends, widen,
  copy_tensor-CopiesOne, copy_tensor-keeps,
}

-- A copy that `CanCopyImpl` accepts has a direction, so `CopyTensorsImpl` does not refuse it as one
-- between two CPUs.
pub can_copy-Moves :
    (a b : MemoryDevice) → can_copy a b ≡ true → (d : Direction) × (id : ℕ) × Moves a b d id
unfolding can_copy
can_copy-Moves a b h = elim (Bool-cases (is_iree a)) [
  | inl x ↦ elim (Bool-cases (is_iree b)) [
    | inl y ↦ (device_to_device, a.device_id, on_device x y)
    | inr y ↦ (device_to_host, a.device_id, to_host x y)
  ]
  | inr x ↦ elim (Bool-cases (is_iree b)) [
    | inl y ↦ (host_to_device, b.device_id, to_device x y)
    | inr y ↦ cc (rw (x, y) at h)
  ]
]

module _ {W : Type 0} (transfer : List Transfer → Transfer → Option Status) where
  -- One transfer for each pair, in order, which succeeds after the transfers `done`.
  abbrev pub Copied : List Transfer → List (Tensor × Tensor) → List Transfer → Factory W → Type 0
  Copied done [] [] f = Unit
  Copied done ((src, dst) ∷ more) (t ∷ ts) f =
      (CopyOf src dst t f × (transfer done t ≡ none)) × Copied (done ++ t ∷ []) more ts f
  Copied done _ _ f = ⊥

module _ {W : Type 0} (rt : Runtime W) (transfer : List Transfer → Transfer → Option Status) where
  -- A property of the factory that looking up a device keeps is kept by the copies.
  pub copy_tensors-keeps :
      (P : Factory W → Type 0)
      → ((f : Factory W) (id : ℕ) → P f → P (get_device_for_id rt id f).1)
      → (ps : List (Tensor × Tensor)) (s : State W) → P s.factory
      → P (copy_tensors rt transfer ps s).1.factory
  unfolding copy_tensors
  copy_tensors-keeps P k [] s v = v
  copy_tensors-keeps P k ((src, dst) ∷ ps) s v =
      let next = (copy_tensor rt transfer src dst s).1 in
      let one = copy_tensor-keeps rt transfer P src dst s (λ id. k s.factory id v) v in
      let ih = copy_tensors-keeps P k ps next one in
      elim (Option-cases (copy_tensor rt transfer src dst s).0) [
        | inr (status, e) ↦ rw (e, copy_tensors) one
        | inl e ↦ rw (e, copy_tensors) ih
      ]

  copy_tensors-Extends :
      (ps : List (Tensor × Tensor)) (s : State W)
      → Extends s.factory (copy_tensors rt transfer ps s).1.factory
  copy_tensors-Extends ps s =
      copy_tensors-keeps (Extends s.factory)
        (λ f id e j h x. Lookup-Extends (get_device_for_id-Lookup rt id f) j h (e j h x)) ps s
        (λ j h x. x)

  -- If `CopyTensorsImpl` succeeds, it has made exactly one transfer for each pair, in order, and each
  -- of them has succeeded: in the direction that the two memories ask for, of all the bytes, and on
  -- the HAL device that the cache has for the tensor's device id.
  pub copy_tensors-Copied :
      (ps : List (Tensor × Tensor)) (s : State W)
      → let r = copy_tensors rt transfer ps s in
        r.0 ≡ none
        → (ts : List Transfer) × (r.1.transfers ≡ s.transfers ++ ts)
          × Copied transfer s.transfers ps ts r.1.factory
  unfolding copy_tensors
  copy_tensors-Copied [] s = λ h. ([], sym (append-nil s.transfers), tt)
  copy_tensors-Copied ((src, dst) ∷ ps) s =
      let next = (copy_tensor rt transfer src dst s).1 in
      elim (Option-cases (copy_tensor rt transfer src dst s).0) [
        | inr (status, e) ↦ rw (e, copy_tensors) (λ h. cc)
        | inl e ↦
            let (t, one, copy, success) = copy_tensor-CopiesOne rt transfer src dst s e in
            rw (e, copy_tensors)
              (λ h.
                let (ts, more, copies) = copy_tensors-Copied ps next h in
                (
                  t ∷ ts,
                  more ∙ ap (λ l. l ++ ts) one ∙ append_assoc s.transfers (t ∷ []) ts,
                  (
                    (
                      widen src dst t next.factory (copy_tensors rt transfer ps next).1.factory
                          (copy_tensors-Extends ps next) copy,
                      success,
                    ),
                    subst
                        (λ done.
                          Copied transfer done ps ts (copy_tensors rt transfer ps next).1.factory)
                        one copies,
                  ),
                ))
      ]
