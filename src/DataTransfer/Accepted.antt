-- ===== src/DataTransfer/Accepted.antt =====
-- The copies that `CanCopyImpl` accepts are performed.
use onnxruntime_ep_iree.Common.{
  ℕ, ◌*◌, ◌%◌, ◌≡◌, refl, sym, subst, inl, inr, true, false, List, [], ◌∷◌, ◌++◌, Option, some,
  ◌==◌, Text, Bool-cases,
}
use onnxruntime_ep_iree.OrtUtils.{onnx_element_type_size, size_mod}
use onnxruntime_ep_iree.Wrappers.{Status}
use onnxruntime_ep_iree.Factory.State.{find}
use onnxruntime_ep_iree.Factory.Cache.{Runtime, get_device_for_id}
use onnxruntime_ep_iree.Factory.Cache.Laws.{get_device_for_id_cached}
use onnxruntime_ep_iree.DataTransfer.{
  MemoryDevice, is_iree, can_copy, Tensor, Direction, device_to_host, host_to_device,
  device_to_device, Transfer, State, run, copy_by, copy_between, copy_tensor,
}
use onnxruntime_ep_iree.DataTransfer.Copies.{Moves, to_host, to_device, on_device, CopyOf}

module _ {W : Type 0} (rt : Runtime W) (transfer : List Transfer → Transfer → Option Status) where
  -- The result of a copy is that of one transfer, which copies `src` to `dst`.
  abbrev pub Performs : Tensor → Tensor → State W → Option Status × State W → Type 0
  Performs src dst s r =
      (t : Transfer) × CopyOf src dst t s.factory
      × (r ≡ (
        transfer s.transfers t,
        record { factory = s.factory; transfers = s.transfers ++ t ∷ [] },
      ))

  performed :
      (message : Text) (direction : Direction) (src dst : Tensor) (a b : MemoryDevice) (id h : ℕ)
      (s : State W)
      → src.memory_device ≡ some a
      → dst.memory_device ≡ some b
      → Moves a b direction id
      → find id s.factory.device_cache ≡ some h
      → Performs src dst s (
          run rt transfer message direction src dst
            ((src.element_count * onnx_element_type_size src.element_type) % size_mod)
            s.transfers
            (get_device_for_id rt id s.factory))
  unfolding run
  performed message direction src dst a b id h s ea eb m found = (
    record {
      direction = direction;
      device = h;
      source = src.raw;
      target = dst.raw;
      byte_size = (src.element_count * onnx_element_type_size src.element_type) % size_mod;
    },
    record {
      from = a;
      to = b;
      id = id;
      from_memory = ea;
      to_memory = eb;
      moves = m;
      held = found;
      source = refl;
      target = refl;
      byte_size = refl;
    },
    rw (get_device_for_id_cached rt id h s.factory found, run),
  )

  copy_between-Performs :
      (a b : MemoryDevice) (src dst : Tensor) (s : State W)
      → src.memory_device ≡ some a
      → dst.memory_device ≡ some b
      → can_copy a b ≡ true
      → (onnx_element_type_size src.element_type == 0) ≡ false
      → (is_iree a ≡ true → (h : ℕ) × (find a.device_id s.factory.device_cache ≡ some h))
      → (is_iree b ≡ true → (h : ℕ) × (find b.device_id s.factory.device_cache ≡ some h))
      → Performs src dst s (copy_between rt transfer (some a) (some b) src dst s)
  unfolding copy_between copy_by can_copy
  copy_between-Performs a b src dst s ea eb accepted supported from_opened to_opened =
      elim (Bool-cases (is_iree a)) [
        | inl x ↦
            let (h, found) = from_opened x in
            elim (Bool-cases (is_iree b)) [
              | inl y ↦
                  rw (supported, x, y, copy_between, copy_by)
                    (performed _ device_to_device src dst a b a.device_id h s ea eb (on_device x y)
                      found)
              | inr y ↦
                  rw (supported, x, y, copy_between, copy_by)
                    (performed _ device_to_host src dst a b a.device_id h s ea eb (to_host x y)
                      found)
            ]
        | inr x ↦ elim (Bool-cases (is_iree b)) [
          | inl y ↦
              let (h, found) = to_opened y in
              rw (supported, x, y, copy_between, copy_by)
                (performed _ host_to_device src dst a b b.device_id h s ea eb (to_device x y) found)
          | inr y ↦ cc (rw (x, y) at accepted)
        ]
      ]

  -- If `CanCopyImpl` accepts the memories of two tensors, the element type is supported, and the
  -- devices of those of the two memories that are on IREE devices are open: the round of
  -- `CopyTensorsImpl` for the pair makes exactly one transfer, the status of which it returns, in the
  -- direction of the memories, of all the bytes, and between two IREE devices on that of the source,
  -- and it leaves the factory as it is.
  pub copy_tensor-Performs :
      (a b : MemoryDevice) (src dst : Tensor) (s : State W)
      → src.memory_device ≡ some a
      → dst.memory_device ≡ some b
      → can_copy a b ≡ true
      → (onnx_element_type_size src.element_type == 0) ≡ false
      → (is_iree a ≡ true → (h : ℕ) × (find a.device_id s.factory.device_cache ≡ some h))
      → (is_iree b ≡ true → (h : ℕ) × (find b.device_id s.factory.device_cache ≡ some h))
      → Performs src dst s (copy_tensor rt transfer src dst s)
  unfolding copy_tensor
  copy_tensor-Performs a b src dst s ea eb accepted supported from_opened to_opened =
      subst (λ o. Performs src dst s (copy_between rt transfer o dst.memory_device src dst s))
        (sym ea)
        (subst (λ o. Performs src dst s (copy_between rt transfer (some a) o src dst s)) (sym eb)
          (copy_between-Performs a b src dst s ea eb accepted supported from_opened to_opened))
