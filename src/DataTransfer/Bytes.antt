-- ===== src/DataTransfer/Bytes.antt =====
-- What the copies of src/iree_data_transfer.cc do to the memories of the tensors. The memories are
-- those of the HAL: `contents done p i` is byte `i` at the place `p` after the transfers `done`.
use mathlib.Core.Option.{some-injective}
use onnxruntime_ep_iree.Common.{
  ℕ, ◌<◌, ◌*◌, ◌%◌, ◌≡◌, refl, sym, ap, ◌∙◌, subst, true, false, List, [], ◌∷◌, ◌++◌, Option, none,
  some, All, append_assoc,
}
use onnxruntime_ep_iree.OrtUtils.{onnx_element_type_size, size_mod}
use onnxruntime_ep_iree.Wrappers.{Status}
use onnxruntime_ep_iree.Factory.State.{Factory, find}
use onnxruntime_ep_iree.Factory.Cache.{Runtime}
use onnxruntime_ep_iree.DataTransfer.{
  MemoryDevice, is_iree, Tensor, Direction, device_to_host, host_to_device, device_to_device,
  Transfer, State, copy_tensors,
}
use onnxruntime_ep_iree.DataTransfer.Copies.{Moves, to_host, to_device, on_device, CopyOf}
use onnxruntime_ep_iree.DataTransfer.Laws.{Copied, copy_tensors-Copied}

-- Host memory at an address, or a buffer of an open HAL device.
pub data Place : Type 0 where
  host : ℕ → Place
  buffer : ℕ → ℕ → Place

-- The place that a transfer reads, and the one that it writes.
abbrev source_at : Direction → ℕ → ℕ → Place
source_at device_to_host device raw = buffer device raw
source_at host_to_device device raw = host raw
source_at device_to_device device raw = buffer device raw

abbrev target_at : Direction → ℕ → ℕ → Place
target_at device_to_host device raw = host raw
target_at host_to_device device raw = buffer device raw
target_at device_to_device device raw = buffer device raw

abbrev pub source_place : Transfer → Place
source_place t = source_at t.direction t.device t.source

abbrev pub target_place : Transfer → Place
target_place t = target_at t.direction t.device t.target

-- Where the data of a tensor is, by its memory device.
pub data At {W : Type 0} (f : Factory W) (x : Tensor) : Place → Type 0 where
  in_host : (d : MemoryDevice) → x.memory_device ≡ some d → is_iree d ≡ false → At f x (host x.raw)
  in_device :
      (d : MemoryDevice) (h : ℕ)
      → x.memory_device ≡ some d
      → is_iree d ≡ true
      → find d.device_id f.device_cache ≡ some h
      → At f x (buffer h x.raw)

-- A tensor whose IREE device, if it is on one, is the given one.
abbrev pub IsOn : ℕ → Tensor → Type 0
IsOn id x = (d : MemoryDevice) → x.memory_device ≡ some d → is_iree d ≡ true → d.device_id ≡ id

abbrev pub HasSize : ℕ → Tensor → Type 0
HasSize n x = (x.element_count * onnx_element_type_size x.element_type) % size_mod ≡ n

-- The copies from each tensor to the next one.
abbrev pub links : Tensor → List Tensor → List (Tensor × Tensor)
links x [] = []
links x (y ∷ ys) = (x, y) ∷ links y ys

abbrev pub last : Tensor → List Tensor → Tensor
last x [] = x
last x (y ∷ ys) = last y ys

module _ {W : Type 0} where
  At-unique : (f : Factory W) (x : Tensor) (p q : Place) → At f x p → At f x q → p ≡ q
  At-unique f x p q (in_host d e off) (in_host d' e' off') = refl
  At-unique f x p q (in_host d e off) (in_device d' h e' on found) =
      let same = some-injective d d' (sym e ∙ e') in cc
  At-unique f x p q (in_device d h e on found) (in_host d' e' off) =
      let same = some-injective d d' (sym e ∙ e') in cc
  At-unique f x p q (in_device d h e on found) (in_device d' h' e' on' found') =
      let same = some-injective d d' (sym e ∙ e') in
      ap (λ k. buffer k x.raw) (some-injective h h' (sym (rw same at found) ∙ found'))

  moves-At :
      (src dst : Tensor) (a b : MemoryDevice) (d : Direction) (id : ℕ) (h : ℕ) (f : Factory W)
      → src.memory_device ≡ some a
      → dst.memory_device ≡ some b
      → (is_iree a ≡ true → is_iree b ≡ true → a.device_id ≡ b.device_id)
      → Moves a b d id
      → find id f.device_cache ≡ some h
      → At f src (source_at d h src.raw) × At f dst (target_at d h dst.raw)
  moves-At src dst a b d id h f ea eb same (to_host x y) found =
      (in_device a h ea x found, in_host b eb y)
  moves-At src dst a b d id h f ea eb same (to_device x y) found =
      (in_host a ea x, in_device b h eb y found)
  moves-At src dst a b d id h f ea eb same (on_device x y) found = (
    in_device a h ea x found,
    in_device b h eb y (ap (λ i. find i f.device_cache) (sym (same x y)) ∙ found),
  )

  CopyOf-At :
      (src dst : Tensor) (t : Transfer) (f : Factory W) (id : ℕ)
      → IsOn id src
      → IsOn id dst
      → CopyOf src dst t f
      → At f src (source_place t) × At f dst (target_place t)
  CopyOf-At src dst t f id src_on dst_on c =
      rw (c.source, c.target)
        (moves-At src dst c.from c.to t.direction c.id t.device f c.from_memory c.to_memory
          (λ x y. src_on c.from c.from_memory x ∙ sym (dst_on c.to c.to_memory y)) c.moves c.held)

-- What the HAL documents of a transfer that succeeds: the target then has the bytes of the source.
abbrev pub Transfers :
    (List Transfer → Transfer → Option Status) → (List Transfer → Place → ℕ → ℕ) → Type 0
Transfers transfer contents =
    (done : List Transfer) (t : Transfer)
    → transfer done t ≡ none
    → (i : ℕ) → i < t.byte_size
    → contents (done ++ t ∷ []) (target_place t) i ≡ contents done (source_place t) i

module _ (contents : List Transfer → Place → ℕ → ℕ) (n : ℕ) where
  -- The last of the tensors has the bytes that the first one had.
  abbrev pub Carries :
      {W : Type 0} → List Transfer → List Transfer → Tensor → Tensor → Factory W → Type 0
  Carries before after x y f =
      (p q : Place) × At f x p
      × At f y q
      × ((i : ℕ) → i < n → contents after q i ≡ contents before p i)

module _ {W : Type 0} (rt : Runtime W) (transfer : List Transfer → Transfer → Option Status)
    (contents : List Transfer → Place → ℕ → ℕ) (transfers : Transfers transfer contents)
    (id n : ℕ) where
  one-Carries :
      (done : List Transfer) (x y : Tensor) (t : Transfer) (f : Factory W)
      → IsOn id x
      → IsOn id y
      → HasSize n x
      → CopyOf x y t f
      → transfer done t ≡ none
      → At f x (source_place t)
        × At f y (target_place t)
        × ((i : ℕ)
            → i < n
            → contents (done ++ t ∷ []) (target_place t) i ≡ contents done (source_place t) i)
  one-Carries done x y t f on_x on_y size c success =
      let (at_x, at_y) = CopyOf-At x y t f id on_x on_y c in
      (
        at_x,
        at_y,
        λ i lt. transfers done t success i (subst (λ m. i < m) (sym (c.byte_size ∙ size)) lt),
      )

  Copied-Carries :
      (done : List Transfer) (x y : Tensor) (ys : List Tensor) (ts : List Transfer) (f : Factory W)
      → All (IsOn id) (x ∷ y ∷ ys)
      → All (HasSize n) (x ∷ y ∷ ys)
      → Copied transfer done (links x (y ∷ ys)) ts f
      → Carries contents n done (done ++ ts) x (last y ys) f
  Copied-Carries done x y ys [] f on size c = absurd c
  Copied-Carries done x y [] (t ∷ []) f on size c =
      let (at_x, at_y, same) = one-Carries done x y t f on.0 on.1.0 size.0 c.0.0 c.0.1 in
      (source_place t, target_place t, at_x, at_y, same)
  Copied-Carries done x y [] (t ∷ t' ∷ ts) f on size c = absurd c.1
  Copied-Carries done x y (z ∷ zs) (t ∷ ts) f on size c =
      let (at_x, at_y, same) = one-Carries done x y t f on.0 on.1.0 size.0 c.0.0 c.0.1 in
      let (p, q, at_p, at_q, rest) = Copied-Carries (done ++ t ∷ []) y z zs ts f on.1 size.1 c.1 in
      (
        source_place t,
        q,
        at_x,
        at_q,
        λ i lt.
            ap (λ l. contents l q i) (sym (append_assoc done (t ∷ []) ts))
            ∙ rest i lt
            ∙ ap (λ k. contents (done ++ t ∷ []) k i) (At-unique f y p (target_place t) at_p at_y)
            ∙ same i lt,
      )

  -- Let the tensors `x`, `y` and so on all have `n` bytes, and those that are on an IREE device be on
  -- the device `id`. If `CopyTensorsImpl` succeeds in copying each of them to the next one, the last
  -- one has the bytes that the first one had. So a tensor that goes to the device and comes back is
  -- unchanged.
  pub copy_tensors-Carries :
      (x y : Tensor) (ys : List Tensor) (s : State W)
      → All (IsOn id) (x ∷ y ∷ ys)
      → All (HasSize n) (x ∷ y ∷ ys)
      → let r = copy_tensors rt transfer (links x (y ∷ ys)) s in
        r.0 ≡ none → Carries contents n s.transfers r.1.transfers x (last y ys) r.1.factory
  copy_tensors-Carries x y ys s on size h =
      let r = copy_tensors rt transfer (links x (y ∷ ys)) s in
      let (ts, made, c) = copy_tensors-Copied rt transfer (links x (y ∷ ys)) s h in
      subst (λ l. Carries contents n s.transfers l x (last y ys) r.1.factory) (sym made)
        (Copied-Carries s.transfers x y ys ts r.1.factory on size c)
