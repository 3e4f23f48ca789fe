-- ===== src/DataTransfer/Copies.antt =====
-- What one copy does, and on which device.
use onnxruntime_ep_iree.Common.{
  ℕ, ◌*◌, ◌%◌, ◌≡◌, refl, sym, inl, inr, Bool, true, false, List, [], ◌∷◌, ◌++◌, Option, none, some,
  arith, ◌==◌, Text, Bool-cases, subst,
}
use onnxruntime_ep_iree.OrtUtils.{onnx_element_type_size, size_mod}
use onnxruntime_ep_iree.Wrappers.{Status}
use onnxruntime_ep_iree.Factory.State.{Factory, find, find-assign}
use onnxruntime_ep_iree.Factory.Cache.{Runtime, get_device_for_id}
use onnxruntime_ep_iree.Factory.Cache.Laws.{
  Lookup, cached, failed, opened, get_device_for_id-Lookup, Lookup-find,
}
use onnxruntime_ep_iree.DataTransfer.{
  MemoryDevice, is_iree, Tensor, Direction, device_to_host, host_to_device, device_to_device,
  Transfer, State, run, copy_by, copy_between, copy_tensor,
}

-- The direction of a copy between two memory devices, and the id of the device that performs it: that
-- of the source unless only the target is an IREE device.
pub data Moves (a b : MemoryDevice) : Direction → ℕ → Type 0 where
  to_host : is_iree a ≡ true → is_iree b ≡ false → Moves a b device_to_host a.device_id
  to_device : is_iree a ≡ false → is_iree b ≡ true → Moves a b host_to_device b.device_id
  on_device : is_iree a ≡ true → is_iree b ≡ true → Moves a b device_to_device a.device_id

-- `t` copies `src` to `dst`, on the HAL device that the cache of `f` has.
pub record CopyOf {W : Type 0} (src dst : Tensor) (t : Transfer) (f : Factory W) : Type 0 where
  pub from : MemoryDevice
  pub to : MemoryDevice
  pub id : ℕ
  pub from_memory : src.memory_device ≡ some from
  pub to_memory : dst.memory_device ≡ some to
  pub moves : Moves from to t.direction id
  pub held : find id f.device_cache ≡ some t.device
  pub source : t.source ≡ src.raw
  pub target : t.target ≡ dst.raw
  pub byte_size :
      t.byte_size ≡ (src.element_count * onnx_element_type_size src.element_type) % size_mod

-- The cached devices stay.
abbrev pub Extends : {W : Type 0} → Factory W → Factory W → Type 0
Extends f g = (id h : ℕ) → find id f.device_cache ≡ some h → find id g.device_cache ≡ some h

pub Lookup-Extends :
    {W : Type 0} {id : ℕ} {f : Factory W} {r : Option ℕ × Factory W} → Lookup id f r → Extends f r.1
Lookup-Extends (cached k found e) = rw e (λ j h x. x)
Lookup-Extends (failed w absent e) = rw e (λ j h x. x)
Lookup-Extends {id} {f} (opened k w absent lt e) =
    rw e (λ j h x. ground (arith, find-assign id j k f.device_cache))

pub widen :
    {W : Type 0} (src dst : Tensor) (t : Transfer) (f g : Factory W)
    → Extends f g
    → CopyOf src dst t f
    → CopyOf src dst t g
widen src dst t f g e c = record {
  from = c.from;
  to = c.to;
  id = c.id;
  from_memory = c.from_memory;
  to_memory = c.to_memory;
  moves = c.moves;
  held = e c.id t.device c.held;
  source = c.source;
  target = c.target;
  byte_size = c.byte_size;
}

module _ {W : Type 0} (rt : Runtime W) (transfer : List Transfer → Transfer → Option Status) where
  abbrev bytes : Tensor → ℕ
  bytes src = (src.element_count * onnx_element_type_size src.element_type) % size_mod

  -- What a successful copy leaves: one more transfer, which is that copy.
  abbrev pub CopiesOne : Tensor → Tensor → List Transfer → Option Status × State W → Type 0
  CopiesOne src dst done r =
      r.0 ≡ none
      → (t : Transfer) × (r.1.transfers ≡ done ++ t ∷ [])
        × CopyOf src dst t r.1.factory
        × (transfer done t ≡ none)

  run-CopiesOne :
      (message : Text) (direction : Direction) (src dst : Tensor) (done : List Transfer)
      (a b : MemoryDevice) (id : ℕ) (p : Option ℕ × Factory W)
      → src.memory_device ≡ some a
      → dst.memory_device ≡ some b
      → Moves a b direction id
      → ((h : ℕ) → p.0 ≡ some h → find id p.1.device_cache ≡ some h)
      → CopiesOne src dst done (run rt transfer message direction src dst (bytes src) done p)
  unfolding run
  run-CopiesOne message direction src dst done a b id (none, f) ea eb m held h = cc
  run-CopiesOne message direction src dst done a b id (some device, f) ea eb m held h = (
    record {
      direction = direction;
      device = device;
      source = src.raw;
      target = dst.raw;
      byte_size = bytes src;
    },
    refl,
    record {
      from = a;
      to = b;
      id = id;
      from_memory = ea;
      to_memory = eb;
      moves = m;
      held = held device refl;
      source = refl;
      target = refl;
      byte_size = refl;
    },
    h,
  )

  run-factory :
      (message : Text) (direction : Direction) (src dst : Tensor) (n : ℕ) (done : List Transfer)
      (p : Option ℕ × Factory W)
      → (run rt transfer message direction src dst n done p).1.factory ≡ p.1
  unfolding run
  run-factory message direction src dst n done (none, f) = refl
  run-factory message direction src dst n done (some device, f) = refl

  copy_by-CopiesOne :
      (x y : Bool) (a b : MemoryDevice) (src dst : Tensor) (s : State W)
      → src.memory_device ≡ some a
      → dst.memory_device ≡ some b
      → is_iree a ≡ x
      → is_iree b ≡ y
      → CopiesOne src dst s.transfers (copy_by rt transfer x y a b src dst (bytes src) s)
  unfolding copy_by
  copy_by-CopiesOne true false a b src dst s ea eb p q =
      run-CopiesOne _ device_to_host src dst s.transfers a b a.device_id
        (get_device_for_id rt a.device_id s.factory) ea eb (to_host p q)
        (λ h e. Lookup-find (get_device_for_id-Lookup rt a.device_id s.factory) e)
  copy_by-CopiesOne false true a b src dst s ea eb p q =
      run-CopiesOne _ host_to_device src dst s.transfers a b b.device_id
        (get_device_for_id rt b.device_id s.factory) ea eb (to_device p q)
        (λ h e. Lookup-find (get_device_for_id-Lookup rt b.device_id s.factory) e)
  copy_by-CopiesOne true true a b src dst s ea eb p q =
      run-CopiesOne _ device_to_device src dst s.transfers a b a.device_id
        (get_device_for_id rt a.device_id s.factory) ea eb (on_device p q)
        (λ h e. Lookup-find (get_device_for_id-Lookup rt a.device_id s.factory) e)
  copy_by-CopiesOne false false a b src dst s ea eb p q = λ h. cc

  -- A property of the factory that looking up a device keeps is kept.
  copy_by-keeps :
      (P : Factory W → Type 0) (x y : Bool) (a b : MemoryDevice) (src dst : Tensor) (n : ℕ)
      (s : State W)
      → ((id : ℕ) → P (get_device_for_id rt id s.factory).1)
      → P s.factory
      → P (copy_by rt transfer x y a b src dst n s).1.factory
  unfolding copy_by
  copy_by-keeps P true false a b src dst n s k z =
      subst P
        (sym (
          run-factory _ device_to_host src dst n s.transfers
            (get_device_for_id rt a.device_id s.factory)))
        (k a.device_id)
  copy_by-keeps P false true a b src dst n s k z =
      subst P
        (sym (
          run-factory _ host_to_device src dst n s.transfers
            (get_device_for_id rt b.device_id s.factory)))
        (k b.device_id)
  copy_by-keeps P true true a b src dst n s k z =
      subst P
        (sym (
          run-factory _ device_to_device src dst n s.transfers
            (get_device_for_id rt a.device_id s.factory)))
        (k a.device_id)
  copy_by-keeps P false false a b src dst n s k z = z

  copy_between-CopiesOne :
      (o p : Option MemoryDevice) (src dst : Tensor) (s : State W)
      → src.memory_device ≡ o
      → dst.memory_device ≡ p
      → CopiesOne src dst s.transfers (copy_between rt transfer o p src dst s)
  unfolding copy_between
  copy_between-CopiesOne none p src dst s ea eb = λ h. cc
  copy_between-CopiesOne (some a) none src dst s ea eb = λ h. cc
  copy_between-CopiesOne (some a) (some b) src dst s ea eb =
      elim (Bool-cases (onnx_element_type_size src.element_type == 0)) [
        | inl e ↦ rw (e, copy_between) (λ h. cc)
        | inr e ↦
            rw (e, copy_between)
              (copy_by-CopiesOne (is_iree a) (is_iree b) a b src dst s ea eb refl refl)
      ]

  copy_between-keeps :
      (P : Factory W → Type 0) (o p : Option MemoryDevice) (src dst : Tensor) (s : State W)
      → ((id : ℕ) → P (get_device_for_id rt id s.factory).1)
      → P s.factory
      → P (copy_between rt transfer o p src dst s).1.factory
  unfolding copy_between
  copy_between-keeps P none p src dst s k z = z
  copy_between-keeps P (some a) none src dst s k z = z
  copy_between-keeps P (some a) (some b) src dst s k z =
      elim (Bool-cases (onnx_element_type_size src.element_type == 0)) [
        | inl e ↦ rw (e, copy_between) z
        | inr e ↦
            rw (e, copy_between)
              (copy_by-keeps P (is_iree a) (is_iree b) a b src dst (bytes src) s k z)
      ]

  pub copy_tensor-CopiesOne :
      (src dst : Tensor) (s : State W)
      → CopiesOne src dst s.transfers (copy_tensor rt transfer src dst s)
  unfolding copy_tensor
  copy_tensor-CopiesOne src dst s =
      copy_between-CopiesOne src.memory_device dst.memory_device src dst s refl refl

  pub copy_tensor-keeps :
      (P : Factory W → Type 0) (src dst : Tensor) (s : State W)
      → ((id : ℕ) → P (get_device_for_id rt id s.factory).1)
      → P s.factory
      → P (copy_tensor rt transfer src dst s).1.factory
  unfolding copy_tensor
  copy_tensor-keeps P src dst s k z =
      copy_between-keeps P src.memory_device dst.memory_device src dst s k z
