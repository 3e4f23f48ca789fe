-- ===== src/Tests/Transfers.antt =====
-- A run of `CopyTensorsImpl`: a tensor goes to a device, and comes back.
use mathlib.Core.Option.{some-injective}
use mathlib.Core.List.{foldl, foldl-append}
use onnxruntime_ep_iree.DataTransfer.Bytes.{
  Place, host, buffer, source_place, target_place, links, Transfers, Carries, copy_tensors-Carries,
}
use onnxruntime_ep_iree.Common.{
  Bool, true, false, ◌==◌, ◌&&◌, ltb, if◌then◌else◌, arith, ℕ, ◌≡◌, refl, sym, ap, [], ◌∷◌, List,
  Option, none, some,
}
use onnxruntime_ep_iree.OrtUtils.{OnnxType, onnx_element_type_size}
use onnxruntime_ep_iree.Wrappers.{Status}
use onnxruntime_ep_iree.Common.{text_eq}
use onnxruntime_ep_iree.Factory.State.{find, assign}
use onnxruntime_ep_iree.Factory.Devices.{
  add_device, add_devices, hardware_device, create_iree_hw_devices,
}
use onnxruntime_ep_iree.Factory.Cache.{get_device_for_id}
use onnxruntime_ep_iree.DataTransfer.{Tensor, Transfer, State, copy_tensor, copy_tensors}
use onnxruntime_ep_iree.DataTransfer.Laws.{Copied, copy_tensors-Copied}
use onnxruntime_ep_iree.DataTransfer.{can_copy, copy_tensor}
use onnxruntime_ep_iree.DataTransfer.Accepted.{Performs, copy_tensor-Performs}
use onnxruntime_ep_iree.Tests.Setup.{value_of, runtime, healthy, factory}

abbrev on_host : Tensor
on_host = record {
  memory_device = some (record { vendor_id = 0; device_id = 0 });
  element_count = 6;
  element_type = OnnxType.float;
  raw = 100;
}

abbrev on_hip : Tensor
on_hip = record {
  memory_device = some (record { vendor_id = 0x1EEE; device_id = 1 });
  element_count = 6;
  element_type = OnnxType.float;
  raw = 200;
}

abbrev succeeds : List Transfer → Transfer → Option Status
succeeds done t = none

abbrev start : State ℕ
start = record { factory = factory healthy; transfers = [] }

abbrev pairs : List (Tensor × Tensor)
pairs = (on_host, on_hip) ∷ (on_hip, on_host) ∷ []

copied : (copy_tensors runtime succeeds pairs start).0 ≡ none
unfolding copy_tensors copy_tensor onnx_element_type_size get_device_for_id find assign
    create_iree_hw_devices add_devices add_device value_of hardware_device text_eq
copied = refl

copy_tensors-Copied_example :
    (ts : List Transfer) × ((copy_tensors runtime succeeds pairs start).1.transfers ≡ ts)
    × Copied succeeds [] pairs ts (copy_tensors runtime succeeds pairs start).1.factory
copy_tensors-Copied_example = copy_tensors-Copied runtime succeeds pairs start copied

-- The device of `on_hip` is open.
abbrev opened : State ℕ
opened = record start { factory = record start.factory { device_cache = (1, 7) ∷ [] } }

copy_tensor-Performs_example :
    Performs runtime succeeds on_host on_hip opened
      (copy_tensor runtime succeeds on_host on_hip opened)
unfolding can_copy onnx_element_type_size find
copy_tensor-Performs_example =
    copy_tensor-Performs runtime succeeds (record { vendor_id = 0; device_id = 0 })
      (record { vendor_id = 0x1EEE; device_id = 1 }) on_host on_hip opened refl refl refl refl
      (λ h. cc) (λ h. (7, refl))

abbrev back : Tensor
back = record on_host { raw = 300 }

came_back : (copy_tensors runtime succeeds (links on_host (on_hip ∷ back ∷ [])) start).0 ≡ none
unfolding copy_tensors copy_tensor onnx_element_type_size get_device_for_id find assign
    create_iree_hw_devices add_devices add_device value_of hardware_device text_eq
came_back = refl

same_place : Place → Place → Bool
same_place (host p) (host q) = p == q
same_place (buffer h p) (buffer k q) = h == k && p == q
same_place _ _ = false

same_place_refl : (p : Place) → same_place p p ≡ true
unfolding same_place
same_place_refl (host p) = ground arith
same_place_refl (buffer h p) = ground arith

-- Memories in which each transfer takes place; at first each byte is its offset.
write : (Place → ℕ → ℕ) → Transfer → Place → ℕ → ℕ
write m t p i =
    if same_place p (target_place t) && ltb i t.byte_size then m (source_place t) i else m p i

memories : List Transfer → Place → ℕ → ℕ
unfolding write
memories = foldl write (λ p i. i)

memories-Transfers : Transfers succeeds memories
unfolding memories write
memories-Transfers done t _ i lt =
    rw
      (
        foldl-append write (λ (p : Place) (j : ℕ). j) done (t ∷ []),
        same_place_refl (target_place t),
      )
      (ground arith)

copy_tensors-Carries_example :
    let r = copy_tensors runtime succeeds (links on_host (on_hip ∷ back ∷ [])) start in
    Carries memories 24 [] r.1.transfers on_host back r.1.factory
unfolding onnx_element_type_size
copy_tensors-Carries_example =
    copy_tensors-Carries runtime succeeds memories memories-Transfers 1 24 on_host on_hip
      (back ∷ []) start
      (
        (λ d e on. absurd (cc (rw (sym (some-injective _ d e)) at on))),
        (
          (λ d e on. sym (ap (λ m. m.device_id) (some-injective _ d e))),
          ((λ d e on. absurd (cc (rw (sym (some-injective _ d e)) at on))), tt),
        ),
      )
      (refl, (refl, (refl, tt))) came_back
