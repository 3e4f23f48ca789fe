-- ===== src/Factory/Lifetime/Laws.antt =====
-- The order of the destructor: nothing is released before what depends on it.
use mathlib.Core.Option.{some-injective}
use onnxruntime_ep_iree.Common.{
  ℕ, ◌≡◌, refl, sym, ap, ◌∙◌, inl, inr, true, List, [], ◌∷◌, ◌++◌, map, some, ◌==◌, if◌then◌else◌,
  append_assoc, In, Bool-cases,
}
use onnxruntime_ep_iree.Factory.State.{Factory, AllocatorInit, find}
use onnxruntime_ep_iree.Factory.CreateAllocator.Laws.{AllocatorsValid}
use onnxruntime_ep_iree.Factory.Lifetime.{
  Release, allocator_destroyed, data_transfer_destroyed, device_released, hardware_device_released,
  memory_info_released, instance_released, destroy_factory,
}

-- `first` happens, and `later` happens after it.
abbrev pub Before : Release → Release → List Release → Type 0
Before first later es = (xs ys : List Release) × (es ≡ xs ++ (first ∷ ys)) × In later ys

In-append_right : (x : Release) (xs ys : List Release) → In x ys → In x (xs ++ ys)
In-append_right x [] ys h = h
In-append_right x (z ∷ xs) ys h = inr (In-append_right x xs ys h)

In-append_left : (x : Release) (xs ys : List Release) → In x xs → In x (xs ++ ys)
In-append_left x [] ys h = absurd h
In-append_left x (z ∷ xs) ys (inl e) = inl e
In-append_left x (z ∷ xs) ys (inr h) = inr (In-append_left x xs ys h)

split_of_In :
    (x : Release) (es : List Release) → In x es → (xs ys : List Release) × (es ≡ xs ++ (x ∷ ys))
split_of_In x [] h = absurd h
split_of_In x (z ∷ es) (inl e) = ([], es, ap (λ r. r ∷ es) (sym e))
split_of_In x (z ∷ es) (inr h) =
    let (xs, ys, e) = split_of_In x es h in (z ∷ xs, ys, ap (λ l. z ∷ l) e)

-- An event of an earlier part comes before one of a later part.
Before-append : (x y : Release) (es fs : List Release) → In x es → In y fs → Before x y (es ++ fs)
Before-append x y es fs h k =
    let (xs, ys, e) = split_of_In x es h in
    (xs, ys ++ fs, ap (λ l. l ++ fs) e ∙ append_assoc xs (x ∷ ys) fs, In-append_right y ys fs k)

Before-prefix : (x y : Release) (es fs : List Release) → Before x y fs → Before x y (es ++ fs)
Before-prefix x y es fs (xs, ys, e, h) =
    (es ++ xs, ys, ap (λ l. es ++ l) e ∙ sym (append_assoc es xs (x ∷ ys)), h)

In-map-find :
    {V : Type 0} (k : ℕ) (v : V) (m : List (ℕ × V)) (event : V → Release)
    → find k m ≡ some v
    → In (event v) (map (λ (entry : ℕ × V). event entry.1) m)
unfolding find
In-map-find k v [] event h = cc
In-map-find k v ((j, w) ∷ m) event h = elim (Bool-cases (j == k)) [
  | inl e ↦ inl (ap event (sym (some-injective w v (rw e at h))))
  | inr e ↦ inr (In-map-find k v m event (rw e at h))
]

-- Where the allocators of the factory are valid and there is a runtime instance, the destructor
-- destroys every allocator before it releases the HAL device that the allocator works on, and that
-- device before the instance.
pub destroy_factory-Before :
    {W : Type 0} (f : Factory W) (id : ℕ) (a : AllocatorInit)
    → AllocatorsValid f
    → find id f.allocators ≡ some a
    → Before (allocator_destroyed a) (device_released a.device) (destroy_factory true f)
      × Before (device_released a.device) instance_released (destroy_factory true f)
unfolding destroy_factory
destroy_factory-Before f id a valid found =
    let (_, held, _) = valid id a found in
    let allocators =
      map (λ (entry : ℕ × AllocatorInit). allocator_destroyed entry.1) f.allocators in
    let transfer = if f.data_transfer then data_transfer_destroyed ∷ [] else [] in
    let devices = map (λ (entry : ℕ × ℕ). device_released entry.1) f.device_cache in
    let hardware = map hardware_device_released f.hw_devices in
    let infos = map memory_info_released f.device_memory_infos in
    let later = hardware ++ (infos ++ instance_released ∷ []) in
    let device : In (device_released a.device) devices =
      In-map-find id a.device f.device_cache device_released held in
    let last : In instance_released later =
      In-append_right instance_released hardware (infos ++ instance_released ∷ [])
        (In-append_right instance_released infos (instance_released ∷ []) (inl refl)) in
    (
      Before-append (allocator_destroyed a) (device_released a.device) allocators
          (transfer ++ (devices ++ later)) (In-map-find id a f.allocators allocator_destroyed found)
          (In-append_right (device_released a.device) transfer (devices ++ later)
            (In-append_left (device_released a.device) devices later device)),
      Before-prefix (device_released a.device) instance_released allocators
          (transfer ++ (devices ++ later))
          (Before-prefix (device_released a.device) instance_released transfer (devices ++ later)
            (Before-append (device_released a.device) instance_released devices later device last)),
    )
