-- ===== src/Factory/Supported/Laws.antt =====
-- What `GetSupportedDevicesImpl` reports, on every path.
use onnxruntime_ep_iree.Common.{
  ℕ, zero, suc, ◌+◌, ◌≤◌, ◌≡◌, refl, sym, ap, ◌∙◌, ◌⊎◌, inl, inr, List, [], ◌∷◌, ◌++◌, Option, none,
  some, arith, ltb, length, length-append, append_assoc, append-nil, Bool-cases, take, subst,
}
use onnxruntime_ep_iree.Wrappers.{Status}
use onnxruntime_ep_iree.Factory.State.{Factory, HardwareDevice, MemoryInfo}
use onnxruntime_ep_iree.Factory.Supported.{
  Supported, memory_info_for, supported_loop, get_supported_devices,
}

-- The memory infos of the first `n` devices.
pub infos_below : ℕ → List MemoryInfo
infos_below zero = []
infos_below (suc n) = infos_below n ++ memory_info_for n ∷ []

-- The state of the loop once the devices `done` are reported.
unfoldable pub state_after : List MemoryInfo → List HardwareDevice → ℕ → Supported
state_after old done released = record {
  num_ep_devices = length done;
  ep_devices = done;
  device_memory_infos = old ++ infos_below (length done);
  released = released;
}

state_after-concat :
    (old : List MemoryInfo) (done : List HardwareDevice) (d : HardwareDevice) (r : ℕ)
    → record (state_after old done r) {
      num_ep_devices = length done + 1;
      ep_devices = done ++ d ∷ [];
      device_memory_infos =
          (old ++ infos_below (length done)) ++ memory_info_for (length done) ∷ [];
    }
      ≡ state_after old (done ++ d ∷ []) r
unfolding state_after infos_below
state_after-concat old done d r =
    let n : length (done ++ d ∷ []) ≡ suc (length done) =
      omega (arith, length-append done (d ∷ [])) in
    λ i. record {
      num_ep_devices = sym (length-append done (d ∷ [])) i;
      ep_devices = done ++ d ∷ [];
      device_memory_infos =
          (append_assoc old (infos_below (length done)) (memory_info_for (length done) ∷ [])
              ∙ ap (λ k. old ++ infos_below k) (sym n))
            i;
      released = r;
    }

module _ (create_ep_device add_allocator_info : ℕ → Option Status) (max : ℕ) where
  -- The result `r` of the loop reports the first `k` of the devices `ds` behind `done`.
  abbrev Reports :
      List MemoryInfo
      → List HardwareDevice
      → List HardwareDevice
      → Option Status × Supported
      → Type 0
  Reports old done ds r =
      (k released : ℕ) × (r.1 ≡ state_after old (done ++ take k ds) released)
      × (k ≤ length ds)
      × (length done + k ≤ max)
      × (r.0 ≡ none → (k ≡ length ds) ⊎ (length done + k ≡ max))

  stop :
      (old : List MemoryInfo) (done ds : List HardwareDevice) (n : ℕ) (o : Option Status)
      → length done ≤ max
      → (o ≡ none → (0 ≡ length ds) ⊎ (length done + 0 ≡ max))
      → Reports old done ds (o, state_after old done n)
  stop old done ds n o fits h =
      (0, n, ap (λ l. state_after old l n) (sym (append-nil done)), omega arith, omega arith, h)

  shift :
      (old : List MemoryInfo) (done : List HardwareDevice) (d : HardwareDevice)
      (ds : List HardwareDevice) (r : Option Status × Supported)
      → Reports old (done ++ d ∷ []) ds r
      → Reports old done (d ∷ ds) r
  shift old done d ds r (k, n, e, le, fits, h) =
      let len = length-append done (d ∷ []) in
      (
        suc k,
        n,
        e ∙ ap (λ l. state_after old l n) (append_assoc done (d ∷ []) (take k ds)),
        omega arith,
        omega arith,
        λ z. ground (arith, h z),
      )

  branch :
      (old : List MemoryInfo) (done : List HardwareDevice) (d : HardwareDevice)
      (ds : List HardwareDevice) (n : ℕ) (a b : Option Status) (r : Option Status × Supported)
      → length done ≤ max
      → Reports old done (d ∷ ds) r
      → Reports old done (d ∷ ds) (elim a [
        | some status ↦ (some status, state_after old done n)
        | none ↦ elim b [ some status ↦ (some status, state_after old done (n + 1)) | none ↦ r ]
      ])
  branch old done d ds n (some status) b r fits h =
      stop old done (d ∷ ds) n (some status) fits (λ z. cc)
  branch old done d ds n none (some status) r fits h =
      stop old done (d ∷ ds) (n + 1) (some status) fits (λ z. cc)
  branch old done d ds n none none r fits h = h

  loop-Reports :
      (old : List MemoryInfo) (done ds : List HardwareDevice) (n : ℕ)
      → length done ≤ max
      → Reports old done ds (
          supported_loop create_ep_device add_allocator_info max
            (length done)
            ds
            (state_after old done n))
  unfolding supported_loop state_after
  loop-Reports old done [] n fits = stop old done [] n none fits (λ _. inl refl)
  loop-Reports old done (d ∷ ds) n fits =
      let ih = loop-Reports old (done ++ d ∷ []) ds n in
      let len : length (done ++ d ∷ []) ≡ suc (length done) =
        omega (arith, length-append done (d ∷ [])) in
      elim (Bool-cases (ltb (length done) max)) [
        | inr full ↦ rw full (stop old done (d ∷ ds) n none fits (λ _. inr (ground arith)))
        | inl room ↦ rw room (
            branch old done d ds n (create_ep_device (length done))
              (add_allocator_info (length done)) _ fits
              (shift old done d ds _ (
                subst (Reports old (done ++ d ∷ []) ds)
                  (λ j.
                    supported_loop create_ep_device add_allocator_info max (len j) ds
                      (sym (state_after-concat old done d n) j))
                  (ih (ground arith)))))
      ]

  -- On every path `GetSupportedDevicesImpl` reports the first `k` hardware devices, in order, with one memory info
  -- each behind those that were there, and no more than `max_ep_devices`; and if it returns no error,
  -- it has reported all of them or filled the array.
  pub get_supported_devices_lem :
      {W : Type 0} (f : Factory W)
      → let (status, s) = get_supported_devices create_ep_device add_allocator_info max f in
        (k released : ℕ) × (s ≡ state_after f.device_memory_infos (take k f.hw_devices) released)
        × (k ≤ length f.hw_devices)
        × (k ≤ max)
        × (status ≡ none → (k ≡ length f.hw_devices) ⊎ (k ≡ max))
  unfolding get_supported_devices state_after infos_below
  get_supported_devices_lem f =
      let start : Supported = record {
        num_ep_devices = 0;
        ep_devices = [];
        device_memory_infos = f.device_memory_infos;
        released = 0;
      } in
      let e : state_after f.device_memory_infos [] 0 ≡ start =
        λ i. record start { device_memory_infos = append-nil f.device_memory_infos i } in
      let (k, n, eq, le, fits, h) =
        subst
          (λ s.
            Reports f.device_memory_infos [] f.hw_devices
              (supported_loop create_ep_device add_allocator_info max 0 f.hw_devices s))
          e (loop-Reports f.device_memory_infos [] f.hw_devices 0 (omega arith)) in
      (k, n, eq, le, omega arith, λ z. ground (arith, h z))
