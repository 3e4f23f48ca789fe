-- ===== src/Factory/Devices/Laws.antt =====
-- Which hardware devices there are, and what identifies them.
use native.Mathlib.Nat.{suc-add, add-suc, add-zero, add_assoc}
use onnxruntime_ep_iree.Common.{
  ℕ, zero, suc, ◌+◌, ◌%◌, ◌^◌, ◌≤◌, ◌≡◌, refl, sym, ap, ◌∙◌, true, List, [], ◌∷◌, ◌++◌, none, some,
  arith, Bool-cases, Option-cases, inl, inr, if◌then◌else◌, Text, codes, length, length-append,
  get_elem?, get_elem?-append_right, All, append-nil, append_assoc,
}
use onnxruntime_ep_iree.Common.Decimal.{to_string}
use onnxruntime_ep_iree.Factory.State.{HardwareDevice, gpu}
use onnxruntime_ep_iree.Factory.Devices.{
  DeviceReport, DriverReport, Enumeration, hardware_device, add_device, add_devices, add_driver,
  add_drivers, create_iree_hw_devices,
}

-- The devices that the code tries to register: those of the drivers that work, in order.
abbrev pub Attempt : Type 0
Attempt = Text × DeviceReport

device_attempts : Text → List DeviceReport → List Attempt
device_attempts driver [] = []
device_attempts driver (d ∷ ds) = (driver, d) ∷ device_attempts driver ds

driver_attempts : DriverReport → List Attempt
unfolding device_attempts
driver_attempts r =
    if r.created
    then (elim r.devices [ none ↦ [] | some ds ↦ device_attempts r.driver_name ds ])
    else []

unfoldable pub attempts : List DriverReport → List Attempt
unfolding driver_attempts
attempts [] = []
attempts (r ∷ rs) = driver_attempts r ++ attempts rs

-- How many of the attempts succeed.
unfoldable pub successes : List Attempt → ℕ
successes [] = 0
successes ((driver, d) ∷ more) =
    if d.hw_device_created then suc (successes more) else successes more

-- The devices that the attempts give, from index `i` on.
registered : ℕ → List Attempt → List HardwareDevice
registered i [] = []
registered i ((driver, d) ∷ more) =
    let rest = registered (suc i) more in
    if d.hw_device_created then hardware_device driver d.path i ∷ rest else rest

registered-append :
    (i : ℕ) (a b : List Attempt)
    → registered i (a ++ b) ≡ registered i a ++ registered (i + length a) b
unfolding registered
registered-append i [] b = ap (λ n. registered n b) (omega arith)
registered-append i ((driver, d) ∷ a) b =
    rw (registered-append (suc i) a b, suc-add i (length a), ← add-suc i (length a)) (ground arith)

length-registered : (i : ℕ) (a : List Attempt) → length (registered i a) ≡ successes a
unfolding registered successes
length-registered i [] = refl
length-registered i ((driver, d) ∷ a) = ground (arith, length-registered (suc i) a)

-- The variables of the loops after some attempts.
after : Enumeration → List Attempt → Enumeration
after s a = record {
  device_index = s.device_index + length a;
  hw_devices = s.hw_devices ++ registered s.device_index a;
}

after-nil : (s : Enumeration) → s ≡ after s []
unfolding after registered
after-nil s = λ i. record {
  device_index = sym (add-zero s.device_index) i;
  hw_devices = sym (append-nil s.hw_devices) i;
}

after-append : (s : Enumeration) (a b : List Attempt) → after (after s a) b ≡ after s (a ++ b)
unfolding after
after-append s a b = λ i. record {
  device_index =
      (add_assoc s.device_index (length a) (length b)
          ∙ ap (◌+◌ s.device_index) (sym (length-append a b)))
        i;
  hw_devices =
      (append_assoc s.hw_devices (registered s.device_index a)
            (registered (s.device_index + length a) b)
          ∙ ap (◌++◌ s.hw_devices) (sym (registered-append s.device_index a b)))
        i;
}

add_device-after :
    (driver : Text) (d : DeviceReport) (s : Enumeration)
    → add_device driver d s ≡ after s ((driver, d) ∷ [])
unfolding add_device after registered
add_device-after driver d s = ground (arith, append-nil s.hw_devices)

add_devices-after :
    (driver : Text) (ds : List DeviceReport) (s : Enumeration)
    → add_devices driver ds s ≡ after s (device_attempts driver ds)
unfolding add_devices device_attempts
add_devices-after driver [] s = after-nil s
add_devices-after driver (d ∷ ds) s =
    rw (add_device-after driver d s) (
      add_devices-after driver ds _ ∙ after-append s ((driver, d) ∷ []) (device_attempts driver ds))

add_driver-after :
    (r : DriverReport) (s : Enumeration) → add_driver r s ≡ after s (driver_attempts r)
unfolding add_driver driver_attempts
add_driver-after r s = elim (Bool-cases r.created) [
  | inr e ↦ rw e (after-nil s)
  | inl e ↦ elim (Option-cases r.devices) [
    | inl none_listed ↦ rw (e, none_listed) (after-nil s)
    | inr (ds, listed) ↦ rw (e, listed) (add_devices-after r.driver_name ds s)
  ]
]

add_drivers-after :
    (rs : List DriverReport) (s : Enumeration) → add_drivers rs s ≡ after s (attempts rs)
unfolding add_drivers attempts
add_drivers-after [] s = after-nil s
add_drivers-after (r ∷ rs) s =
    rw (add_driver-after r s)
      (add_drivers-after rs _ ∙ after-append s (driver_attempts r) (attempts rs))

created-registered :
    (rs : List DriverReport) → create_iree_hw_devices (some rs) ≡ registered 0 (attempts rs)
unfolding create_iree_hw_devices after
created-registered rs = ap (λ s. s.hw_devices) (add_drivers-after rs _)

registered_first :
    (i : ℕ) (driver : Text) (d : DeviceReport) (more : List Attempt)
    → d.hw_device_created ≡ true
    → get_elem? (registered i ((driver, d) ∷ more)) 0 ≡ some (hardware_device driver d.path i)
unfolding registered
registered_first i driver d more h = rw h

registered_at :
    (rs : List DriverReport) (before after_ : List Attempt) (driver : Text) (d : DeviceReport)
    → attempts rs ≡ before ++ (driver, d) ∷ after_
    → d.hw_device_created ≡ true
    → get_elem? (create_iree_hw_devices (some rs)) (successes before)
      ≡ some (hardware_device driver d.path (length before))
registered_at rs before after_ driver d e h =
    rw (created-registered rs, e, registered-append 0 before ((driver, d) ∷ after_))
      (ap (get_elem? (registered 0 before ++ registered (0 + length before) ((driver, d) ∷ after_)))
          (omega (arith, length-registered 0 before))
        ∙ get_elem?-append_right (registered 0 before)
            (registered (0 + length before) ((driver, d) ∷ after_)) 0
        ∙ registered_first (0 + length before) driver d after_ h
        ∙ ap (λ n. some (hardware_device driver d.path n)) (omega arith))

-- A device whose registration succeeds stands in `hw_devices` behind those that succeeded before
-- it. Its device id is the number of all the attempts before it, the failed ones included, in 32
-- bits; its metadata have its driver, its path and that number in decimal, and nothing else.
pub registered_device :
    (rs : List DriverReport) (before after_ : List Attempt) (driver : Text) (d : DeviceReport)
    → attempts rs ≡ before ++ (driver, d) ∷ after_
    → d.hw_device_created ≡ true
    → (dev : HardwareDevice) × (get_elem? (create_iree_hw_devices (some rs)) (successes before)
        ≡ some dev)
      × (dev.device_id ≡ length before % 2 ^ 32)
      × (dev.metadata
          ≡ (codes "iree.driver", driver)
            ∷ (codes "iree.device_path", d.path)
            ∷ (codes "iree.device_id", to_string (length before))
            ∷ [])
unfolding hardware_device
registered_device rs before after_ driver d e h = (
  hardware_device driver d.path (length before),
  registered_at rs before after_ driver d e h,
  refl,
  refl,
)

abbrev Created : Attempt → Type 0
Created a = a.1.hw_device_created ≡ true

registered-id :
    (i k : ℕ) (a : List Attempt) (dev : HardwareDevice)
    → All Created a
    → get_elem? (registered i a) k ≡ some dev
    → dev.device_id ≡ (i + k) % 2 ^ 32
unfolding registered hardware_device
registered-id i k [] dev h e = cc
registered-id i zero ((driver, d) ∷ a) dev (h, hs) e = ground arith
registered-id i (suc k) ((driver, d) ∷ a) dev (h, hs) e =
    ground (arith, registered-id (suc i) k a dev hs)

-- If every registration succeeds, the device id of a device is its index in `hw_devices`.
pub device_id-index :
    (rs : List DriverReport) (k : ℕ) (dev : HardwareDevice)
    → All Created (attempts rs)
    → get_elem? (create_iree_hw_devices (some rs)) k ≡ some dev
    → dev.device_id ≡ k % 2 ^ 32
device_id-index rs k dev h e =
    registered-id 0 k (attempts rs) dev h (rw created-registered at e)
    ∙ ap (λ n. n % 2 ^ 32) (omega arith)

registered-gpu : (i : ℕ) (a : List Attempt) → All (λ d. d.device_type ≡ gpu) (registered i a)
unfolding registered hardware_device
registered-gpu i [] = tt
registered-gpu i ((driver, d) ∷ a) = ground (arith, registered-gpu (suc i) a)

-- Every device that the factory registers has the type GPU, whatever its driver.
pub created-gpu :
    (rs : List DriverReport) → All (λ d. d.device_type ≡ gpu) (create_iree_hw_devices (some rs))
created-gpu rs = rw created-registered (registered-gpu 0 (attempts rs))

pub length-created :
    (rs : List DriverReport) → length (create_iree_hw_devices (some rs)) ≡ successes (attempts rs)
length-created rs = rw created-registered (length-registered 0 (attempts rs))

pub successes-concat :
    (a : List Attempt) (x : Attempt) → successes (a ++ x ∷ []) ≤ suc (successes a)
unfolding successes
successes-concat [] (driver, d) = ground arith
successes-concat ((name, e) ∷ a) x = ground (arith, successes-concat a x)
