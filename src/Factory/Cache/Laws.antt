-- ===== src/Factory/Cache/Laws.antt =====
-- The cache of HAL devices.
use onnxruntime_ep_iree.Common.{
  ℕ, zero, suc, ◌<◌, ◌≡◌, refl, sym, ap, ◌∙◌, ◌≢◌, inl, inr, List, [], ◌∷◌, Option, none, some,
  arith, leb, length, get_elem?, Option-cases, Bool-cases, Text,
}
use onnxruntime_ep_iree.Factory.State.{Factory, find, assign, find-assign}
use onnxruntime_ep_iree.Factory.Cache.{
  Runtime, device_uri, cache_device, open_device, device_at, get_device_for_id,
}

-- Every cached device has an id in range.
abbrev pub IsCacheValid : {W : Type 0} → Factory W → Type 0
IsCacheValid f = (id : ℕ) → find id f.device_cache ≢ none → id < length f.hw_devices

-- How `GetDeviceForId` can end.
pub data Lookup {W : Type 0} (id : ℕ) (f : Factory W) (r : Option ℕ × Factory W) : Type 0 where
  cached : (h : ℕ) → find id f.device_cache ≡ some h → r ≡ (some h, f) → Lookup id f r
  failed :
      (w : W) → find id f.device_cache ≡ none → r ≡ (none, record f { world = w }) → Lookup id f r
  opened :
      (h : ℕ) (w : W)
      → find id f.device_cache ≡ none
      → id < length f.hw_devices
      → r ≡ (some h, record f { world = w; device_cache = assign id h f.device_cache })
      → Lookup id f r

-- A device that is handed out is in the cache afterwards.
pub Lookup-find :
    {W : Type 0} {id h : ℕ} {f : Factory W} {r : Option ℕ × Factory W}
    → Lookup id f r
    → r.0 ≡ some h
    → find id r.1.device_cache ≡ some h
Lookup-find (cached k found e) h = rw e (found ∙ sym (ap (λ t. t.0) e) ∙ h)
Lookup-find (failed w absent e) h = cc
Lookup-find {id} {f} (opened k w absent lt e) h =
    rw e (ground (arith, find-assign id id k f.device_cache))

pub Lookup-IsCacheValid :
    {W : Type 0} {id : ℕ} {f : Factory W} {r : Option ℕ × Factory W}
    → Lookup id f r
    → IsCacheValid f
    → IsCacheValid r.1
Lookup-IsCacheValid (cached k found e) v = rw e v
Lookup-IsCacheValid (failed w absent e) v = rw e v
Lookup-IsCacheValid {id} {f} (opened k w absent lt e) v =
    rw e (λ j h. ground (arith, find-assign id j k f.device_cache, v j))

pub Lookup-range :
    {W : Type 0} {id h : ℕ} {f : Factory W} {r : Option ℕ × Factory W}
    → Lookup id f r
    → r.0 ≡ some h
    → IsCacheValid f
    → id < length f.hw_devices
Lookup-range {id} (cached k found e) h v = v id (λ absent. cc)
Lookup-range (failed w absent e) h v = cc
Lookup-range (opened k w absent lt e) h v = lt

lt_of_get_elem? {ℓ} :
    {A : Type ℓ} (xs : List A) (i : ℕ) (x : A) → get_elem? xs i ≡ some x → i < length xs
lt_of_get_elem? [] i x h = cc
lt_of_get_elem? (y ∷ xs) zero x h = omega arith
lt_of_get_elem? (y ∷ xs) (suc i) x h = omega (arith, lt_of_get_elem? xs i x h)

module _ {W : Type 0} (rt : Runtime W) where
  cache_device-Lookup :
      (id : ℕ) (o : Option ℕ) (w : W) (f : Factory W)
      → find id f.device_cache ≡ none
      → id < length f.hw_devices
      → Lookup id f (cache_device rt id o (record f { world = w }))
  unfolding cache_device
  cache_device-Lookup id none w f absent lt = failed w absent refl
  cache_device-Lookup id (some h) w f absent lt = opened h w absent lt refl

  open_device-Lookup :
      (id : ℕ) (uri : Option Text) (f : Factory W)
      → find id f.device_cache ≡ none
      → id < length f.hw_devices
      → Lookup id f (open_device rt id uri f)
  unfolding open_device
  open_device-Lookup id none f absent lt = failed f.world absent refl
  open_device-Lookup id (some uri) f absent lt = cache_device-Lookup id _ _ f absent lt

  device_at-Lookup :
      (id : ℕ) (f : Factory W)
      → find id f.device_cache ≡ none
      → Lookup id f (device_at rt id (get_elem? f.hw_devices id) f)
  unfolding device_at
  device_at-Lookup id f absent = elim (Option-cases (get_elem? f.hw_devices id)) [
    | inl out ↦ rw out (failed f.world absent refl)
    | inr (d, e) ↦
        rw e
          (open_device-Lookup id (device_uri rt d) f absent (lt_of_get_elem? f.hw_devices id d e))
  ]

  -- Every call of `GetDeviceForId` ends in one of three ways: the device was cached, and nothing changes; there is no
  -- device, and the factory is as it was; or a new device, of an id in range, is added to the cache.
  pub get_device_for_id-Lookup : (id : ℕ) (f : Factory W) → Lookup id f (get_device_for_id rt id f)
  unfolding get_device_for_id
  get_device_for_id-Lookup id f = elim (Option-cases (find id f.device_cache)) [
    | inr (h, e) ↦ rw (e, get_device_for_id) (cached h e refl)
    | inl absent ↦ elim (Bool-cases (leb (length f.hw_devices) id)) [
      | inl big ↦ rw (absent, get_device_for_id, big) (failed f.world absent refl)
      | inr small ↦ rw (absent, get_device_for_id, small) (device_at-Lookup id f absent)
    ]
  ]

  pub get_device_for_id_cached :
      (id h : ℕ) (f : Factory W)
      → find id f.device_cache ≡ some h
      → get_device_for_id rt id f ≡ (some h, f)
  unfolding get_device_for_id
  get_device_for_id_cached id h f e = rw (e, get_device_for_id)

  -- A device that was handed out is handed out again for its id, with no further change: the
  -- execution provider, the allocator and the data transfer share one HAL device.
  pub get_device_for_id_again :
      (id h : ℕ) (f : Factory W)
      → (get_device_for_id rt id f).0 ≡ some h
      → get_device_for_id rt id (get_device_for_id rt id f).1
        ≡ (some h, (get_device_for_id rt id f).1)
  get_device_for_id_again id h f e =
      get_device_for_id_cached id h (get_device_for_id rt id f).1
        (Lookup-find (get_device_for_id-Lookup id f) e)

  -- `GetDeviceForId` keeps the ids of the cached devices in range.
  pub get_device_for_id-IsCacheValid :
      (id : ℕ) (f : Factory W) → IsCacheValid f → IsCacheValid (get_device_for_id rt id f).1
  get_device_for_id-IsCacheValid id f v = Lookup-IsCacheValid (get_device_for_id-Lookup id f) v
