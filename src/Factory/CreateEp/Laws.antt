-- ===== src/Factory/CreateEp/Laws.antt =====
-- When `CreateEpImpl` creates an execution provider, and what it is.
use onnxruntime_ep_iree.Common.{
  ℕ, ◌%◌, ◌^◌, ◌≡◌, ◌≢◌, refl, ap, inl, inr, true, not, ◌&&◌, ◌||◌, List, [], ◌∷◌, Option, none,
  some, arith, Text, is_empty, Bool-cases, subst,
}
use onnxruntime_ep_iree.Common.Decimal.{stoul}
use onnxruntime_ep_iree.Ep.Config.{Config}
use onnxruntime_ep_iree.Factory.State.{Factory, HardwareDevice, gpu}
use onnxruntime_ep_iree.Factory.Cache.{Runtime, get_device_for_id}
use onnxruntime_ep_iree.Factory.Cache.Laws.{get_device_for_id_again}
use onnxruntime_ep_iree.Factory.CreateEp.{
  SessionOptions, IreeEp, Outcome, created, read_config, select_backend, is_cpu, Identity, identity,
  finish, with_backend, with_id, with_identity, create_ep,
}

module _ {W : Type 0} (rt : Runtime W) where
  -- Everything that holds where an execution provider is created.
  pub record Creates (d : HardwareDevice) (options : Option SessionOptions) (f g : Factory W)
      (ep : IreeEp) : Type 0 where
    pub ident : Identity
    pub id : ℕ
    pub backend : Text
    pub handle : ℕ
    pub identified : identity rt d ≡ some ident
    pub parsed : stoul ident.device_id_str ≡ some id
    pub selected : select_backend ident.driver_name ≡ some backend
    pub targeted : is_cpu d.device_type || not (is_empty (read_config options).target_arch) ≡ true
    pub configured : ep ≡ record {
      name = f.ep_name;
      config = record (read_config options) { backend = backend };
      device_id = id % 2 ^ 32;
    }
    pub opened : get_device_for_id rt (id % 2 ^ 32) f ≡ (some handle, g)

  -- What the last part leaves: the instance, on the device `p` that the cache gives.
  abbrev Instance : Config → ℕ → Text → Option ℕ × Factory W → Outcome × Factory W → IreeEp → Type 0
  Instance config id name p r ep =
      (handle : ℕ) × (p ≡ (some handle, r.1))
      × (ep ≡ record { name = name; config = config; device_id = id })

  finish-Instance :
      (config : Config) (id : ℕ) (name : Text) (p : Option ℕ × Factory W) (ep : IreeEp)
      → (finish rt config id name p).0 ≡ created ep
      → Instance config id name p (finish rt config id name p) ep
  unfolding finish
  finish-Instance config id name (none, f) ep h = cc
  finish-Instance config id name (some handle, f) ep h = (handle, refl, cc)

  with_backend-Instance :
      (d : HardwareDevice) (driver : Text) (id : ℕ) (config : Config) (o : Option Text)
      (f : Factory W) (ep : IreeEp)
      → (with_backend rt d driver id config o f).0 ≡ created ep
      → (backend : Text) × (o ≡ some backend)
        × (is_cpu d.device_type || not (is_empty config.target_arch) ≡ true)
        × Instance
            (record config { backend = backend })
            id
            f.ep_name
            (get_device_for_id rt id f)
            (with_backend rt d driver id config o f)
            ep
  unfolding with_backend
  with_backend-Instance d driver id config none f ep = λ h. cc
  with_backend-Instance d driver id config (some backend) f ep =
      elim (Bool-cases (not (is_cpu d.device_type) && is_empty config.target_arch)) [
        | inl e ↦ rw e (λ h. cc)
        | inr e ↦ rw e λ h. (
          backend,
          refl,
          ground arith,
          finish-Instance (record config { backend = backend }) id f.ep_name
              (get_device_for_id rt id f) ep h,
        )
      ]

  with_id-Creates :
      (d : HardwareDevice) (i : Identity) (options : Option SessionOptions) (o : Option ℕ)
      (f : Factory W) (ep : IreeEp)
      → identity rt d ≡ some i
      → stoul i.device_id_str ≡ o
      → (with_id rt d i.driver_name options o f).0 ≡ created ep
      → Creates d options f (with_id rt d i.driver_name options o f).1 ep
  unfolding with_id
  with_id-Creates d i options none f ep known parsed h = cc
  with_id-Creates d i options (some id) f ep known parsed h =
      let (backend, selected, targeted, (handle, opened, same)) =
        with_backend-Instance d i.driver_name (id % 2 ^ 32) (read_config options)
          (select_backend i.driver_name) f ep h in
      record {
        ident = i;
        id = id;
        backend = backend;
        handle = handle;
        identified = known;
        parsed = parsed;
        selected = selected;
        targeted = targeted;
        configured = same;
        opened = opened;
      }

  with_identity-Creates :
      (d : HardwareDevice) (options : Option SessionOptions) (o : Option Identity) (f : Factory W)
      (ep : IreeEp)
      → identity rt d ≡ o
      → (with_identity rt d options o f).0 ≡ created ep
      → Creates d options f (with_identity rt d options o f).1 ep
  unfolding with_identity
  with_identity-Creates d options none f ep known h = cc
  with_identity-Creates d options (some i) f ep known h =
      with_id-Creates d i options (stoul i.device_id_str) f ep known refl h

  pub create_ep-Creates :
      (ds : List HardwareDevice) (options : Option SessionOptions) (f : Factory W) (ep : IreeEp)
      → (create_ep rt ds options f).0 ≡ created ep
      → (d : HardwareDevice) × (ds ≡ d ∷ []) × Creates d options f (create_ep rt ds options f).1 ep
  unfolding create_ep
  create_ep-Creates [] options f ep h = cc
  create_ep-Creates (d ∷ []) options f ep h =
      (d, refl, with_identity-Creates d options (identity rt d) f ep refl h)
  create_ep-Creates (d ∷ e ∷ ds) options f ep h = cc

  pub create_ep_one :
      (d : HardwareDevice) (options : Option SessionOptions) (f : Factory W) (ep : IreeEp)
      → (create_ep rt (d ∷ []) options f).0 ≡ created ep
      → Creates d options f (create_ep rt (d ∷ []) options f).1 ep
  unfolding create_ep
  create_ep_one d options f ep h = with_identity-Creates d options (identity rt d) f ep refl h

  Creates-device :
      (d : HardwareDevice) (options : Option SessionOptions) (f g : Factory W) (ep : IreeEp)
      → (c : Creates d options f g ep) → get_device_for_id rt ep.device_id g ≡ (some c.handle, g)
  Creates-device d options f g ep c = rw c.configured (
      subst
        (λ (p : Option ℕ × Factory W).
          get_device_for_id rt (c.id % 2 ^ 32) p.1 ≡ (some c.handle, p.1))
        c.opened (get_device_for_id_again rt (c.id % 2 ^ 32) c.handle f (ap (λ p. p.0) c.opened)))

  -- The HAL device of a new execution provider is in the cache: asking for it again, as each
  -- computation does, gives that device and changes nothing.
  pub create_ep-device :
      (ds : List HardwareDevice) (options : Option SessionOptions) (f : Factory W) (ep : IreeEp)
      → (create_ep rt ds options f).0 ≡ created ep
      → let g = (create_ep rt ds options f).1 in
        (handle : ℕ) × (get_device_for_id rt ep.device_id g ≡ (some handle, g))
  create_ep-device ds options f ep h =
      let (d, one, c) = create_ep-Creates ds options f ep h in
      (c.handle, Creates-device d options f _ ep c)

  -- A device of type GPU and no target architecture: nothing is created.
  pub create_ep_without_target_arch :
      (d : HardwareDevice) (options : Option SessionOptions) (f : Factory W) (ep : IreeEp)
      → d.device_type ≡ gpu
      → (read_config options).target_arch ≡ []
      → (create_ep rt (d ∷ []) options f).0 ≢ created ep
  unfolding is_cpu
  create_ep_without_target_arch d options f ep kind empty h =
      let targeted = (create_ep_one d options f ep h).targeted in cc (rw (kind, empty) at targeted)
