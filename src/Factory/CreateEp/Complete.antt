-- ===== src/Factory/CreateEp/Complete.antt =====
-- `CreateEpImpl` creates an execution provider exactly where nothing stands against it.
use mathlib.Core.Option.{some-injective}
use onnxruntime_ep_iree.Common.{
  ℕ, ◌%◌, ◌^◌, ◌≡◌, ◌≢◌, ◌↔◌, sym, ap, ◌∙◌, subst, ◌⊎◌, true, false, not, ◌&&◌, ◌||◌, List, [], ◌∷◌,
  Option, none, some, arith, Text, codes, is_empty, In,
}
use onnxruntime_ep_iree.Common.Decimal.{stoul}
use onnxruntime_ep_iree.Factory.State.{Factory, HardwareDevice, cpu}
use onnxruntime_ep_iree.Factory.Cache.{Runtime, get_device_for_id}
use onnxruntime_ep_iree.Factory.CreateEp.{
  SessionOptions, IreeEp, created, read_config, is_cpu, Identity, identity, finish, instantiate,
  with_backend, with_id, with_identity, create_ep,
}
use onnxruntime_ep_iree.Factory.CreateEp.Laws.{Creates, create_ep-Creates}
use onnxruntime_ep_iree.Factory.CreateEp.Tables.{
  backends, option_or, config_for, read_config-config_for, select_backend-backends, is_cpu_iff,
}

module _ {W : Type 0} (rt : Runtime W) where
  identity-found :
      (d : HardwareDevice) (i : Identity)
      → (identity rt d ≡ some i) ↔ (
          (rt.get_key_value d.metadata (codes "iree.driver") ≡ some i.driver_name)
          × (rt.get_key_value d.metadata (codes "iree.device_path") ≡ some i.device_path)
          × (rt.get_key_value d.metadata (codes "iree.device_id") ≡ some i.device_id_str))
  unfolding identity
  identity-found d i =
      by_values (rt.get_key_value d.metadata (codes "iree.driver"))
        (rt.get_key_value d.metadata (codes "iree.device_path"))
        (rt.get_key_value d.metadata (codes "iree.device_id"))
    where
      by_values :
          (a b c : Option Text)
          → (elim a [
            | none ↦ none
            | some driver_name ↦ elim b [
              | none ↦ none
              | some device_path ↦ elim c [
                | none ↦ none
                | some device_id_str ↦ some (record {
                  driver_name = driver_name;
                  device_path = device_path;
                  device_id_str = device_id_str;
                })
              ]
            ]
          ]
              ≡ some i)
            ↔ ((a ≡ some i.driver_name) × (b ≡ some i.device_path) × (c ≡ some i.device_id_str))
      by_values none b c = (λ h. cc, λ (x, y, z). cc)
      by_values (some a) none c = (λ h. cc, λ (x, y, z). cc)
      by_values (some a) (some b) none = (λ h. cc, λ (x, y, z). cc)
      by_values (some a) (some b) (some c) = (
        λ h.
            let e = some-injective _ i h in
            (
              ap (λ j. some j.driver_name) e,
              ap (λ j. some j.device_path) e,
              ap (λ j. some j.device_id_str) e,
            ),
        λ (x, y, z). λ k. some (record {
          driver_name = some-injective a i.driver_name x k;
          device_path = some-injective b i.device_path y k;
          device_id_str = some-injective c i.device_id_str z k;
        }),
      )

  -- What the metadata, the session and the device cache answer where an execution provider is
  -- created, and what it is.
  pub record Described (d : HardwareDevice) (options : Option SessionOptions) (f g : Factory W)
      (ep : IreeEp) : Type 0 where
    pub driver : Text
    pub path : Text
    pub id_text : Text
    pub id : ℕ
    pub backend : Text
    pub handle : ℕ
    pub has_driver : rt.get_key_value d.metadata (codes "iree.driver") ≡ some driver
    pub has_path : rt.get_key_value d.metadata (codes "iree.device_path") ≡ some path
    pub has_id : rt.get_key_value d.metadata (codes "iree.device_id") ≡ some id_text
    pub parsed : stoul id_text ≡ some id
    pub supported : In (driver, backend) backends
    pub targeted : (d.device_type ≡ cpu) ⊎ (option_or options (codes "ep.iree.target_arch") [] ≢ [])
    pub opened : get_device_for_id rt (id % 2 ^ 32) f ≡ (some handle, g)
    pub instance_ :
        ep
        ≡ record { name = f.ep_name; config = config_for options backend; device_id = id % 2 ^ 32 }

  Creates-create_ep :
      (d : HardwareDevice) (options : Option SessionOptions) (f g : Factory W) (ep : IreeEp)
      → Creates rt d options f g ep
      → create_ep rt (d ∷ []) options f ≡ (created ep, g)
  unfolding create_ep with_identity with_id with_backend instantiate finish
  Creates-create_ep d options f g ep c =
      let passes : not (is_cpu d.device_type) && is_empty (read_config options).target_arch
          ≡ false =
        ground (arith, c.targeted) in
      rw (c.identified, c.parsed, c.selected, passes, c.opened, c.configured)

  target_arch_of :
      (options : Option SessionOptions)
      → (read_config options).target_arch ≡ option_or options (codes "ep.iree.target_arch") []
  target_arch_of options = ap (λ c. c.target_arch) (read_config-config_for options [])

  Creates-Described :
      (d : HardwareDevice) (options : Option SessionOptions) (f g : Factory W) (ep : IreeEp)
      → Creates rt d options f g ep ↔ Described d options f g ep
  Creates-Described d options f g ep = (
    λ c.
        let (driver, path, id_text) = (identity-found d c.ident).0 c.identified in
        record {
          driver = c.ident.driver_name;
          path = c.ident.device_path;
          id_text = c.ident.device_id_str;
          id = c.id;
          backend = c.backend;
          handle = c.handle;
          has_driver = driver;
          has_path = path;
          has_id = id_text;
          parsed = c.parsed;
          supported = (select_backend-backends c.ident.driver_name c.backend).0 c.selected;
          targeted =
              (is_cpu_iff d.device_type (option_or options (codes "ep.iree.target_arch") [])).0 (
                subst (λ t. is_cpu d.device_type || not (is_empty t) ≡ true)
                  (target_arch_of options) c.targeted);
          opened = c.opened;
          instance_ =
              c.configured
              ∙ ap (λ k. record { name = f.ep_name; config = k; device_id = c.id % 2 ^ 32 })
                  (read_config-config_for options c.backend);
        },
    λ k. record {
      ident = record { driver_name = k.driver; device_path = k.path; device_id_str = k.id_text };
      id = k.id;
      backend = k.backend;
      handle = k.handle;
      identified =
          (identity-found d (record {
            driver_name = k.driver;
            device_path = k.path;
            device_id_str = k.id_text;
          })).1
            (k.has_driver, k.has_path, k.has_id);
      parsed = k.parsed;
      selected = (select_backend-backends k.driver k.backend).1 k.supported;
      targeted =
          subst (λ t. is_cpu d.device_type || not (is_empty t) ≡ true)
            (sym (target_arch_of options))
            ((is_cpu_iff d.device_type (option_or options (codes "ep.iree.target_arch") [])).1
              k.targeted);
      configured =
          k.instance_
          ∙ ap (λ c. record { name = f.ep_name; config = c; device_id = k.id % 2 ^ 32 })
              (sym (read_config-config_for options k.backend));
      opened = k.opened;
    },
  )

  -- `CreateEpImpl` creates an execution provider exactly for a single device whose metadata have
  -- the driver, the path and the device id, where the id can be parsed, the driver is one of the
  -- supported ones, the session names a target architecture unless the device is a CPU, and the
  -- HAL device opens. The instance has the name of the factory, the options of the session or
  -- their defaults, the backend of the driver and the id, in 32 bits; the factory is as the lookup
  -- of the device leaves it.
  pub create_ep-Described :
      (ds : List HardwareDevice) (options : Option SessionOptions) (f g : Factory W) (ep : IreeEp)
      → (create_ep rt ds options f ≡ (created ep, g))
        ↔ ((d : HardwareDevice) × (ds ≡ d ∷ []) × Described d options f g ep)
  create_ep-Described ds options f g ep = (
    λ h.
        let (d, one, c) = create_ep-Creates rt ds options f ep (ap (λ r. r.0) h) in
        (
          d,
          one,
          (Creates-Described d options f g ep).0
              (subst (λ x. Creates rt d options f x ep) (ap (λ r. r.1) h) c),
        ),
    λ (d, one, k).
        ap (λ l. create_ep rt l options f) one
        ∙ Creates-create_ep d options f g ep ((Creates-Described d options f g ep).1 k),
  )
