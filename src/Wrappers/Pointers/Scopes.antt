-- ===== src/Wrappers/Pointers/Scopes.antt =====
-- Code that declares owning pointers of src/iree_wrappers.h: the operations that it performs on them,
-- and its result. `none` stands for undefined behaviour.
use onnxruntime_ep_iree.Common.{ℕ, ◌≡◌, refl, List, [], ◌∷◌, ◌++◌, Option, none, some}
use onnxruntime_ep_iree.Wrappers.{Status, Result, ok, err}
use onnxruntime_ep_iree.Wrappers.Pointers.{Op, construct_op, for_output_op, destroy_op}

abbrev pub Ending {ℓ} : Type ℓ → Type ℓ
Ending A = Option (Result A)

abbrev pub Traced {ℓ} : Type ℓ → Type ℓ
Traced A = List Op × Ending A

abbrev pub pure {ℓ} : {A : Type ℓ} → A → Traced A
pure a = ([], some (ok a))

-- A call that handles no pointers.
abbrev pub untraced {ℓ} : {A : Type ℓ} → Ending A → Traced A
untraced r = ([], r)

abbrev pub fails {ℓ} : {A : Type ℓ} → Status → Traced A
fails status = ([], some (err status))

-- `IREE_ORT_RETURN_IF_ERROR` and `ORT_RETURN_IF_ERROR`.
abbrev pub checked : Option Status → Traced (Unit {0})
checked none = pure tt
checked (some status) = fails status

abbrev pub perform : Op → Traced (Unit {0})
perform op = (op ∷ [], some (ok tt))

-- The operations of what follows come behind; an error returns.
abbrev pub continue {ℓ κ} :
    {A : Type ℓ} {B : Type κ} → List Op → Ending A → (A → Traced B) → Traced B
continue ops none f = (ops, none)
continue ops (some (err status)) f = (ops, some (err status))
continue ops (some (ok a)) f = (ops ++ (f a).0, (f a).1)

module _ {ℓ κ} {A : Type ℓ} {B : Type κ} where
  infixl 1 ◌>>=◌ ◌>>◌
  abbrev pub ◌>>=◌ : Traced A → (A → Traced B) → Traced B
  m >>= f = continue m.0 m.1 f

  abbrev pub ◌>>◌ : Traced A → Traced B → Traced B
  m >> k = m >>= λ _. k

-- A block that declares a pointer: it starts out null, and is destroyed on every way out.
abbrev pub scoped {ℓ} : {A : Type ℓ} → ℕ → Traced A → Traced A
scoped v body = (construct_op v none ∷ (body.0 ++ destroy_op v ∷ []), body.1)

-- A call that creates an object through `ForOutput`; the pointer stays null where it fails.
abbrev pub created : ℕ → ℕ → Option Status → Traced (Unit {0})
created v object none = (for_output_op v (some object) ∷ [], some (ok tt))
created v object (some status) = (for_output_op v none ∷ [], some (err status))

-- The outcome of what stands behind a result.
abbrev pub then {ℓ κ} : {A : Type ℓ} {B : Type κ} → Result A → (A → Ending B) → Ending B
then r f = elim r [ ok a ↦ f a | err status ↦ some (err status) ]

module _ {A B : Type 0} (f : A → Traced B) (g : A → Ending B) (same : (a : A) → (f a).1 ≡ g a) where
  continue-then :
      (ops : List Op) (r : Ending A) (x : Result A) → r ≡ some x → (continue ops r f).1 ≡ then x g
  continue-then ops r (ok a) e = rw e (same a)
  continue-then ops r (err status) e = rw e refl

  pub bind-then : (m : Traced A) (x : Result A) → m.1 ≡ some x → (m >>= f).1 ≡ then x g
  bind-then m x e = continue-then m.0 m.1 x e

-- The outcome behind a status.
abbrev pub behind {ℓ} : {A : Type ℓ} → Option Status → Ending A → Ending A
behind status r = elim status [ some status ↦ some (err status) | none ↦ r ]

module _ {B : Type 0} where
  pub checked-result :
      (status : Option Status) (m : Traced B) → (checked status >> m).1 ≡ behind status m.1
  checked-result none m = refl
  checked-result (some status) m = refl

  pub created-result :
      (v object : ℕ) (status : Option Status) (m : Traced B)
      → (created v object status >> m).1 ≡ behind status m.1
  created-result v object none m = refl
  created-result v object (some status) m = refl

  pub unit-result :
      (m : Traced (Unit {0})) (status : Option Status) (k : Traced B)
      → m.1 ≡ behind status (some (ok tt))
      → (m >> k).1 ≡ behind status k.1
  unit-result m none k e = rw e refl
  unit-result m (some status) k e = rw e refl
