-- ===== src/Wrappers/Pointers/Leads.antt =====
-- What holds of the owning pointers behind a success.
use onnxruntime_ep_iree.Common.{
  ℕ, ◌≡◌, refl, ◌∙◌, false, List, [], ◌∷◌, Option, none, some, ◌==◌, arith,
}
use onnxruntime_ep_iree.Wrappers.{Status, ok, err}
use onnxruntime_ep_iree.Wrappers.Pointers.{
  Pointers, get, Op, move_construct_op, destroy_op, run_op, run_ops, construct, destroy, reset,
  move_from, for_output,
}
use onnxruntime_ep_iree.Wrappers.Pointers.Laws.{get-assign}
use onnxruntime_ep_iree.Wrappers.Pointers.Scopes.{
  Ending, Traced, untraced, checked, perform, continue, ◌>>=◌, scoped, created,
}
use onnxruntime_ep_iree.Wrappers.Pointers.Settles.{run_ops-append}

-- The variable `v` holds the object `x`.
abbrev pub Has : ℕ → ℕ → Pointers → Type 0
Has v x s = get v s.vars ≡ some x

-- From `P` the code leads to `Q` where it succeeds.
pub record Leads {A : Type 0} (P Q : Pointers → Type 0) (m : Traced A) : Type 0 where
  pub leads : (s : Pointers) → P s → (a : A) → m.1 ≡ some (ok a) → Q (run_ops m.0 s)

abbrev pub Always : Pointers → Type 0
Always s = Unit

pub Leads-Always : {A : Type 0} {P : Pointers → Type 0} (m : Traced A) → Leads P Always m
Leads-Always m = record { leads = λ s h a e. tt }

module _ {A : Type 0} (P : Pointers → Type 0) where
  pub Leads-untraced : (r : Ending A) → Leads P P (untraced r)
  unfolding run_ops
  Leads-untraced r = record { leads = λ s h a e. h }

pub Leads-checked : (P : Pointers → Type 0) (status : Option Status) → Leads P P (checked status)
unfolding run_ops
Leads-checked P none = record { leads = λ s h a e. h }
Leads-checked P (some status) = record { leads = λ s h a e. h }

module _ {A B : Type 0} (P R Q : Pointers → Type 0) where
  continue-Leads :
      (ops : List Op) (r : Ending A) (f : A → Traced B)
      → Leads P R (ops, r)
      → ((a : A) → Leads R Q (f a))
      → Leads P Q (continue ops r f)
  continue-Leads ops none f hm hf = record { leads = λ s h a e. cc }
  continue-Leads ops (some (err status)) f hm hf = record { leads = λ s h a e. cc }
  continue-Leads ops (some (ok a)) f hm hf = record {
    leads = λ s h b e.
        rw (run_ops-append ops (f a).0 s) ((hf a).leads (run_ops ops s) (hm.leads s h a refl) b e);
  }

  pub Leads-bind :
      (m : Traced A) (f : A → Traced B)
      → Leads P R m
      → ((a : A) → Leads R Q (f a))
      → Leads P Q (m >>= f)
  Leads-bind m f = continue-Leads m.0 m.1 f

-- A variable keeps its object where another one is assigned.
kept :
    (u v x : ℕ) (p : Option ℕ) (s : Pointers) → (v == u) ≡ false → Has u x s → Has u x (reset v p s)
unfolding reset
kept u v x p s ne h = get-assign u v p s.vars ∙ rw ne h

pub Leads-scoped :
    {A : Type 0} (P Q : Pointers → Type 0) (v : ℕ) (m : Traced A)
    → ((s : Pointers) → P s → P (construct v none s))
    → ((s : Pointers) → Q s → Q (destroy v s))
    → Leads P Q m
    → Leads P Q (scoped v m)
unfolding run_ops run_op
Leads-scoped P Q v m before behind hm = record {
  leads = λ s h a e.
      rw (run_ops-append m.0 (destroy_op v ∷ []) (construct v none s))
        (behind _ (hm.leads (construct v none s) (before s h) a e));
}

pub construct-Has :
    (u v x : ℕ) → (v == u) ≡ false → (s : Pointers) → Has u x s → Has u x (construct v none s)
unfolding construct
construct-Has u v x ne s h = kept u v x none s ne h

pub destroy-Has :
    (u v x : ℕ) → (v == u) ≡ false → (s : Pointers) → Has u x s → Has u x (destroy v s)
unfolding destroy
destroy-Has u v x ne s h = kept u v x none s ne h

pub Leads-created :
    (v object : ℕ) (status : Option Status) → Leads Always (Has v object) (created v object status)
unfolding run_ops run_op for_output
Leads-created v object none = record {
  leads = λ s h a e. get-assign v v (some object) _ ∙ ground arith;
}
Leads-created v object (some status) = record { leads = λ s h a e. cc }

pub Leads-created_other :
    (u x v object : ℕ) (status : Option Status)
    → (v == u) ≡ false
    → Leads (Has u x) (Has u x) (created v object status)
unfolding run_ops run_op for_output reset
Leads-created_other u x v object none ne = record {
  leads = λ s h a e. get-assign u v (some object) _ ∙ rw ne (kept u v x none s ne h);
}
Leads-created_other u x v object (some status) ne = record { leads = λ s h a e. cc }

pub Leads-move_construct :
    (v other x : ℕ)
    → (other == v) ≡ false
    → (v == other) ≡ false
    → Leads (Has other x) (Has v x) (perform (move_construct_op v other))
unfolding run_ops run_op move_from
Leads-move_construct v other x ne ne' = record {
  leads = λ s h a e.
      get-assign v other none _
      ∙ rw ne (get-assign v v _ _ ∙ ground (arith, kept other v x none s ne' h));
}
