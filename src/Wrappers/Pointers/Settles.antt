-- ===== src/Wrappers/Pointers/Settles.antt =====
-- What code leaves in the owning pointers, by the way that it ends.
use onnxruntime_ep_iree.Common.{
  ℕ, ◌≡◌, refl, subst, inl, inr, List, [], ◌∷◌, ◌++◌, Option, none, some, append-nil, arith, ◌==◌,
  Bool-cases, In, tally,
}
use onnxruntime_ep_iree.Factory.State.{find}
use onnxruntime_ep_iree.Wrappers.{Status, ok, err}
use onnxruntime_ep_iree.Wrappers.Pointers.{
  Pointers, Op, move_construct_op, move_assign_op, destroy_op, run_op, run_ops, construct,
  move_assign,
}
use onnxruntime_ep_iree.Wrappers.Pointers.Laws.{
  count, none_yet, none_yet-Balanced, run_ops-Balanced,
}
use onnxruntime_ep_iree.Wrappers.Pointers.Null.{
  Holds, Holds-mono, Holds-destroy, Holds-construct, Holds-for_output, Holds-move_from, null-owned,
}
use onnxruntime_ep_iree.Wrappers.Pointers.Scopes.{
  Ending, Traced, pure, untraced, fails, checked, perform, continue, ◌>>=◌, scoped, created,
}

-- `ws` on success, and otherwise `vs`.
abbrev pub remaining {ℓ} : {A : Type ℓ} → List ℕ → List ℕ → Ending A → List ℕ
remaining vs ws none = vs
remaining vs ws (some (err status)) = vs
remaining vs ws (some (ok a)) = ws

-- If at most the variables `vs` hold objects before, at most the variables `ws` do behind a success,
-- and at most `vs` behind an error.
pub record Settles {ℓ} {A : Type ℓ} (vs ws : List ℕ) (m : Traced A) : Type 0 where
  pub settled : (s : Pointers) → Holds vs s → Holds (remaining vs ws m.1) (run_ops m.0 s)

pub run_ops-append :
    (xs ys : List Op) (s : Pointers) → run_ops (xs ++ ys) s ≡ run_ops ys (run_ops xs s)
unfolding run_ops
run_ops-append [] ys s = refl
run_ops-append (op ∷ xs) ys s = run_ops-append xs ys (run_op op s)

module _ (vs : List ℕ) where
  pub Settles-untraced {ℓ} : {A : Type ℓ} (r : Ending A) → Settles vs vs (untraced r)
  unfolding run_ops
  Settles-untraced none = record { settled = λ s h. h }
  Settles-untraced (some (err status)) = record { settled = λ s h. h }
  Settles-untraced (some (ok a)) = record { settled = λ s h. h }

  pub Settles-fails {ℓ} :
      {A : Type ℓ} (ws : List ℕ) (status : Status) → Settles vs ws (fails {A = A} status)
  unfolding run_ops
  Settles-fails ws status = record { settled = λ s h. h }

  pub Settles-checked : (status : Option Status) → Settles vs vs (checked status)
  unfolding run_ops
  Settles-checked none = record { settled = λ s h. h }
  Settles-checked (some status) = record { settled = λ s h. h }

  pub Settles-created :
      (v object : ℕ) (status : Option Status) → In v vs → Settles vs vs (created v object status)
  unfolding run_ops run_op
  Settles-created v object none m = record {
    settled = λ s h. Holds-for_output vs s v (some object) m h;
  }
  Settles-created v object (some status) m = record {
    settled = λ s h. Holds-for_output vs s v none m h;
  }

  pub Settles-move_assign :
      (v other : ℕ) → In v vs → Settles vs vs (perform (move_assign_op v other))
  unfolding run_ops run_op move_assign
  Settles-move_assign v other m = record {
    settled = λ s h. elim (Bool-cases (v == other)) [
      | inl e ↦ rw e h
      | inr e ↦ rw e (Holds-move_from vs s v other m h)
    ];
  }

  pub Settles-move_construct :
      (ws : List ℕ) (v other : ℕ)
      → ((u : ℕ) → In u vs → In u ws)
      → In v ws
      → Settles vs ws (perform (move_construct_op v other))
  unfolding run_ops run_op
  Settles-move_construct ws v other sub m = record {
    settled = λ s h. Holds-move_from ws s v other m (Holds-mono vs ws s sub h);
  }

  module _ {ℓ κ} {A : Type ℓ} {B : Type κ} (ws : List ℕ) where
    continue-Settles :
        (ops : List Op) (r : Ending A) (f : A → Traced B)
        → Settles vs vs (ops, r)
        → ((a : A) → Settles vs ws (f a))
        → Settles vs ws (continue ops r f)
    continue-Settles ops none f hm hf = record { settled = hm.settled }
    continue-Settles ops (some (err status)) f hm hf = record { settled = hm.settled }
    continue-Settles ops (some (ok a)) f hm hf = record {
      settled = λ s h.
          rw (run_ops-append ops (f a).0 s) ((hf a).settled (run_ops ops s) (hm.settled s h));
    }

    pub Settles-bind :
        (m : Traced A) (f : A → Traced B)
        → Settles vs vs m
        → ((a : A) → Settles vs ws (f a))
        → Settles vs ws (m >>= f)
    Settles-bind m f = continue-Settles m.0 m.1 f

  continue-return {ℓ κ} :
      {A : Type ℓ} {B : Type κ} (ws : List ℕ) (ops : List Op) (r : Ending A) (g : A → B)
      → Settles vs ws (ops, r)
      → Settles vs ws (continue ops r (λ a. pure (g a)))
  continue-return ws ops none g h = record { settled = h.settled }
  continue-return ws ops (some (err status)) g h = record { settled = h.settled }
  continue-return ws ops (some (ok a)) g h = record {
    settled = λ s held. rw append-nil (h.settled s held);
  }

  pub Settles-return {ℓ κ} :
      {A : Type ℓ} {B : Type κ} (ws : List ℕ) (m : Traced A) (g : A → B)
      → Settles vs ws m
      → Settles vs ws (m >>= λ a. pure (g a))
  Settles-return ws m g = continue-return ws m.0 m.1 g

  remaining-cons {ℓ} :
      {A : Type ℓ} (v : ℕ) (ws : List ℕ) (r : Ending A)
      → remaining (v ∷ vs) (v ∷ ws) r ≡ v ∷ remaining vs ws r
  remaining-cons v ws none = refl
  remaining-cons v ws (some (err status)) = refl
  remaining-cons v ws (some (ok a)) = refl

  pub Settles-scoped {ℓ} :
      {A : Type ℓ} (v : ℕ) (ws : List ℕ) (m : Traced A)
      → Settles (v ∷ vs) (v ∷ ws) m
      → Settles vs ws (scoped v m)
  unfolding run_ops run_op
  Settles-scoped v ws m hm = record {
    settled = λ s h. rw (run_ops-append m.0 (destroy_op v ∷ []) (construct v none s)) (
        Holds-destroy (remaining vs ws m.1) _ v (
          subst (λ us. Holds us (run_ops m.0 (construct v none s))) (remaining-cons v ws m.1)
            (hm.settled _ (Holds-construct vs s v h))));
  }

-- If no pointer holds an object, each object has been released as often as ownership of it came in.
pub Holds-balance :
    (ops : List Op) (b : ℕ)
    → Holds [] (run_ops ops none_yet)
    → count b (run_ops ops none_yet).released ≡ count b (run_ops ops none_yet).given
unfolding tally
Holds-balance ops b h =
    let s = run_ops ops none_yet in
    let no_owner =
      null-owned b s.vars h.distinct λ u. elim (h.null u) [ inl m ↦ absurd m | inr y ↦ y ] in
    let no_taker : count b s.taken ≡ 0 = rw h.taken refl in
    omega (arith, run_ops-Balanced ops none_yet none_yet-Balanced b, no_owner, no_taker)

pub none_yet-Holds : Holds [] none_yet
unfolding find
none_yet-Holds = record { distinct = tt; null = λ u. inr refl; taken = refl }
