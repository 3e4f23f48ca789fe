-- ===== src/Allocator/Live.antt =====
-- The pointers that are allocated, against a description that forgets the map.
use onnxruntime_ep_iree.Common.{
  ℕ, ◌≡◌, ◌≢◌, refl, ap, subst, ==_iff, ◌∙◌, inl, inr, Bool, true, false, not, ◌&&◌, ◌||◌, List, [],
  ◌∷◌, Option, none, some, arith, ◌==◌, if◌then◌else◌, Option-cases, Bool-cases,
}
use onnxruntime_ep_iree.Factory.State.{find, assign, find-assign}
use onnxruntime_ep_iree.Allocator.{Allocator, erase, store, alloc, free_found, free}
use onnxruntime_ep_iree.Allocator.Laws.{Op, alloc_op, free_op, run_ops}

abbrev pub is_some {ℓ} : {A : Type ℓ} → Option A → Bool
is_some none = false
is_some (some a) = true

-- Each key stands once.
abbrev pub Unique : List (ℕ × ℕ) → Type 0
Unique [] = Unit
Unique ((k, buffer) ∷ m) = (find k m ≡ none) × Unique m

find-erase :
    (q p : ℕ) (m : List (ℕ × ℕ))
    → Unique m
    → find q (erase p m) ≡ (if p == q then none else find q m)
unfolding find erase
find-erase q p [] h = ground arith
find-erase q p ((k, b) ∷ m) h = ground (arith, find-erase q p m h.1, h.0)

erase-Unique : (p : ℕ) (m : List (ℕ × ℕ)) → Unique m → Unique (erase p m)
unfolding erase
erase-Unique p [] h = tt
erase-Unique p ((k, b) ∷ m) h = elim (Bool-cases (k == p)) [
  | inl e ↦ rw e h.1
  | inr e ↦ rw e (ground (arith, find-erase k p m h.1, h.0), erase-Unique p m h.1)
]

assign-Unique : (k v : ℕ) (m : List (ℕ × ℕ)) → Unique m → Unique (assign k v m)
unfolding assign find
assign-Unique k v [] h = (refl, tt)
assign-Unique k v ((j, w) ∷ m) h = elim (Bool-cases (j == k)) [
  | inl e ↦ rw e (ground (arith, h.0, e), h.1)
  | inr e ↦ rw e (ground (arith, find-assign k j v m, h.0), assign-Unique k v m h.1)
]

-- The description: a set of pointers. A null pointer is neither added nor removed.
abbrev pub add : ℕ → (ℕ → Bool) → ℕ → Bool
add p live q = if p == 0 then live q else (p == q) || live q

abbrev pub drop : ℕ → (ℕ → Bool) → ℕ → Bool
drop p live q = if p == 0 then live q else not (p == q) && live q

abbrev pub allocated : {W : Type 0} → Allocator W → ℕ → Bool
allocated s q = is_some (find q s.allocations)

free_found-allocated :
    {W : Type 0} (p q : ℕ) (s : Allocator W)
    → Unique s.allocations
    → allocated (free_found p (find p s.allocations) s) q ≡ (not (p == q) && allocated s q)
unfolding free_found
free_found-allocated p q s u = elim (Option-cases (find p s.allocations)) [
  | inl e ↦
      rw (e, free_found)
        (elim (Bool-cases (p == q)) [
          | inl same ↦
              rw (same, subst (λ n. find n s.allocations ≡ none) ((==_iff p q).0 same) e) refl
          | inr other ↦ rw other refl
        ])
  | inr (b, e) ↦ rw (e, free_found) (ground (arith, find-erase q p s.allocations u))
]

free_found-Unique :
    {W : Type 0} (p : ℕ) (o : Option ℕ) (s : Allocator W)
    → Unique s.allocations
    → Unique (free_found p o s).allocations
unfolding free_found
free_found-Unique p none s u = u
free_found-Unique p (some b) s u = erase-Unique p s.allocations u

free-allocated :
    {W : Type 0} (p q : ℕ) (s : Allocator W)
    → Unique s.allocations
    → allocated (free p s) q ≡ drop p (allocated s) q
unfolding free
free-allocated p q s u = elim (Bool-cases (p == 0)) [
  | inl e ↦ rw e refl
  | inr e ↦ rw e (free_found-allocated p q s u)
]

free-Unique :
    {W : Type 0} (p : ℕ) (s : Allocator W) → Unique s.allocations → Unique (free p s).allocations
unfolding free
free-Unique p s u = elim (Bool-cases (p == 0)) [
  | inl e ↦ rw e u
  | inr e ↦ rw e (free_found-Unique p (find p s.allocations) s u)
]

module _ {W : Type 0} (allocate_buffer : ℕ → ℕ → W → Option ℕ × W) where
  store-allocated :
      (r : Option ℕ × W) (q : ℕ) (s : Allocator W)
      → r.0 ≢ some 0
      → let (p, t) = store allocate_buffer r s in allocated t q ≡ add p (allocated s) q
  unfolding store
  store-allocated (none, w) q s nonnull = refl
  store-allocated (some b, w) q s nonnull = elim (Bool-cases (b == 0)) [
    | inl null ↦ absurd (nonnull (ap some ((==_iff b 0).0 null)))
    | inr e ↦
        rw (e, find-assign b q b s.allocations)
          (elim (Bool-cases (b == q)) [ inl same ↦ rw same refl | inr other ↦ rw other refl ])
  ]

  store-Unique :
      (r : Option ℕ × W) (s : Allocator W)
      → Unique s.allocations
      → Unique (store allocate_buffer r s).1.allocations
  unfolding store
  store-Unique (none, w) s u = u
  store-Unique (some b, w) s u = assign-Unique b b s.allocations u

  alloc-allocated :
      (size q : ℕ) (s : Allocator W)
      → ((device n : ℕ) (w : W) → (allocate_buffer device n w).0 ≢ some 0)
      → let (p, t) = alloc allocate_buffer size s in allocated t q ≡ add p (allocated s) q
  unfolding alloc
  alloc-allocated size q s nonnull = elim (Bool-cases (size == 0)) [
    | inl e ↦ rw e refl
    | inr e ↦ rw e (
        store-allocated (allocate_buffer s.init.device size s.world) q s
          (nonnull s.init.device size s.world))
  ]

  alloc-Unique :
      (size : ℕ) (s : Allocator W)
      → Unique s.allocations
      → Unique (alloc allocate_buffer size s).1.allocations
  unfolding alloc
  alloc-Unique size s u = elim (Bool-cases (size == 0)) [
    | inl e ↦ rw e u
    | inr e ↦ rw e (store-Unique (allocate_buffer s.init.device size s.world) s u)
  ]

  -- The set after the calls: each pointer that `Alloc` returns is added, and each that `Free` is given
  -- is removed.
  unfoldable pub described : List Op → Allocator W → (ℕ → Bool) → ℕ → Bool
  described [] s live = live
  described (alloc_op size ∷ ops) s live =
      let (p, t) = alloc allocate_buffer size s in described ops t (add p live)
  described (free_op p ∷ ops) s live = described ops (free p s) (drop p live)

  add_mono : (p q : ℕ) (live after : ℕ → Bool) → live q ≡ after q → add p live q ≡ add p after q
  add_mono p q live after h = rw h refl

  drop_mono : (p q : ℕ) (live after : ℕ → Bool) → live q ≡ after q → drop p live q ≡ drop p after q
  drop_mono p q live after h = rw h refl

  -- Where the runtime never gives a null buffer, and the allocations have each key once and are those
  -- of a set of pointers: after any calls of `Alloc` and `Free`, also of `Free` with pointers that are
  -- unknown or freed already, a pointer is in the allocations exactly if it is in the set to which
  -- `Alloc` adds the pointers that it returns, and from which `Free` removes those it is given.
  pub run_ops-described :
      (ops : List Op) (s : Allocator W) (live : ℕ → Bool) (q : ℕ)
      → ((device n : ℕ) (w : W) → (allocate_buffer device n w).0 ≢ some 0)
      → Unique s.allocations
      → ((r : ℕ) → allocated s r ≡ live r)
      → allocated (run_ops allocate_buffer ops s) q ≡ described ops s live q
  unfolding run_ops described
  run_ops-described [] s live q nonnull u h = h q
  run_ops-described (alloc_op size ∷ ops) s live q nonnull u h =
      let (p, t) = alloc allocate_buffer size s in
      run_ops-described ops t (add p live) q nonnull (alloc-Unique size s u)
        (λ r. alloc-allocated size r s nonnull ∙ add_mono p r (allocated s) live (h r))
  run_ops-described (free_op p ∷ ops) s live q nonnull u h =
      run_ops-described ops (free p s) (drop p live) q nonnull (free-Unique p s u)
        (λ r. free-allocated p r s u ∙ drop_mono p r (allocated s) live (h r))
