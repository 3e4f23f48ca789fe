-- ===== src/Allocator/Laws.antt =====
-- The buffers are released as often as they are given.
use onnxruntime_ep_iree.Common.{
  ℕ, ◌+◌, ◌≡◌, sym, ◌∙◌, inl, inr, List, [], ◌∷◌, Option, none, some, arith, ◌==◌, if◌then◌else◌,
  Option-cases, Bool-cases,
}
use onnxruntime_ep_iree.Factory.State.{find, assign}
use onnxruntime_ep_iree.Allocator.{
  Allocator, erase, release, store, alloc, free_found, free, release_all, destroy,
}

-- How often a buffer stands in a list.
unfoldable pub count : ℕ → List ℕ → ℕ
count b [] = 0
count b (x ∷ xs) = if x == b then 1 + count b xs else count b xs

-- How many of the pointers own the buffer.
unfoldable pub owned : ℕ → List (ℕ × ℕ) → ℕ
owned b [] = 0
owned b ((k, x) ∷ m) = if x == b then 1 + owned b m else owned b m

-- Every reference that was given is owned by the allocator or released.
abbrev pub Balanced : {W : Type 0} → Allocator W → Type 0
Balanced s = (b : ℕ) → count b s.given ≡ count b s.released + owned b s.allocations

owned-assign :
    (b k v : ℕ) (m : List (ℕ × ℕ)) (rest : List ℕ)
    → count b (release (find k m) rest) + owned b (assign k v m) ≡ count b (v ∷ rest) + owned b m
unfolding find assign owned count
owned-assign b k v [] rest = ground arith
owned-assign b k v ((j, w) ∷ m) rest = ground (arith, owned-assign b k v m rest)

owned-erase :
    (b k w : ℕ) (m : List (ℕ × ℕ)) (rest : List ℕ)
    → find k m ≡ some w
    → count b (w ∷ rest) + owned b (erase k m) ≡ count b rest + owned b m
unfolding find erase owned count
owned-erase b k w [] rest h = cc
owned-erase b k w ((j, x) ∷ m) rest h = ground (arith, owned-erase b k w m rest)

count-release_all :
    (b : ℕ) (m : List (ℕ × ℕ)) (rest : List ℕ)
    → count b (release_all m rest) ≡ count b rest + owned b m
unfolding release_all owned count
count-release_all b [] rest = omega arith
count-release_all b ((k, x) ∷ m) rest = ground (arith, count-release_all b m (x ∷ rest))

free_found-Balanced :
    {W : Type 0} (p : ℕ) (s : Allocator W)
    → Balanced s
    → Balanced (free_found p (find p s.allocations) s)
unfolding free_found
free_found-Balanced p s h = elim (Option-cases (find p s.allocations)) [
  | inl e ↦ rw e h
  | inr (w, e) ↦ rw e (λ b. h b ∙ sym (owned-erase b p w s.allocations s.released e))
]

free-Balanced : {W : Type 0} (p : ℕ) (s : Allocator W) → Balanced s → Balanced (free p s)
unfolding free
free-Balanced p s h = elim (Bool-cases (p == 0)) [
  | inl e ↦ rw e h
  | inr e ↦ rw e (free_found-Balanced p s h)
]

pub data Op : Type 0 where
  alloc_op : ℕ → Op
  free_op : ℕ → Op

module _ {W : Type 0} (allocate_buffer : ℕ → ℕ → W → Option ℕ × W) where
  store-Balanced :
      (r : Option ℕ × W) (s : Allocator W) → Balanced s → Balanced (store allocate_buffer r s).1
  unfolding store
  store-Balanced (none, w) s h = h
  store-Balanced (some buffer, w) s h = λ b.
      let moved = owned-assign b buffer buffer s.allocations s.released in
      let before = h b in unfold count in ground (arith, moved, before)

  alloc-Balanced :
      (size : ℕ) (s : Allocator W) → Balanced s → Balanced (alloc allocate_buffer size s).1
  unfolding alloc
  alloc-Balanced size s h = elim (Bool-cases (size == 0)) [
    | inl e ↦ rw e h
    | inr e ↦ rw e (store-Balanced (allocate_buffer s.init.device size s.world) s h)
  ]

  -- A sequence of calls, in order.
  unfoldable pub run_ops : List Op → Allocator W → Allocator W
  run_ops [] s = s
  run_ops (alloc_op size ∷ ops) s = run_ops ops (alloc allocate_buffer size s).1
  run_ops (free_op p ∷ ops) s = run_ops ops (free p s)

  run_ops-Balanced : (ops : List Op) (s : Allocator W) → Balanced s → Balanced (run_ops ops s)
  unfolding run_ops
  run_ops-Balanced [] s h = h
  run_ops-Balanced (alloc_op size ∷ ops) s h = run_ops-Balanced ops _ (alloc-Balanced size s h)
  run_ops-Balanced (free_op p ∷ ops) s h = run_ops-Balanced ops _ (free-Balanced p s h)

  -- If every reference that was given is owned or released at first, then after any calls of `Alloc`
  -- and `Free`, also of `Free` with pointers that are unknown or freed already, and the destructor,
  -- each buffer has been released exactly as often as the runtime has given it.
  pub destroy-count :
      (ops : List Op) (s : Allocator W) (b : ℕ)
      → Balanced s
      → count b (destroy (run_ops ops s)).released ≡ count b (destroy (run_ops ops s)).given
  unfolding destroy
  destroy-count ops s b h =
      count-release_all b (run_ops ops s).allocations (run_ops ops s).released
      ∙ sym (run_ops-Balanced ops s h b)
