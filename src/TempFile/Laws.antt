-- ===== src/TempFile/Laws.antt =====
-- What the destructor of a temporary file leaves.
use mathlib.Core.List.{append_cancel_left, append_cancel_right}
use mathlib.Core.Option.{some-injective}
use onnxruntime_ep_iree.Common.{
  sym, ap, ◌∙◌, ℕ, ◌<◌, ◌^◌, Bool, ◌||◌, ◌≡◌, refl, inl, inr, false, not, ◌&&◌, ◌++◌, if◌then◌else◌,
  Text, codes, text_eq, is_empty, Bool-cases, arith,
}
use onnxruntime_ep_iree.Common.Decimal.{to_string, stoul, stoul-to_string}
use onnxruntime_ep_iree.Common.Paths.{is_absolute, append_path-ne, append_path_cancel}
use onnxruntime_ep_iree.TempFile.{Files, remove, random_value, TempFile, temp_path, destroy}

pub temp_path-ne : (temp_dir suffix : Text) (n : ℕ) → is_empty (temp_path temp_dir suffix n) ≡ false
unfolding temp_path
temp_path-ne temp_dir suffix n =
    append_path-ne temp_dir (codes "iree_ep_" ++ (to_string n ++ suffix)) refl

-- The destructor, where the path is not empty.
pub destroy_lem :
    (t : TempFile) (files : Files) (q : Text)
    → is_empty t.path ≡ false
    → destroy t files q ≡ (if text_eq q t.path && not t.keep then false else files q)
unfolding destroy remove
destroy_lem t files q ne = elim (Bool-cases t.keep) [
  | inl e ↦ rw (ne, e, destroy) (ground arith)
  | inr e ↦ rw (ne, e, destroy) (ground arith)
]

-- Three temporary files that are kept or not alike.
pub destroy_three :
    (p q r : Text) (keep : Bool) (files : Files) (x : Text)
    → is_empty p ≡ false
    → is_empty q ≡ false
    → is_empty r ≡ false
    → destroy
        (record { path = p; keep = keep })
        (destroy
          (record { path = q; keep = keep })
          (destroy (record { path = r; keep = keep }) files))
        x
      ≡ (if (text_eq x p || text_eq x q || text_eq x r) && not keep then false else files x)
destroy_three p q r keep files x hp hq hr =
    let last = destroy (record { path = r; keep = keep }) files in
    let middle = destroy (record { path = q; keep = keep }) last in
    ground (
      arith,
      destroy_lem (record { path = p; keep = keep }) middle x hp,
      destroy_lem (record { path = q; keep = keep }) last x hq,
      destroy_lem (record { path = r; keep = keep }) files x hr,
    )

-- The bits of the two calls of `rd` do not overlap, and none are lost.
random_value-injective :
    (h l g k : ℕ)
    → h < 2 ^ 32
    → l < 2 ^ 32
    → g < 2 ^ 32
    → k < 2 ^ 32
    → random_value h l ≡ random_value g k
    → (h ≡ g) × (l ≡ k)
unfolding random_value
random_value-injective h l g k hh hl hg hk e = (omega arith, omega arith)

random_value-lt : (h l : ℕ) → h < 2 ^ 32 → l < 2 ^ 32 → random_value h l < 2 ^ 64
unfolding random_value
random_value-lt h l hh hl = omega arith

some_of_stoul : (m n : ℕ) → m < 2 ^ 64 → n < 2 ^ 64 → to_string m ≡ to_string n → m ≡ n
some_of_stoul m n hm hn e =
    some-injective m n (sym (stoul-to_string m hm) ∙ ap stoul e ∙ stoul-to_string n hn)

-- Two temporary files of one directory and one suffix have the same path only if both calls of the
-- random device gave the same values, of 32 bits each.
pub temp_path-random_value :
    (temp_dir suffix : Text) (h l g k : ℕ)
    → h < 2 ^ 32
    → l < 2 ^ 32
    → g < 2 ^ 32
    → k < 2 ^ 32
    → temp_path temp_dir suffix (random_value h l) ≡ temp_path temp_dir suffix (random_value g k)
    → (h ≡ g) × (l ≡ k)
unfolding temp_path is_absolute
temp_path-random_value temp_dir suffix h l g k hh hl hg hk e =
    let v = to_string (random_value h l) in
    let w = to_string (random_value g k) in
    let names =
      append_path_cancel temp_dir (codes "iree_ep_" ++ (v ++ suffix))
        (codes "iree_ep_" ++ (w ++ suffix)) refl refl e in
    random_value-injective h l g k hh hl hg hk (
      some_of_stoul (random_value h l) (random_value g k) (random_value-lt h l hh hl)
        (random_value-lt g k hg hk)
        (append_cancel_right v w suffix
          (append_cancel_left (codes "iree_ep_") (v ++ suffix) (w ++ suffix) names)))
