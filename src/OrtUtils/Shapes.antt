-- ===== src/OrtUtils/Shapes.antt =====
-- Shapes on their way from ORT to a buffer view and back.
use onnxruntime_ep_iree.Common.{
  ℕ, suc, ◌-◌, ◌%◌, ◌^◌, ◌<◌, ◌≡◌, refl, ap, ◌∙◌, false, List, [], ◌∷◌, map, ltb, if◌then◌else◌,
  All, arith,
}
use onnxruntime_ep_iree.Common.Decimal.{ℤ, pos, negsuc}
use onnxruntime_ep_iree.OrtUtils.{to_size, size_mod, to_int64, get_buffer_view_shape}

-- The range of `int64_t`.
abbrev pub IsInt64 : ℤ → Type 0
IsInt64 (pos n) = n < 2 ^ 63
IsInt64 (negsuc n) = n < 2 ^ 63

-- What `to_int64` makes of the remainder.
signed : ℕ → ℤ
signed w = if ltb w (2 ^ 63) then pos w else negsuc (size_mod - w - 1)

signed_low : (n : ℕ) → n < 2 ^ 63 → signed n ≡ pos n
unfolding signed
signed_low n h = ground arith

signed_high : (n : ℕ) → n < 2 ^ 63 → signed (size_mod - suc n) ≡ negsuc n
unfolding signed
signed_high n h =
    let back : size_mod - (size_mod - suc n) - 1 ≡ n = omega arith in
    let high : ltb (size_mod - suc n) (2 ^ 63) ≡ false = ground arith in rw (high, back)

to_int64-to_size : (d : ℤ) → IsInt64 d → to_int64 (to_size d) ≡ d
unfolding signed
to_int64-to_size (pos n) h =
    let same : (n % size_mod) % size_mod ≡ n = omega arith in ap signed same ∙ signed_low n h
to_int64-to_size (negsuc n) h =
    let same : ((size_mod - suc n) % size_mod) % size_mod ≡ size_mod - suc n = omega arith in
    ap signed same ∙ signed_high n h

-- The shape of a view that was made with the dimensions of a tensor is the shape of the tensor, also
-- where a dimension is negative.
pub get_buffer_view_shape-to_size :
    (shape : List ℤ) → All IsInt64 shape → get_buffer_view_shape (map to_size shape) ≡ shape
unfolding get_buffer_view_shape
get_buffer_view_shape-to_size [] h = refl
get_buffer_view_shape-to_size (d ∷ ds) h =
    let one = to_int64-to_size d h.0 in let rest = get_buffer_view_shape-to_size ds h.1 in cc
