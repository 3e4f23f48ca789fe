-- ===== src/OrtUtils/ByteSize.antt =====
-- The byte size of a tensor: the product of its dimensions and its element size, modulo 2 ^ 64.
use native.Mathlib.Nat.{mul_assoc, one-mul, mul-one}
use onnxruntime_ep_iree.Common.{ℕ, ◌*◌, ◌%◌, ◌<◌, ◌≡◌, sym, ap, ◌∙◌, List, [], ◌∷◌, map, arith}
use onnxruntime_ep_iree.Common.Decimal.{pos}
use onnxruntime_ep_iree.Common.Modular.{mod-mul-mod, mul-mod-mod}
use onnxruntime_ep_iree.OrtUtils.{
  OnnxType, onnx_element_type_size, size_mod, num_elements, calculate_tensor_byte_size,
}

-- The number of elements of a shape, with no bound.
pub product : List ℕ → ℕ
product [] = 1
product (d ∷ ds) = d * product ds

num_elements-product :
    (acc : ℕ) (dims : List ℕ)
    → num_elements acc (map pos dims) % size_mod ≡ (acc * product dims) % size_mod
unfolding num_elements product
num_elements-product acc [] = rw mul-one
num_elements-product acc (d ∷ ds) =
    num_elements-product ((acc * (d % size_mod)) % size_mod) ds
    ∙ mod-mul-mod (acc * (d % size_mod)) (product ds) size_mod
    ∙ ap (λ t. t % size_mod) (mul_assoc acc (d % size_mod) (product ds))
    ∙ sym (mul-mod-mod acc (d % size_mod * product ds) size_mod)
    ∙ ap (λ t. (acc * t) % size_mod) (mod-mul-mod d (product ds) size_mod)
    ∙ mul-mod-mod acc (d * product ds) size_mod

element_size_small : (t : OnnxType) → onnx_element_type_size t < size_mod
unfolding onnx_element_type_size
element_size_small t = ground arith

-- For a shape with no negative dimension the computed size is the number of elements times the
-- element size, modulo 2 ^ 64: the products that wrap on the way lose nothing else.
pub calculate_tensor_byte_size-product :
    (dims : List ℕ) (t : OnnxType)
    → calculate_tensor_byte_size (map pos dims) t
      ≡ (product dims * onnx_element_type_size t) % size_mod
unfolding calculate_tensor_byte_size product
calculate_tensor_byte_size-product [] t = omega (arith, element_size_small t)
calculate_tensor_byte_size-product (d ∷ ds) t =
    let n = num_elements 1 (map pos (d ∷ ds)) in
    let k = onnx_element_type_size t in
    sym (mod-mul-mod n k size_mod)
    ∙ ap (λ x. (x * k) % size_mod) (num_elements-product 1 (d ∷ ds))
    ∙ mod-mul-mod (1 * product (d ∷ ds)) k size_mod
    ∙ ap (λ x. (x * k) % size_mod) (one-mul (product (d ∷ ds)))
