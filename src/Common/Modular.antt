-- ===== src/Common/Modular.antt =====
-- Products modulo a number: reducing a factor first changes nothing.
use native.Mathlib.Nat.{div-add-mod, mul-add-mod_self_left, mul_comm}
use onnxruntime_ep_iree.Common.{ℕ, ◌+◌, ◌*◌, ◌/◌, ◌%◌, ◌≡◌, sym, ap, ◌∙◌, arith}

pub mod-mul-mod : (a b m : ℕ) → ((a % m) * b) % m ≡ (a * b) % m
mod-mul-mod a b m =
    let split : a * b ≡ m * (a / m * b) + (a % m) * b =
      omega (arith, ap (λ (t : ℕ). t * b) (div-add-mod a m)) in
    sym (ap (λ t. t % m) split ∙ mul-add-mod_self_left m (a / m * b) ((a % m) * b))

pub mul-mod-mod : (a b m : ℕ) → (a * (b % m)) % m ≡ (a * b) % m
mul-mod-mod a b m = rw (mul_comm a (b % m), mul_comm a b) (mod-mul-mod b a m)
