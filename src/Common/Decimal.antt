-- ===== src/Common/Decimal.antt =====
-- Decimal print of numbers, as `std::to_string`, `std::format("{}")` and `<<` write them, and
-- `std::stoul`, which reads them.
use mathlib.Core.Option
use onnxruntime_ep_iree.Common.{
  ℕ, zero, suc, ◌+◌, ◌-◌, ◌*◌, ◌/◌, ◌%◌, ◌^◌, ◌<◌, ◌≡◌, refl, ap, sym, subst, inl, inr, false, All,
  Bool-cases, is_empty, ◌∙◌, Bool, true, ◌&&◌, ◌||◌, [], ◌∷◌, Option, none, some, arith, ltb, leb,
  ◌==◌, if◌then◌else◌, Text,
}

-- `negsuc n` is -(n + 1).
pub data ℤ : Type 0 where
  pos : ℕ → ℤ
  negsuc : ℕ → ℤ

-- The digits of `n` in front of `out`; every round divides `n` by ten.
digits : ℕ → ℕ → Text → Text
digits zero n out = out
digits (suc fuel) n out =
    let more = digits fuel (n / 10) ((b'0' + n % 10) ∷ out) in
    if ltb n 10 then (b'0' + n) ∷ out else more

-- `n` rounds are more than `n` has digits.
unfoldable pub to_string : ℕ → Text
unfolding digits
to_string n = digits (suc n) n []

unfoldable pub int_to_string : ℤ → Text
int_to_string (pos n) = to_string n
int_to_string (negsuc n) = b'-' ∷ to_string (suc n)

abbrev pub is_decimal : ℕ → Bool
is_decimal c = leb b'0' c && leb c b'9'

-- `isspace` in the "C" locale.
is_space : ℕ → Bool
is_space c = c == b' ' || (leb 9 c && leb c 13)

-- The number that the digits in front of `s` spell behind `n`.
read_digits : Text → ℕ → ℕ
read_digits [] n = n
read_digits (c ∷ s) n =
    let more = read_digits s (n * 10 + (c - b'0')) in if is_decimal c then more else n

-- No digit in front: `std::invalid_argument`. More than 64 bits: `std::out_of_range`.
read_number : Text → Option ℕ
unfolding read_digits
read_number [] = none
read_number (c ∷ s) =
    let n = read_digits (c ∷ s) 0 in
    if is_decimal c then (if ltb n (2 ^ 64) then some n else none) else none

read_signed : Text → Option ℕ
unfolding read_number
read_signed [] = none
read_signed (c ∷ s) =
    if c == b'-'
    then Option.map (λ n. (2 ^ 64 - n) % 2 ^ 64) (read_number s)
    else if c == b'+'
    then read_number s
    else read_number (c ∷ s)

-- `std::stoul`, with an `unsigned long` of 64 bits; `none` stands for the exception.
unfoldable pub stoul : Text → Option ℕ
unfolding read_signed is_space
stoul [] = none
stoul (c ∷ s) = let rest = stoul s in if is_space c then rest else read_signed (c ∷ s)

read_digits-digits :
    (fuel n : ℕ) (out : Text) → n < fuel → read_digits (digits fuel n out) 0 ≡ read_digits out n
unfolding digits read_digits
read_digits-digits zero n out h = elim h [ ]
read_digits-digits (suc fuel) n out h =
    ground (arith, read_digits-digits fuel (n / 10) ((b'0' + n % 10) ∷ out))

-- The print starts with a digit.
abbrev StartsWithDigit : Text → Type 0
StartsWithDigit [] = ⊥
StartsWithDigit (c ∷ s) = is_decimal c ≡ true

digits-StartsWithDigit : (fuel n : ℕ) (out : Text) → n < fuel → StartsWithDigit (digits fuel n out)
unfolding digits
digits-StartsWithDigit zero n out h = elim h [ ]
digits-StartsWithDigit (suc fuel) n out h =
    ground (arith, digits-StartsWithDigit fuel (n / 10) ((b'0' + n % 10) ∷ out))

stoul_of_digits :
    (s : Text) → StartsWithDigit s → read_digits s 0 < 2 ^ 64 → stoul s ≡ some (read_digits s 0)
unfolding stoul
stoul_of_digits [] h k = absurd h
stoul_of_digits (c ∷ s) h k = ground arith

-- `std::stoul` reads back what `std::to_string` writes.
pub stoul-to_string : (n : ℕ) → n < 2 ^ 64 → stoul (to_string n) ≡ some n
unfolding to_string read_digits
stoul-to_string n h =
    let e : read_digits (digits (suc n) n []) 0 ≡ n =
      read_digits-digits (suc n) n [] (omega arith) in
    stoul_of_digits (digits (suc n) n []) (digits-StartsWithDigit (suc n) n [] (omega arith))
      (subst (λ k. k < 2 ^ 64) (sym e) h)
    ∙ ap some e

-- Different numbers print differently.
pub to_string-injective : (m n : ℕ) → to_string m ≡ to_string n → m ≡ n
unfolding to_string read_digits
to_string-injective m n e =
    sym (read_digits-digits (suc m) m [] (omega arith))
    ∙ ap (λ s. read_digits s 0) e
    ∙ read_digits-digits (suc n) n [] (omega arith)

digits-All :
    (fuel n : ℕ) (out : Text)
    → n < fuel
    → All (λ c. is_decimal c ≡ true) out
    → All (λ c. is_decimal c ≡ true) (digits fuel n out)
unfolding digits
digits-All zero n out h k = k
digits-All (suc fuel) n out h k = elim (Bool-cases (ltb n 10)) [
  | inl e ↦ rw e (ground arith, k)
  | inr e ↦ rw e (digits-All fuel (n / 10) _ (ground arith) (ground arith, k))
]

-- A number is printed in digits.
pub to_string-All : (n : ℕ) → All (λ c. is_decimal c ≡ true) (to_string n)
unfolding to_string
to_string-All n = digits-All (suc n) n [] (omega arith) tt

pub to_string-ne : (n : ℕ) → is_empty (to_string n) ≡ false
unfolding to_string
to_string-ne n = not_empty (digits (suc n) n []) (digits-StartsWithDigit (suc n) n [] (omega arith))
  where
    not_empty : (s : Text) → StartsWithDigit s → is_empty s ≡ false
    not_empty [] h = absurd h
    not_empty (c ∷ s) h = refl
