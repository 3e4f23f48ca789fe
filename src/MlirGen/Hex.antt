-- ===== src/MlirGen/Hex.antt =====
-- `HexEncode` of src/mlir_gen.cc, and the reading of its text.
use onnxruntime_ep_iree.Common.{
  ℕ, zero, suc, ◌+◌, ◌-◌, ◌*◌, ◌/◌, ◌%◌, ◌<◌, ◌≡◌, refl, sym, ◌∙◌, Bool, true, ◌&&◌, [], ◌∷◌, ◌++◌,
  List, Option, none, some, arith, ltb, leb, ◌==◌, if◌then◌else◌, Text, codes, All, append_assoc,
  append-nil, get_elem?,
}
use mathlib.Core.Option

hex_chars : Text
hex_chars = codes "0123456789abcdef"

-- `hex_chars[i]`; the index is below 16 wherever it is used.
hex_char : ℕ → ℕ
unfolding hex_chars
hex_char i = Option.get_or (get_elem? hex_chars i) 0

hex_loop : List ℕ → Text → Text
unfolding hex_char
hex_loop [] result = result
hex_loop (x ∷ bytes) result =
    hex_loop bytes ((result ++ hex_char (x / 16 % 16) ∷ []) ++ hex_char (x % 16) ∷ [])

unfoldable pub hex_encode : List ℕ → Text
unfolding hex_loop
hex_encode bytes = hex_loop bytes (codes "0x")

-- The value of a hex digit; 16 for any other character.
hex_value : ℕ → ℕ
hex_value c =
    if leb b'0' c && leb c b'9' then c - b'0' else if leb b'a' c && leb c b'f' then c - 87 else 16

decode_pairs : Text → Option (List ℕ)
unfolding hex_value
decode_pairs [] = some []
decode_pairs (a ∷ []) = none
decode_pairs (a ∷ b ∷ s) =
    if ltb (hex_value a) 16 && ltb (hex_value b) 16
    then Option.map (λ r. (hex_value a * 16 + hex_value b) ∷ r) (decode_pairs s)
    else none

-- How a reader of `dense<"0x…">` takes the text: two hex digits for each byte.
pub hex_decode : Text → Option (List ℕ)
unfolding decode_pairs
hex_decode (z ∷ x ∷ s) = if z == b'0' && x == b'x' then decode_pairs s else none
hex_decode _ = none

-- Each digit below `count` is read back.
digits_read_back : ℕ → Bool
digits_read_back zero = true
digits_read_back (suc count) = digits_read_back count && hex_value (hex_char count) == count

read_back :
    (count digit : ℕ)
    → digit < count
    → digits_read_back count ≡ true
    → hex_value (hex_char digit) ≡ digit
unfolding digits_read_back
read_back zero digit lt all = omega arith
read_back (suc count) digit lt all = ground (arith, read_back count digit)

all_digits : digits_read_back 16 ≡ true
unfolding digits_read_back hex_value hex_char
all_digits = refl

hex_value-hex_char : (i : ℕ) → i < 16 → hex_value (hex_char i) ≡ i
hex_value-hex_char i h = read_back 16 i h all_digits

encoded : List ℕ → Text
encoded [] = []
encoded (x ∷ xs) = hex_char (x / 16 % 16) ∷ hex_char (x % 16) ∷ encoded xs

hex_loop-encoded : (xs : List ℕ) (result : Text) → hex_loop xs result ≡ result ++ encoded xs
unfolding encoded hex_loop
hex_loop-encoded [] result = sym (append-nil result)
hex_loop-encoded (x ∷ xs) result =
    let a = hex_char (x / 16 % 16) in
    let b = hex_char (x % 16) in
    let first = result ++ a ∷ [] in
    hex_loop-encoded xs (first ++ b ∷ [])
    ∙ append_assoc first (b ∷ []) (encoded xs)
    ∙ append_assoc result (a ∷ []) (b ∷ encoded xs)

abbrev pub IsByte : ℕ → Type 0
IsByte b = b < 256

decode_pairs-encoded : (xs : List ℕ) → All IsByte xs → decode_pairs (encoded xs) ≡ some xs
unfolding encoded decode_pairs
decode_pairs-encoded [] h = refl
decode_pairs-encoded (x ∷ xs) h = ground (
  arith,
  decode_pairs-encoded xs h.1,
  hex_value-hex_char (x / 16 % 16) (omega arith),
  hex_value-hex_char (x % 16) (omega arith),
)

-- The bytes of an inlined initializer are recovered from its hex text, so no two are written alike.
pub hex_decode-hex_encode :
    (bytes : List ℕ) → All IsByte bytes → hex_decode (hex_encode bytes) ≡ some bytes
unfolding hex_decode hex_encode
hex_decode-hex_encode bytes h =
    rw (hex_loop-encoded bytes (codes "0x")) (decode_pairs-encoded bytes h)
