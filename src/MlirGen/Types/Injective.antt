-- ===== src/MlirGen/Types/Injective.antt =====
-- `FormatTensorType` of src/mlir_gen.cc prints different tensor types differently.
use mathlib.Core.List.{tail}
use onnxruntime_ep_iree.Common.{
  ℕ, ◌≡◌, ◌≢◌, refl, sym, ap, ◌∙◌, subst, Bool, true, false, ◌||◌, List, [], ◌∷◌, ◌++◌, map, Option,
  none, some, arith, ◌==◌, if◌then◌else◌, Text, codes, text_eq, is_empty, intercalate, append_assoc,
  All, All-mono,
}
use onnxruntime_ep_iree.Common.Decimal.{
  ℤ, pos, negsuc, int_to_string, is_decimal, to_string, to_string-injective, to_string-All,
  to_string-ne,
}
use onnxruntime_ep_iree.OrtUtils.{OnnxType}
use onnxruntime_ep_iree.MlirGen.Graph.{tensor}
use onnxruntime_ep_iree.MlirGen.Stream.{write_separated_onto}
use onnxruntime_ep_iree.MlirGen.Types.{get_element_type, format_dim, format_tensor_type}

-- A dimension as the type tells it: dynamic dimensions are alike.
abbrev pub dim : ℤ → Option ℕ
dim (pos n) = some n
dim (negsuc n) = none

abbrev is_dim : ℕ → Bool
is_dim c = is_decimal c || c == b'?'

-- What stands in front of two delimiters is equal if the wholes are.
split :
    (a b : Text) (c d : ℕ) (x y : Text)
    → All (λ k. is_dim k ≡ true) a
    → All (λ k. is_dim k ≡ true) b
    → is_dim c ≡ false
    → is_dim d ≡ false
    → a ++ c ∷ x ≡ b ++ d ∷ y
    → (a ≡ b) × (c ≡ d) × (x ≡ y)
split [] [] c d x y ha hb hc hd e = (refl, cc, cc)
split [] (k ∷ b) c d x y ha hb hc hd e = let same : c ≡ k = cc in cc (ap is_dim same)
split (k ∷ a) [] c d x y ha hb hc hd e = let same : k ≡ d = cc in absurd (cc (rw same at ha.0, hd))
split (k ∷ a) (l ∷ b) c d x y ha hb hc hd e =
    let head : k ≡ l = cc in
    let (front, mid, back) = split a b c d x y ha.1 hb.1 hc hd (cc) in (cc, mid, back)

format_dim-All : (d : ℤ) → All (λ k. is_dim k ≡ true) (format_dim d)
unfolding format_dim int_to_string
format_dim-All (pos n) = All-mono (λ c h. ground (arith, h)) (to_string n) (to_string-All n)
format_dim-All (negsuc n) = (refl, tt)

format_dim-ne : (d : ℤ) → is_empty (format_dim d) ≡ false
unfolding format_dim int_to_string
format_dim-ne (pos n) = to_string-ne n
format_dim-ne (negsuc n) = refl

format_dim-injective : (d e : ℤ) → format_dim d ≡ format_dim e → dim d ≡ dim e
unfolding format_dim int_to_string
format_dim-injective (pos m) (pos n) h = ap some (to_string-injective m n h)
format_dim-injective (pos m) (negsuc n) h =
    absurd (cc (subst (All (λ c. is_decimal c ≡ true)) h (to_string-All m)).0)
format_dim-injective (negsuc m) (pos n) h =
    absurd (cc (subst (All (λ c. is_decimal c ≡ true)) (sym h) (to_string-All n)).0)
format_dim-injective (negsuc m) (negsuc n) h = refl

-- What stands behind a dimension: the dimensions after it, the bracket and the rest.
behind_dim : List ℤ → Text → Text
behind_dim [] x = b']' ∷ x
behind_dim (d ∷ shape) x = b',' ∷ (format_dim d ++ behind_dim shape x)

-- The dimensions, the bracket behind them, and the rest.
spell : List ℤ → Text → Text
spell [] x = b']' ∷ x
spell (d ∷ shape) x = format_dim d ++ behind_dim shape x

spell-intercalate :
    (shape : List ℤ) (x : Text)
    → intercalate (codes ",") (map format_dim shape) ++ b']' ∷ x ≡ spell shape x
unfolding intercalate spell behind_dim
spell-intercalate [] x = refl
spell-intercalate (d ∷ []) x = refl
spell-intercalate (d ∷ e ∷ shape) x =
    append_assoc (format_dim d) _ (b']' ∷ x)
    ∙ ap (λ t. format_dim d ++ b',' ∷ t) (spell-intercalate (e ∷ shape) x)

-- It starts with a delimiter.
behind_dim-head :
    (shape : List ℤ) (x : Text)
    → (c : ℕ) × (y : Text) × (is_dim c ≡ false) × (behind_dim shape x ≡ c ∷ y)
unfolding behind_dim
behind_dim-head [] x = (b']', x, refl, refl)
behind_dim-head (d ∷ shape) x = (b',', format_dim d ++ behind_dim shape x, refl, refl)

split_dims :
    (d e : ℤ) (s t : List ℤ) (x y : Text)
    → format_dim d ++ behind_dim s x ≡ format_dim e ++ behind_dim t y
    → (dim d ≡ dim e) × (behind_dim s x ≡ behind_dim t y)
split_dims d e s t x y h =
    let (c, v, hc, es) = behind_dim-head s x in
    let (k, w, hk, et) = behind_dim-head t y in
    let (front, mid, back) =
      split (format_dim d) (format_dim e) c k v w (format_dim-All d) (format_dim-All e) hc hk
        (sym (ap (◌++◌ (format_dim d)) es) ∙ h ∙ ap (◌++◌ (format_dim e)) et) in
    (format_dim-injective d e front, es ∙ cc (mid, back) ∙ sym et)

closes : Text → Bool
closes [] = false
closes (c ∷ s) = c == b']'

cons_paths : {a b : Option ℕ} {s t : List (Option ℕ)} → a ≡ b → s ≡ t → a ∷ s ≡ b ∷ t
cons_paths p q i = p i ∷ q i

behind_dim-injective :
    (s t : List ℤ) (x y : Text)
    → behind_dim s x ≡ behind_dim t y
    → (map dim s ≡ map dim t) × (x ≡ y)
unfolding behind_dim closes
behind_dim-injective [] [] x y h = (refl, ap tail h)
behind_dim-injective [] (e ∷ t) x y h = let wrong : true ≡ false = ap closes h in cc
behind_dim-injective (d ∷ s) [] x y h = let wrong : false ≡ true = ap closes h in cc
behind_dim-injective (d ∷ s) (e ∷ t) x y h =
    let (front, back) = split_dims d e s t x y (ap tail h) in
    let (rest, same) = behind_dim-injective s t x y back in (cons_paths front rest, same)

-- A dimension does not start with the bracket.
closed : (d : ℤ) (s : List ℤ) (x y : Text) → format_dim d ++ behind_dim s x ≢ b']' ∷ y
closed d s x y e =
    let (c, v, hc, es) = behind_dim-head s x in
    let (front, _, _) =
      split (format_dim d) [] c b']' v y (format_dim-All d) tt hc refl
        (sym (ap (◌++◌ (format_dim d)) es) ∙ e) in
    cc (ap is_empty front, format_dim-ne d)

spell-injective :
    (s t : List ℤ) (x y : Text) → spell s x ≡ spell t y → (map dim s ≡ map dim t) × (x ≡ y)
unfolding spell
spell-injective [] [] x y h = (refl, ap tail h)
spell-injective [] (e ∷ t) x y h = absurd (closed e t y x (sym h))
spell-injective (d ∷ s) [] x y h = absurd (closed d s x y h)
spell-injective (d ∷ s) (e ∷ t) x y h =
    let (front, back) = split_dims d e s t x y h in
    let (rest, same) = behind_dim-injective s t x y back in (cons_paths front rest, same)

-- The element types with a name of their own.
abbrev pub IsSupported : OnnxType → Type 0
IsSupported d = text_eq (get_element_type d false) (codes "NYI") ≡ false

named : List (Text × OnnxType) → Text → OnnxType
named [] t = OnnxType.undefined
named ((name, d) ∷ names) t =
    let rest = named names t in if text_eq t (name ++ codes ">") then d else rest

abbrev names : List (Text × OnnxType)
names =
    (codes "f32", OnnxType.float)
    ∷ (codes "f64", OnnxType.double)
    ∷ (codes "f16", OnnxType.float16)
    ∷ (codes "bf16", OnnxType.bfloat16)
    ∷ (codes "si8", OnnxType.int8)
    ∷ (codes "si16", OnnxType.int16)
    ∷ (codes "si32", OnnxType.int32)
    ∷ (codes "si64", OnnxType.int64)
    ∷ (codes "ui8", OnnxType.uint8)
    ∷ (codes "ui16", OnnxType.uint16)
    ∷ (codes "ui32", OnnxType.uint32)
    ∷ (codes "ui64", OnnxType.uint64)
    ∷ (codes "i1", OnnxType.bool)
    ∷ []

named-get_element_type :
    (d : OnnxType) → IsSupported d → named names (get_element_type d false ++ codes ">") ≡ d
unfolding named get_element_type text_eq
named-get_element_type OnnxType.undefined h = cc
named-get_element_type (OnnxType.other_onnx n) h = cc
named-get_element_type OnnxType.float h = refl
named-get_element_type OnnxType.double h = refl
named-get_element_type OnnxType.float16 h = refl
named-get_element_type OnnxType.bfloat16 h = refl
named-get_element_type OnnxType.int8 h = refl
named-get_element_type OnnxType.int16 h = refl
named-get_element_type OnnxType.int32 h = refl
named-get_element_type OnnxType.int64 h = refl
named-get_element_type OnnxType.uint8 h = refl
named-get_element_type OnnxType.uint16 h = refl
named-get_element_type OnnxType.uint32 h = refl
named-get_element_type OnnxType.uint64 h = refl
named-get_element_type OnnxType.bool h = refl

abbrev behind : OnnxType → Text
behind d = b',' ∷ (get_element_type d false ++ codes ">")

format_tensor_type-spell :
    (shape : List ℤ) (d : OnnxType)
    → format_tensor_type (tensor shape d) ≡ codes "!torch.vtensor<[" ++ spell shape (behind d)
unfolding format_tensor_type
format_tensor_type-spell shape d =
    rw (write_separated_onto, sym (spell-intercalate shape (behind d))) refl

-- What stands behind the opening of the type.
skip : Text → Text → Text
skip [] t = t
skip (c ∷ prefix) [] = []
skip (c ∷ prefix) (k ∷ t) = skip prefix t

opened : Text → Text
opened t = skip (codes "!torch.vtensor<[") t

-- The printed type of a tensor whose element type is supported determines the element type and the
-- dimensions, except that dynamic dimensions are alike.
pub format_tensor_type-injective :
    (s t : List ℤ) (d e : OnnxType)
    → IsSupported d
    → IsSupported e
    → format_tensor_type (tensor s d) ≡ format_tensor_type (tensor t e)
    → (map dim s ≡ map dim t) × (d ≡ e)
unfolding opened skip
format_tensor_type-injective s t d e hd he h =
    let (dims, same) = spell-injective s t (behind d) (behind e) (
      sym (ap opened (format_tensor_type-spell s d))
      ∙ ap opened h
      ∙ ap opened (format_tensor_type-spell t e)) in
    (
      dims,
      sym (named-get_element_type d hd)
          ∙ ap (named names) (ap tail same)
          ∙ named-get_element_type e he,
    )
