-- ===== src/MlirGen/Operands.antt =====
-- The operand loops of `EmitNode`: they write the operands that are present and named.
use mathlib.Core.List.{foldl}
use onnxruntime_ep_iree.Common.{
  ◌≡◌, refl, sym, ap, ◌∙◌, true, false, List, [], ◌∷◌, ◌++◌, map, Option, none, some, if◌then◌else◌,
  Text, codes, is_empty, intercalate, length, length-append, append_assoc, append-nil, map-append,
  Bool-cases, inl, inr,
}
use onnxruntime_ep_iree.MlirGen.Graph.{ValueInfo}
use onnxruntime_ep_iree.MlirGen.Generator.{Operands, add_operand, operands, value_ref, type_of}

-- The operands that are there and have a name, in order.
unfoldable pub present : List (Option ValueInfo) → List ValueInfo
present [] = []
present (none ∷ vs) = present vs
present (some v ∷ vs) = let rest = present vs in if is_empty v.name then rest else v ∷ rest

-- What the loop should leave for these operands.
unfoldable pub operands_of : List ValueInfo → Operands
operands_of vs = record {
  names = intercalate (codes ", ") (map (λ v. value_ref v.name) vs);
  types = intercalate (codes ", ") (map type_of vs);
  first = is_empty vs;
  count = length vs;
}

intercalate-concat :
    (sep : Text) (ps : List Text) (p : Text)
    → intercalate sep (ps ++ p ∷ [])
      ≡ (if is_empty ps then intercalate sep ps else intercalate sep ps ++ sep) ++ p
unfolding intercalate
intercalate-concat sep [] p = refl
intercalate-concat sep (a ∷ []) p = sym (append_assoc a sep p)
intercalate-concat sep (a ∷ b ∷ ps) p = rw (intercalate-concat sep (b ∷ ps) p) (simp append_assoc)

is_empty-map {ℓ κ} :
    {A : Type ℓ} {B : Type κ} (f : A → B) (xs : List A) → is_empty (map f xs) ≡ is_empty xs
is_empty-map f [] = refl
is_empty-map f (x ∷ xs) = refl

is_empty-concat {ℓ} : {A : Type ℓ} (xs : List A) (x : A) → is_empty (xs ++ x ∷ []) ≡ false
is_empty-concat [] x = refl
is_empty-concat (y ∷ xs) x = refl

append_piece :
    (piece : ValueInfo → Text) (vs : List ValueInfo) (v : ValueInfo)
    → intercalate (codes ", ") (map piece (vs ++ v ∷ []))
      ≡ (if is_empty vs
          then intercalate (codes ", ") (map piece vs)
          else intercalate (codes ", ") (map piece vs) ++ codes ", ")
        ++ piece v
append_piece piece vs v = rw (
  map-append piece vs (v ∷ []),
  intercalate-concat (codes ", ") (map piece vs) (piece v),
  is_empty-map piece vs,
)

add_operand-operands_of :
    (vs : List ValueInfo) (v : ValueInfo)
    → is_empty v.name ≡ false
    → add_operand (operands_of vs) (some v) ≡ operands_of (vs ++ v ∷ [])
unfolding add_operand operands_of
add_operand-operands_of vs v h = rw h λ i. record {
  names = sym (append_piece (λ w. value_ref w.name) vs v) i;
  types = sym (append_piece type_of vs v) i;
  first = sym (is_empty-concat vs v) i;
  count = sym (length-append vs (v ∷ [])) i;
}

add_operand_unnamed :
    (o : Operands) (v : ValueInfo) → is_empty v.name ≡ true → add_operand o (some v) ≡ o
unfolding add_operand
add_operand_unnamed o v h = rw h

add_operand_null : (o : Operands) → add_operand o none ≡ o
unfolding add_operand
add_operand_null o = refl

operands_loop :
    (vs : List ValueInfo) (xs : List (Option ValueInfo))
    → foldl add_operand (operands_of vs) xs ≡ operands_of (vs ++ present xs)
unfolding present
operands_loop vs [] = rw append-nil
operands_loop vs (none ∷ xs) = rw (add_operand_null (operands_of vs)) (operands_loop vs xs)
operands_loop vs (some v ∷ xs) = elim (Bool-cases (is_empty v.name)) [
  | inl e ↦ rw (add_operand_unnamed (operands_of vs) v e, e) (operands_loop vs xs)
  | inr e ↦
      rw (add_operand-operands_of vs v e, e)
        (operands_loop (vs ++ v ∷ []) xs ∙ ap operands_of (append_assoc vs (v ∷ []) (present xs)))
]

-- Each operand loop of `EmitNode` leaves the names and types of the operands that are present, separated by commas, and
-- counts them.
pub operands-present : (xs : List (Option ValueInfo)) → operands xs ≡ operands_of (present xs)
unfolding operands operands_of intercalate
operands-present xs = operands_loop [] xs

present-left_out :
    (xs ys : List (Option ValueInfo)) → present (xs ++ none ∷ ys) ≡ present (xs ++ ys)
unfolding present
present-left_out [] ys = refl
present-left_out (none ∷ xs) ys = present-left_out xs ys
present-left_out (some v ∷ xs) ys = rw (present-left_out xs ys)

pub operands-left_out :
    (xs ys : List (Option ValueInfo)) → operands (xs ++ none ∷ ys) ≡ operands (xs ++ ys)
operands-left_out xs ys =
    rw (operands-present (xs ++ none ∷ ys), operands-present (xs ++ ys), present-left_out xs ys)
