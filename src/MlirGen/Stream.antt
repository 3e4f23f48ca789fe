-- ===== src/MlirGen/Stream.antt =====
-- The loops of src/mlir_gen.cc that write a list to a stream with a separator in between.
use onnxruntime_ep_iree.Common.{
  ℕ, suc, ◌≡◌, ◌∙◌, sym, ap, List, [], ◌∷◌, ◌++◌, map, arith, ltb, if◌then◌else◌, Text, intercalate,
  append_assoc, append-nil,
}

-- `for (i …) { if (i > 0) ss << sep; ss << piece(xs[i]); }`
unfoldable pub write_separated {ℓ} : {A : Type ℓ} → Text → (A → Text) → ℕ → List A → Text → Text
write_separated sep piece i [] ss = ss
write_separated sep piece i (x ∷ xs) ss =
    write_separated sep piece (suc i) xs ((if ltb 0 i then ss ++ sep else ss) ++ piece x)

-- `Join`
unfoldable pub join : List Text → Text → Text
unfolding write_separated
join parts sep = write_separated sep (λ p. p) 0 parts []

module _ {ℓ} {A : Type ℓ} (sep : Text) (piece : A → Text) where
  -- Every piece behind a separator.
  after_separators : List A → Text
  after_separators [] = []
  after_separators (x ∷ xs) = sep ++ (piece x ++ after_separators xs)

  write_rest :
      (i : ℕ) (xs : List A) (ss : Text)
      → write_separated sep piece (suc i) xs ss ≡ ss ++ after_separators xs
  unfolding write_separated after_separators
  write_rest i [] ss = sym (append-nil ss)
  write_rest i (x ∷ xs) ss = ground (
    arith,
    write_rest (suc i) xs ((ss ++ sep) ++ piece x),
    append_assoc (ss ++ sep) (piece x) (after_separators xs),
    append_assoc ss sep (piece x ++ after_separators xs),
  )

  intercalate-after_separators :
      (x : A) (xs : List A) → intercalate sep (map piece (x ∷ xs)) ≡ piece x ++ after_separators xs
  unfolding intercalate after_separators
  intercalate-after_separators x [] = sym (append-nil (piece x))
  intercalate-after_separators x (y ∷ xs) =
      ap (λ t. piece x ++ (sep ++ t)) (intercalate-after_separators y xs)

  -- The loop appends the pieces to the stream, with the separator between neighbours.
  pub write_separated_onto :
      (xs : List A) (ss : Text)
      → write_separated sep piece 0 xs ss ≡ ss ++ intercalate sep (map piece xs)
  unfolding write_separated
  write_separated_onto [] ss = unfold intercalate in sym (append-nil ss)
  write_separated_onto (x ∷ xs) ss =
      write_rest 0 xs (ss ++ piece x)
      ∙ append_assoc ss (piece x) (after_separators xs)
      ∙ ap (◌++◌ ss) (sym (intercalate-after_separators x xs))

  pub write_separated-intercalate :
      (xs : List A) → write_separated sep piece 0 xs [] ≡ intercalate sep (map piece xs)
  write_separated-intercalate xs = write_separated_onto xs []
