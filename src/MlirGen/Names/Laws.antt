-- ===== src/MlirGen/Names/Laws.antt =====
-- What `sanitize_name` gives: when it is an identifier, when it keeps a name, what it confuses.
use onnxruntime_ep_iree.Common.{
  ℕ, ◌≡◌, refl, sym, ap, ◌∙◌, Bool, true, false, not, ◌&&◌, ◌||◌, [], ◌∷◌, ◌++◌, map, append_assoc,
  append-nil, map-append, arith, Bool-cases, inl, inr, ◌==◌, if◌then◌else◌, Text, is_empty,
}
use onnxruntime_ep_iree.MlirGen.Names.{
  is_digit, is_alpha, is_kept, sanitize_loop, ensure_start, or_unnamed, sanitize_name,
}

abbrev pub all_kept : Text → Bool
all_kept [] = true
all_kept (c ∷ s) = is_kept c && all_kept s

-- The grammar that the comment on `SanitizeName` states: [a-zA-Z_][a-zA-Z0-9_$]*.
unfoldable pub is_identifier : Text → Bool
is_identifier [] = false
is_identifier (c ∷ s) = (is_alpha c || c == b'_') && all_kept s

pub starts_with_dollar : Text → Bool
starts_with_dollar [] = false
starts_with_dollar (c ∷ s) = c == b'$'

abbrev replace : ℕ → ℕ
replace c = if is_kept c then c else b'_'

sanitize_loop-map : (s result : Text) → sanitize_loop s result ≡ result ++ map replace s
unfolding sanitize_loop
sanitize_loop-map [] result = sym (append-nil result)
sanitize_loop-map (c ∷ s) result = ground (
  arith,
  sanitize_loop-map s (result ++ replace c ∷ []),
  append_assoc result (replace c ∷ []) (map replace s),
)

all_kept-map : (s : Text) → all_kept (map replace s) ≡ true
all_kept-map [] = refl
all_kept-map (c ∷ s) = ground (arith, all_kept-map s)

map_of_kept : (s : Text) → all_kept s ≡ true → map replace s ≡ s
map_of_kept [] h = refl
map_of_kept (c ∷ s) h = ground (arith, map_of_kept s)

-- The name that `SanitizeName` gives is an identifier in the sense of its comment, except where the
-- ONNX name starts with `$`: exactly then the result starts with `$` too.
pub sanitize_name-is_identifier :
    (s : Text) → is_identifier (sanitize_name s) ≡ not (starts_with_dollar s)
unfolding sanitize_name is_identifier starts_with_dollar
sanitize_name-is_identifier [] = refl
sanitize_name-is_identifier (c ∷ s) =
    rw (sanitize_loop-map (c ∷ s) []) (ground (arith, all_kept-map s))

-- A name that is an identifier already is kept.
pub sanitize_name_of_identifier : (s : Text) → is_identifier s ≡ true → sanitize_name s ≡ s
unfolding sanitize_name is_identifier
sanitize_name_of_identifier [] h = cc
sanitize_name_of_identifier (c ∷ s) h =
    rw (sanitize_loop-map (c ∷ s) []) (ground (arith, map_of_kept s))

sanitize_name_shape :
    (c : ℕ) (s : Text)
    → sanitize_name (c ∷ s)
      ≡ (if is_digit (replace c) then b'_' ∷ map replace (c ∷ s) else map replace (c ∷ s))
unfolding sanitize_name
sanitize_name_shape c s = rw (sanitize_loop-map (c ∷ s) []) (ground arith)

-- A non-empty text of kept characters with no digit in front stays.
sanitize_name_fixed :
    (c : ℕ) (s : Text)
    → all_kept (c ∷ s) ≡ true
    → is_digit c ≡ false
    → sanitize_name (c ∷ s) ≡ c ∷ s
sanitize_name_fixed c s h k = rw (sanitize_name_shape c s) (ground (arith, map_of_kept s))

-- Sanitizing twice is sanitizing once.
pub sanitize_name_idem : (s : Text) → sanitize_name (sanitize_name s) ≡ sanitize_name s
sanitize_name_idem [] = unfold sanitize_name in refl
sanitize_name_idem (c ∷ s) = elim (Bool-cases (is_digit (replace c))) [
  | inl d ↦
      rw (sanitize_name_shape c s, d)
        (sanitize_name_fixed b'_' (map replace (c ∷ s)) (all_kept-map (c ∷ s)) refl)
  | inr d ↦
      rw (sanitize_name_shape c s, d)
        (sanitize_name_fixed (replace c) (map replace s) (all_kept-map (c ∷ s)) d)
]

-- Two names that differ in one character, where neither of the two is kept, are given one name.
pub sanitize_name_collision :
    (s t : Text) (c d : ℕ)
    → is_kept c ≡ false
    → is_kept d ≡ false
    → sanitize_name (s ++ c ∷ t) ≡ sanitize_name (s ++ d ∷ t)
unfolding sanitize_name
sanitize_name_collision s t c d hc hd =
    ap (λ r. or_unnamed (ensure_start r))
      (sanitize_loop-map (s ++ c ∷ t) []
        ∙ map-append replace s (c ∷ t)
        ∙ ap (λ k. map replace s ++ k ∷ map replace t) (ground arith)
        ∙ sym (map-append replace s (d ∷ t))
        ∙ sym (sanitize_loop-map (s ++ d ∷ t) []))

or_unnamed-ne : (s : Text) → is_empty (or_unnamed s) ≡ false
unfolding or_unnamed
or_unnamed-ne [] = refl
or_unnamed-ne (c ∷ s) = refl

pub sanitize_name-ne : (s : Text) → is_empty (sanitize_name s) ≡ false
unfolding sanitize_name
sanitize_name-ne s = or_unnamed-ne _
