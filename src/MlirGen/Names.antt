-- ===== src/MlirGen/Names.antt =====
-- `SanitizeName` of src/mlir_gen.cc, in a build without `assert`.
pub mod Laws
use onnxruntime_ep_iree.Common.{
  ℕ, ◌≤◌, Bool, ◌&&◌, ◌||◌, List, [], ◌∷◌, ◌++◌, leb, ◌==◌, if◌then◌else◌, Text, codes,
}

-- `std::isdigit`, `std::isalpha` and `std::isalnum` in the "C" locale.
abbrev pub is_digit : ℕ → Bool
is_digit c = leb b'0' c && leb c b'9'

abbrev pub is_alpha : ℕ → Bool
is_alpha c = (leb b'a' c && leb c b'z') || (leb b'A' c && leb c b'Z')

abbrev pub is_alnum : ℕ → Bool
is_alnum c = is_alpha c || is_digit c

-- A character that is kept.
abbrev pub is_kept : ℕ → Bool
is_kept c = is_alnum c || c == b'_' || c == b'$'

sanitize_loop : Text → Text → Text
sanitize_loop [] result = result
sanitize_loop (c ∷ name) result =
    sanitize_loop name (if is_kept c then result ++ c ∷ [] else result ++ b'_' ∷ [])

ensure_start : Text → Text
ensure_start [] = []
ensure_start (c ∷ result) = if is_digit c then b'_' ∷ c ∷ result else c ∷ result

or_unnamed : Text → Text
or_unnamed [] = codes "_unnamed"
or_unnamed (c ∷ result) = c ∷ result

unfoldable pub sanitize_name : Text → Text
unfolding sanitize_loop ensure_start or_unnamed
sanitize_name name = or_unnamed (ensure_start (sanitize_loop name []))
