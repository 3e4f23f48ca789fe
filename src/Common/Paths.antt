-- ===== src/Common/Paths.antt =====
-- The paths of `std::filesystem` on POSIX, as texts.
use mathlib.Core.Bool.{Bool, false}
use mathlib.Core.List.{[], ◌∷◌, ◌++◌, append_cancel_left}
use mathlib.Core.Logic.{inl, inr}
use mathlib.Core.Option.{Option, none, some}
use native.Mathlib.Omega.{arith}
use mathlib.Core.Path.{◌≡◌, refl}
use onnxruntime_ep_iree.Common.Tests.{◌==◌, if◌then◌else◌, Bool-cases}
use onnxruntime_ep_iree.Common.Strings.{Text, codes, is_empty}

-- `/` of a directory and a path, and `parent_path`, of `std::filesystem::path` on POSIX.
ends_with_slash : Text → Bool
ends_with_slash [] = false
ends_with_slash (c ∷ []) = c == b'/'
ends_with_slash (c ∷ d ∷ s) = ends_with_slash (d ∷ s)

unfoldable pub is_absolute : Text → Bool
is_absolute [] = false
is_absolute (c ∷ s) = c == b'/'

unfoldable pub append_path : Text → Text → Text
unfolding ends_with_slash is_absolute
append_path dir path =
    if is_absolute path
    then path
    else if is_empty dir
    then path
    else if ends_with_slash dir
    then dir ++ path
    else dir ++ (b'/' ∷ path)

-- The text before the last run of slashes, if there is a slash.
before_last_slash : Text → Option Text
before_last_slash [] = none
before_last_slash (c ∷ s) = elim (before_last_slash s) [
  | some dir ↦ some (if c == b'/' then (if is_empty dir then [] else c ∷ dir) else c ∷ dir)
  | none ↦ if c == b'/' then some [] else none
]

unfoldable pub parent_path : Text → Text
unfolding before_last_slash is_absolute
parent_path path = elim (before_last_slash path) [
  | none ↦ []
  | some dir ↦ if is_empty dir then (if is_absolute path then codes "/" else []) else dir
]

append-ne : (s t : Text) → is_empty t ≡ false → is_empty (s ++ t) ≡ false
append-ne [] t h = h
append-ne (c ∷ s) t h = refl

pub append_path-ne :
    (dir path : Text) → is_empty path ≡ false → is_empty (append_path dir path) ≡ false
unfolding append_path
append_path-ne dir path h = ground (arith, append-ne dir path h, append-ne dir (b'/' ∷ path) refl)

-- Two relative paths of one directory.
pub append_path_cancel :
    (dir p q : Text)
    → is_absolute p ≡ false
    → is_absolute q ≡ false
    → append_path dir p ≡ append_path dir q
    → p ≡ q
unfolding append_path
append_path_cancel dir p q hp hq =
    rw (hp, hq, append_path)
      (elim (Bool-cases (is_empty dir)) [
        | inl e ↦ rw (e, append_path) (λ h. h)
        | inr e ↦ elim (Bool-cases (ends_with_slash dir)) [
          | inl s ↦ rw (e, s, append_path) (λ h. append_cancel_left dir p q h)
          | inr s ↦
              rw (e, s, append_path) (λ h. cc (append_cancel_left dir (b'/' ∷ p) (b'/' ∷ q) h))
        ]
      ])
