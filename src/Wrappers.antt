-- ===== src/Wrappers.antt =====
-- src/iree_wrappers.h and src/ort_import.h: status values and the wrappers that own IREE objects.
pub mod StatusLaws
pub mod Totals
pub mod Pointers
pub mod Allocated
use onnxruntime_ep_iree.Common.{ℕ, List, Option, none, some, Text, codes}

-- `OrtErrorCode`, as far as the source names it.
pub data OrtErrorCode : Type 0 where
  ort_fail ort_invalid_argument ort_no_suchfile ort_not_implemented : OrtErrorCode
  ort_other : ℕ → OrtErrorCode

-- `OrtStatus`; a null `OrtStatus*` is success.
pub record Status : Type 0 where
  pub code : OrtErrorCode
  pub message : Text

-- `iree_status_code_t`, as far as the source names it.
pub data IreeCode : Type 0 where
  iree_invalid_argument iree_not_found iree_out_of_range iree_unimplemented : IreeCode
  iree_other : ℕ → IreeCode

-- A failed `iree_status_t`: its code, and what `iree_status_to_string` gives, if it gives a buffer.
pub record IreeError : Type 0 where
  pub code : IreeCode
  pub text : Option Text

-- `iree_status_t`
pub data IreeStatus : Type 0 where
  iree_ok : IreeStatus
  iree_failed : IreeError → IreeStatus

abbrev ort_code : IreeCode → OrtErrorCode
ort_code iree_invalid_argument = ort_invalid_argument
ort_code iree_not_found = ort_no_suchfile
ort_code iree_out_of_range = ort_invalid_argument
ort_code iree_unimplemented = ort_not_implemented
ort_code _ = ort_fail

abbrev status_message : Option Text → Text
status_message none = codes "Unknown IREE error"
status_message (some text) = text

unfoldable pub iree_status_to_ort_status : IreeStatus → Option Status
iree_status_to_ort_status iree_ok = none
iree_status_to_ort_status (iree_failed e) =
    some (record { code = ort_code e.code; message = status_message e.text })

-- A function that returns an `OrtStatus*`: success, or the status that it returns.
pub data Result {ℓ} (A : Type ℓ) : Type ℓ where
  ok : A → Result A
  err : Status → Result A

-- `ORT_RETURN_IF_ERROR`
infixl 5 ◌>>=◌
abbrev pub ◌>>=◌ {ℓ κ} : {A : Type ℓ} {B : Type κ} → Result A → (A → Result B) → Result B
ok a >>= f = f a
err e >>= f = err e
