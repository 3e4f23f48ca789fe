-- ===== src/Wrappers/StatusLaws.antt =====
-- The conversion of a status of IREE to one of ORT.
use onnxruntime_ep_iree.Common.{◌≡◌, ◌↔◌, none, arith}
use onnxruntime_ep_iree.Wrappers.{IreeStatus, iree_ok, iree_status_to_ort_status}

-- The result is null for the OK status and for no other: no error is lost.
pub iree_status_to_ort_status-none :
    (s : IreeStatus) → (iree_status_to_ort_status s ≡ none) ↔ (s ≡ iree_ok)
unfolding iree_status_to_ort_status
iree_status_to_ort_status-none s = ground arith
