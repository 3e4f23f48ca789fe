-- ===== src/Tests/Compute.antt =====
-- Runs of `ComputeImpl`: two inputs, one in host memory and one on the device, and two outputs.
use onnxruntime_ep_iree.Common.{tally, ℕ, suc, ◌≡◌, refl, [], ◌∷◌, none, some, codes, text_eq}
use onnxruntime_ep_iree.Common.Decimal.{pos}
use onnxruntime_ep_iree.Wrappers.{ok, ort_fail}
use onnxruntime_ep_iree.OrtUtils.{
  OnnxType, IreeType, onnx_to_iree_element_type, iree_to_onnx_element_type, get_buffer_view_shape,
  calculate_tensor_byte_size,
}
use onnxruntime_ep_iree.OrtUtils.Convert.{
  Hal, OrtTensor, ort_tensor_to_iree_buffer_view, iree_buffer_view_to_ort_tensor,
}
use onnxruntime_ep_iree.Factory.State.{find, assign}
use onnxruntime_ep_iree.Factory.Devices.{
  add_device, add_devices, hardware_device, create_iree_hw_devices,
}
use onnxruntime_ep_iree.Factory.Cache.{get_device_for_id}
use onnxruntime_ep_iree.Ep.Compute.{
  Kernel, made, released, compute, with_call, after_initialize, deinitialize, call, after,
  push_inputs, convert_inputs, with_view, deliver_outputs, deliver_popped, deliver_view,
}
use onnxruntime_ep_iree.Ep.Compute.Pairs.{is_made, is_released, is_initialized, is_deinitialized}
use onnxruntime_ep_iree.Ep.Compute.Balance.{compute-views, compute-call}
use onnxruntime_ep_iree.Ep.Compute.Order.{Computed}
use onnxruntime_ep_iree.Ep.Compute.Success.{compute-Computed}
use onnxruntime_ep_iree.Ep.Compute.Complete.{Works, compute-status}
use onnxruntime_ep_iree.Tests.Setup.{value_of, runtime, healthy, factory, hip_ep}

-- Every view is new, and has two floats.
abbrev hal : Hal ℕ
hal = record {
  create_view = λ device buffer dims type w. (ok w, suc w);
  copy_view = λ device data_ptr byte_size dims type w. (ok w, suc w);
  view = λ v w. record {
    buffer = v;
    byte_length = 8;
    dims = 2 ∷ [];
    element_type = IreeType.float_32;
  };
  transfer = λ device t w. (none, w);
}

abbrev on_host : OrtTensor
on_host = record { vendor_id = none; shape = pos 2 ∷ []; element_type = OnnxType.float; raw = 500 }

abbrev on_hip : OrtTensor
on_hip = record on_host { vendor_id = some 0x1EEE; raw = 600 }

abbrev strange : OrtTensor
strange = record on_host { element_type = OnnxType.undefined }

abbrev kernel : Kernel ℕ
kernel = record {
  initialize = λ w. (none, w);
  deinitialize = λ w. w;
  push_input = λ v w. (none, w);
  invoke = λ w. (none, w);
  output_count = λ w. 2;
  pop_output = λ w. (ok w, suc w);
  get_output = λ i shape w. (record on_host { raw = i }, w);
  release_view = λ v w. w;
}

succeeded :
    (compute runtime hal kernel hip_ep (on_host ∷ on_hip ∷ []) (factory healthy)).status ≡ none
unfolding compute after convert_inputs with_view ort_tensor_to_iree_buffer_view
    onnx_to_iree_element_type iree_to_onnx_element_type calculate_tensor_byte_size with_call
    after_initialize deinitialize call push_inputs deliver_outputs deliver_popped deliver_view
    iree_buffer_view_to_ort_tensor get_buffer_view_shape get_device_for_id find assign
    create_iree_hw_devices add_devices add_device value_of hardware_device text_eq
succeeded = refl

refused :
    (compute runtime hal kernel hip_ep (on_hip ∷ strange ∷ on_host ∷ []) (factory healthy)).events
    ≡ made 1 ∷ released 1 ∷ []
unfolding compute after convert_inputs with_view ort_tensor_to_iree_buffer_view
    onnx_to_iree_element_type iree_to_onnx_element_type calculate_tensor_byte_size with_call
    after_initialize deinitialize call push_inputs deliver_outputs deliver_popped deliver_view
    iree_buffer_view_to_ort_tensor get_buffer_view_shape get_device_for_id find assign
    create_iree_hw_devices add_devices add_device value_of hardware_device text_eq
refused = refl

compute-Computed_example :
    Computed hal kernel
      (get_device_for_id runtime 1 (factory healthy)).0
      (on_host ∷ on_hip ∷ [])
      (compute runtime hal kernel hip_ep (on_host ∷ on_hip ∷ []) (factory healthy)).events
      (get_device_for_id runtime 1 (factory healthy)).1.world
      (compute runtime hal kernel hip_ep (on_host ∷ on_hip ∷ []) (factory healthy)).factory.world
compute-Computed_example =
    compute-Computed runtime hal kernel hip_ep (on_host ∷ on_hip ∷ []) (factory healthy) succeeded

compute-views_example :
    let events =
      (compute runtime hal kernel hip_ep
        (on_hip ∷ strange ∷ on_host ∷ [])
        (factory healthy)).events in
    tally (is_released 1) events ≡ tally (is_made 1) events
compute-views_example =
    compute-views runtime hal kernel hip_ep (on_hip ∷ strange ∷ on_host ∷ []) (factory healthy) 1

compute-call_example :
    let events =
      (compute runtime hal
        (record kernel {
          invoke = λ w. (some (record { code = ort_fail; message = codes "lost" }), w);
        })
        hip_ep
        (on_host ∷ [])
        (factory healthy)).events in
    tally is_deinitialized events ≡ tally is_initialized events
compute-call_example =
    compute-call runtime hal
      (record kernel {
        invoke = λ w. (some (record { code = ort_fail; message = codes "lost" }), w);
      })
      hip_ep (on_host ∷ []) (factory healthy)

works : Works hal kernel (λ n w. Unit)
unfolding iree_to_onnx_element_type
works = record {
  creates = λ device buffer dims type w. (w, refl);
  copies = λ device bytes size dims type w. (w, refl);
  initializes = λ w. refl;
  pushes = λ v w. refl;
  invokes = λ w. refl;
  counts = λ w. tt;
  pops = λ n w h. ((w, refl), tt);
  has_type = λ v w. refl;
  transfers = λ device t w. refl;
  gets_output = λ n i shape w h. tt;
  keeps_transfer = λ n device t w h. tt;
  keeps_release = λ n v w h. tt;
}

compute-status_example :
    (compute runtime hal kernel hip_ep (on_host ∷ on_hip ∷ []) (factory healthy)).status ≡ none
unfolding onnx_to_iree_element_type
compute-status_example =
    compute-status runtime hal kernel (λ n w. Unit) works hip_ep (on_host ∷ on_hip ∷ [])
      (factory healthy) (refl, (refl, tt))
