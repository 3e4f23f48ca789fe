-- ===== src/MlirGen/Graph.antt =====
-- What src/mlir_gen.cc reads of an ORT graph through the wrappers of the ORT C++ API. Each field is
-- the answer of the accessor that is named beside it.
use onnxruntime_ep_iree.Common.{ℕ, List, Option, Text}
use onnxruntime_ep_iree.Common.Decimal.{ℤ}
use onnxruntime_ep_iree.OrtUtils.{OnnxType}
use onnxruntime_ep_iree.Wrappers.{Status}

-- `Ort::ConstTypeInfo`: the shape and element type if `GetONNXType` says that it is a tensor.
pub data TypeInfo : Type 0 where
  tensor : List ℤ → OnnxType → TypeInfo
  non_tensor : TypeInfo

-- `Ort::ConstValueInfo` of an input or an output.
pub record ValueInfo : Type 0 where
  pub name : Text
  pub type_info : TypeInfo

-- `Ort::ExternalInitializerInfo`.
pub record ExternalInfo : Type 0 where
  pub file_path : Text
  pub byte_size : ℕ
  pub file_offset : ℤ

-- `GetExternalInitializerInfo`: an error, or OK with a pointer that is null for data in memory.
pub data External : Type 0 where
  external_error : Status → External
  in_memory : External
  external_file : ExternalInfo → External

-- `Ort::ConstValueInfo` of an initializer, which is a tensor. `element_count` is what
-- `GetElementCount` reports; `value` has the raw data, or `none` if `GetInitializer` fails.
pub record Initializer : Type 0 where
  pub name : Text
  pub shape : List ℤ
  pub element_type : OnnxType
  pub element_count : ℕ
  pub value : Option (List ℕ)
  pub external : External

-- `Ort::ConstOpAttr`, by `GetType`. A float is given by its bits.
pub data AttrValue : Type 0 where
  attr_int : ℤ → AttrValue
  attr_float : ℕ → AttrValue
  attr_string : Text → AttrValue
  attr_ints : List ℤ → AttrValue
  attr_other : AttrValue

pub record Attr : Type 0 where
  pub name : Text
  pub value : AttrValue

-- `Ort::ConstNode`. An optional input or output that is left out is null.
pub record Node : Type 0 where
  pub op_type : Text
  pub inputs : List (Option ValueInfo)
  pub outputs : List (Option ValueInfo)
  pub attrs : List Attr

pub record OpSet : Type 0 where
  pub domain : Text
  pub version : ℤ

-- `Ort::ConstGraph`.
pub record Graph : Type 0 where
  pub name : Text
  pub ir_version : ℤ
  pub opsets : List OpSet
  pub inputs : List ValueInfo
  pub outputs : List ValueInfo
  pub initializers : List Initializer
  pub nodes : List Node
  pub model_path : Text
