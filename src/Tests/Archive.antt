-- ===== src/Tests/Archive.antt =====
-- A run of `BuildParameterArchive`, with an io library that never fails.
use onnxruntime_ep_iree.Common.{
  ℕ, ◌≡◌, ◌≢◌, refl, sym, ap, List, [], ◌∷◌, Option, none, some, arith, Text, codes, In,
}
use onnxruntime_ep_iree.Common.Decimal.{pos}
use onnxruntime_ep_iree.OrtUtils.{OnnxType, onnx_element_type_size}
use onnxruntime_ep_iree.Wrappers.{ok, err}
use onnxruntime_ep_iree.MlirGen.Graph.{Initializer, Graph, in_memory}
use onnxruntime_ep_iree.MlirGen.Names.{sanitize_name}
use onnxruntime_ep_iree.MlirGen.Generator.{
  MlirGenerator, new_generator, generate, initializer_byte_size, emit_module_footer,
  emit_function_body, emit_return, emit_nodes, emit_initializers, emit_module_header,
  collect_metadata, emit_initializer,
}
use onnxruntime_ep_iree.MlirGen.Mentions.{Mentions, parameter_reference}
use onnxruntime_ep_iree.MlirGen.Archive.{Io, Entry, host_allocation, build_parameter_archive}
use onnxruntime_ep_iree.MlirGen.Archive.Rounds.{keys}
use onnxruntime_ep_iree.MlirGen.Archive.Keys.{Provides, archive_names, build_parameter_archive-keys}
use onnxruntime_ep_iree.MlirGen.Archive.Generated.{generate-archived, generate-archive_defined}

abbrev pub float_text : ℕ → Text
float_text bits = codes "0.000000e+00"

abbrev pub io : Io
io = record {
  create_source_index = none;
  wrap_host_allocation = λ bytes. none;
  index_add = λ index entry. none;
  create_target_index = none;
  build_archive = λ source. ok source;
  open_file = λ path. none;
  create_provider = λ index. none;
}

-- Three zeros stand for the data.
abbrev weights : Initializer
weights = record {
  name = codes "fc/w";
  shape = pos 100 ∷ [];
  element_type = OnnxType.float;
  element_count = 100;
  value = some (0 ∷ 0 ∷ 0 ∷ []);
  external = in_memory;
}

abbrev pub graph : Graph
graph = record {
  name = codes "main";
  ir_version = pos 8;
  opsets = [];
  inputs = [];
  outputs = [];
  initializers = weights ∷ [];
  nodes = [];
  model_path = codes "models/m.onnx";
}

abbrev entry : Entry
entry = record { key = codes "fc_w"; length = 3; storage = host_allocation (0 ∷ 0 ∷ 0 ∷ []) }

abbrev written : MlirGenerator
written = record new_generator {
  initializers = weights ∷ [];
  parameter_initializers = record { sanitized_name = codes "fc_w"; initializer_index = 0 } ∷ [];
}

io_keeps_keys :
    (source target : List Entry) → io.build_archive source ≡ ok target → keys target ≡ keys source
io_keeps_keys source target h = ap (λ r. elim r [ ok index ↦ keys index | err status ↦ [] ]) (sym h)

archived : build_parameter_archive io graph.model_path written ≡ some (ok (some (entry ∷ [])))
unfolding build_parameter_archive
archived = refl

build_parameter_archive-keys_example : Provides (archive_names written) (some (entry ∷ []))
build_parameter_archive-keys_example =
    build_parameter_archive-keys io io_keeps_keys graph.model_path written (some (entry ∷ [])) refl
      archived

generate-archive_defined_example :
    build_parameter_archive io graph.model_path (generate float_text graph new_generator) ≢ none
generate-archive_defined_example = generate-archive_defined io float_text graph graph.model_path

generated :
    build_parameter_archive io graph.model_path (generate float_text graph new_generator)
    ≡ some (ok (some (entry ∷ [])))
unfolding build_parameter_archive generate emit_module_footer emit_function_body emit_return
    emit_nodes emit_initializers emit_module_header collect_metadata emit_initializer
    initializer_byte_size onnx_element_type_size sanitize_name
generated = refl

generate-archived_example :
    (target : List Entry) × (key : Text) × (◌≡◌ {A = Option (List Entry)}
      (some (entry ∷ []))
      (some target))
    × Mentions (parameter_reference weights key) (generate float_text graph new_generator).out
    × In key (keys target)
unfolding initializer_byte_size onnx_element_type_size
generate-archived_example =
    generate-archived io io_keeps_keys float_text graph graph.model_path (some (entry ∷ [])) 0
      weights refl (omega arith) refl generated
