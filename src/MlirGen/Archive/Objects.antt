-- ===== src/MlirGen/Archive/Objects.antt =====
-- `BuildParameterArchive` and `GenerateMlir` of src/mlir_gen.cc with the owning pointers that they
-- declare: what they do to these pointers, beside the result.
pub mod Results
pub mod Settled
use onnxruntime_ep_iree.Common.{
  ℕ, Bool, true, false, List, [], ◌∷◌, ◌++◌, Option, none, some, if◌then◌else◌, Text, codes,
  is_empty, length, get_elem?,
}
use onnxruntime_ep_iree.Common.Paths.{append_path, parent_path}
use onnxruntime_ep_iree.OrtUtils.{to_size}
use onnxruntime_ep_iree.Wrappers.{Result, ort_fail}
use onnxruntime_ep_iree.Wrappers.Pointers.{move_assign_op}
use onnxruntime_ep_iree.Wrappers.Pointers.Scopes.{
  Traced, pure, untraced, fails, perform, ◌>>=◌, ◌>>◌, scoped, created,
}
use onnxruntime_ep_iree.MlirGen.Graph.{
  External, external_error, in_memory, external_file, Initializer, Graph,
}
use onnxruntime_ep_iree.MlirGen.Generator.{
  ParameterInitializer, MlirGenerator, new_generator, generate,
}
use onnxruntime_ep_iree.MlirGen.Archive.{
  Entry, host_allocation, file_handle, Io, add_entry, write_archive, generate_mlir,
}

-- The objects that the calls create. `file` is by the index of the initializer.
pub record Objects : Type 0 where
  pub source : ℕ
  pub target : ℕ
  pub provider : ℕ
  pub file : ℕ → ℕ

-- The variables. `handle` and `ext_handle` are never there at once.
abbrev source_index : ℕ
source_index = 0

abbrev target_index : ℕ
target_index = 1

abbrev provider : ℕ
provider = 2

abbrev handle : ℕ
handle = 3

abbrev pub out_index : ℕ
out_index = 4

abbrev pub out_provider : ℕ
out_provider = 5

module _ (io : Io) (objects : Objects) where
  traced_data :
      ParameterInitializer → Initializer → List Entry → Option (List ℕ) → Traced (List Entry)
  unfolding add_entry
  traced_data param init index none =
      fails (record { code = ort_fail; message = codes "Failed to get initializer: " ++ init.name })
  traced_data param init index (some bytes) = scoped handle do
    created handle (objects.file param.initializer_index) (io.wrap_host_allocation bytes)
    untraced (
        some (
          add_entry io index (record {
            key = param.sanitized_name;
            length = length bytes;
            storage = host_allocation bytes;
          })))

  traced_source : ParameterInitializer → Initializer → List Entry → External → Traced (List Entry)
  unfolding traced_data
  traced_source param init index (external_error status) = fails status
  traced_source param init index (external_file info) = pure index
  traced_source param init index in_memory = traced_data param init index init.value

  traced_external : Text → ParameterInitializer → List Entry → External → Traced (List Entry)
  unfolding add_entry append_path parent_path
  traced_external model_path param index (external_error status) = fails status
  traced_external model_path param index in_memory = pure index
  traced_external model_path param index (external_file info) =
      let path = append_path (parent_path model_path) info.file_path in
      scoped handle do
        created handle (objects.file param.initializer_index) (io.open_file path)
        untraced (
            some (
              add_entry io index (record {
                key = param.sanitized_name;
                length = info.byte_size;
                storage = file_handle path (to_size info.file_offset);
              })))

  traced_each :
      (ParameterInitializer → Initializer → List Entry → Traced (List Entry))
      → List Initializer
      → List ParameterInitializer
      → List Entry
      → Traced (List Entry)
  traced_each add inits [] index = pure index
  traced_each add inits (param ∷ params) index = elim (get_elem? inits param.initializer_index) [
    | none ↦ untraced none
    | some init ↦ add param init index >>= λ next. traced_each add inits params next
  ]

  -- The provider, and the moves into the out parameters.
  traced_provide : List Entry → Traced (Option (List Entry))
  traced_provide index = scoped provider do
    created provider objects.provider (io.create_provider index)
    perform (move_assign_op out_index target_index)
    perform (move_assign_op out_provider provider)
    pure (some index)

  -- From the target index on.
  traced_target : Text → MlirGenerator → List Entry → Traced (Option (List Entry))
  unfolding traced_each traced_external write_archive traced_provide
  traced_target model_path g source = scoped target_index do
    created target_index objects.target io.create_target_index
    target ← untraced (some (write_archive io source))
    index ←
        traced_each (λ param init index. traced_external model_path param index init.external)
          g.initializers g.parameter_initializers target
    traced_provide index

  unfoldable pub build_objects : Text → MlirGenerator → Traced (Option (List Entry))
  unfolding traced_each traced_source traced_target
  build_objects model_path g =
      if is_empty g.parameter_initializers
      then pure none
      else scoped source_index do
        created source_index objects.source io.create_source_index
        source ←
            traced_each (λ param init index. traced_source param init index init.external)
              g.initializers g.parameter_initializers []
        traced_target model_path g source

  unfoldable pub generate_objects :
      (ℕ → Text) → Bool → Bool → Text → Graph → Traced (Option (List Entry))
  unfolding build_objects
  generate_objects format_e true true mlir_path graph =
      build_objects graph.model_path (generate format_e graph new_generator)
  generate_objects format_e opened written mlir_path graph =
      untraced (generate_mlir io format_e opened written mlir_path graph).1
