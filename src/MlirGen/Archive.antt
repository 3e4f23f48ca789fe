-- ===== src/MlirGen/Archive.antt =====
-- `BuildParameterArchive` and `GenerateMlir` of src/mlir_gen.cc. A parameter index is the list of
-- its entries; the calls of the IREE io library are the fields of `Io`, where a status is null on
-- success.
pub mod Rounds
pub mod Keys
pub mod Generated
pub mod Objects
use onnxruntime_ep_iree.Common.{
  ℕ, ◌-◌, Bool, true, false, List, [], ◌∷◌, ◌++◌, Option, none, some, ◌==◌, ltb, if◌then◌else◌,
  Text, codes, is_empty, length, get_elem?,
}
use onnxruntime_ep_iree.Common.Paths.{append_path, parent_path}
use onnxruntime_ep_iree.OrtUtils.{to_size}
use onnxruntime_ep_iree.Wrappers.{Status, Result, ok, err, ort_fail}
use onnxruntime_ep_iree.MlirGen.Graph.{
  External, external_error, in_memory, external_file, Initializer, Graph,
}
use onnxruntime_ep_iree.MlirGen.Generator.{
  ParameterInitializer, MlirGenerator, new_generator, generate,
}

-- Where an entry's data are: in memory, or in a file from an offset on.
pub data Storage : Type 0 where
  host_allocation : List ℕ → Storage
  file_handle : Text → ℕ → Storage

-- `iree_io_parameter_index_entry_t`
pub record Entry : Type 0 where
  pub key : Text
  pub length : ℕ
  pub storage : Storage

pub record Io : Type 0 where
  pub create_source_index : Option Status
  pub wrap_host_allocation : List ℕ → Option Status
  pub index_add : List Entry → Entry → Option Status
  pub create_target_index : Option Status
  pub build_archive : List Entry → Result (List Entry)
  pub open_file : Text → Option Status
  pub create_provider : List Entry → Option Status

-- `IREE_ORT_RETURN_IF_ERROR`
abbrev check {ℓ} : {A : Type ℓ} → Option Status → Result A → Result A
check none r = r
check (some status) r = err status

module _ (io : Io) where
  -- `iree_io_parameter_index_add`
  add_entry : List Entry → Entry → Result (List Entry)
  add_entry index entry = check (io.index_add index entry) (ok (index ++ entry ∷ []))

  add_data : ParameterInitializer → Initializer → List Entry → Option (List ℕ) → Result (List Entry)
  unfolding add_entry
  add_data param init index none =
      err (record { code = ort_fail; message = codes "Failed to get initializer: " ++ init.name })
  add_data param init index (some bytes) = check (io.wrap_host_allocation bytes) (
      add_entry index (record {
        key = param.sanitized_name;
        length = length bytes;
        storage = host_allocation bytes;
      }))

  -- A round of the first loop, by where the initializer's data are: external ones are skipped.
  pub add_source_of :
      ParameterInitializer → Initializer → List Entry → External → Result (List Entry)
  unfolding add_data
  add_source_of param init index (external_error status) = err status
  add_source_of param init index (external_file info) = ok index
  add_source_of param init index in_memory = add_data param init index init.value

  add_source : ParameterInitializer → Initializer → List Entry → Result (List Entry)
  unfolding add_source_of
  add_source param init index = add_source_of param init index init.external

  -- A round of the second loop: only external initializers are added.
  pub add_external_of : Text → ParameterInitializer → List Entry → External → Result (List Entry)
  unfolding add_entry append_path parent_path
  add_external_of model_path param index (external_error status) = err status
  add_external_of model_path param index in_memory = ok index
  add_external_of model_path param index (external_file info) =
      let path = append_path (parent_path model_path) info.file_path in
      check (io.open_file path) (
        add_entry index (record {
          key = param.sanitized_name;
          length = info.byte_size;
          storage = file_handle path (to_size info.file_offset);
        }))

  add_external : Text → ParameterInitializer → Initializer → List Entry → Result (List Entry)
  unfolding add_external_of
  add_external model_path param init index = add_external_of model_path param index init.external

  -- A loop over the parameters; `none` if `initializers_[…]` is out of range.
  pub each_parameter :
      (ParameterInitializer → Initializer → List Entry → Result (List Entry))
      → List Initializer
      → List ParameterInitializer
      → List Entry
      → Option (Result (List Entry))
  each_parameter add inits [] index = some (ok index)
  each_parameter add inits (param ∷ params) index = elim (get_elem? inits param.initializer_index) [
    | none ↦ none
    | some init ↦ elim (add param init index) [
      | err status ↦ some (err status)
      | ok next ↦ each_parameter add inits params next
    ]
  ]

  -- The archive is written only if there is something to write.
  write_archive : List Entry → Result (List Entry)
  write_archive source = if ltb 0 (length source) then io.build_archive source else ok []

  -- `out_index`, with its provider, from the target index.
  provide : Result (List Entry) → Result (Option (List Entry))
  provide (err status) = err status
  provide (ok target) = check (io.create_provider target) (ok (some target))

  add_externals : Text → MlirGenerator → Result (List Entry) → Option (Result (Option (List Entry)))
  unfolding each_parameter add_external provide
  add_externals model_path g (err status) = some (err status)
  add_externals model_path g (ok target) =
      elim (each_parameter (add_external model_path) g.initializers g.parameter_initializers
        target) [ none ↦ none | some r ↦ some (provide r) ]

  with_source :
      Text → MlirGenerator → Option (Result (List Entry)) → Option (Result (Option (List Entry)))
  unfolding add_externals write_archive
  with_source model_path g none = none
  with_source model_path g (some (err status)) = some (err status)
  with_source model_path g (some (ok source)) =
      add_externals model_path g (check io.create_target_index (write_archive source))

  -- The target index, or `none` where there are no parameters and the outputs stay null.
  unfoldable pub build_parameter_archive :
      Text → MlirGenerator → Option (Result (Option (List Entry)))
  unfolding with_source each_parameter add_source
  build_parameter_archive model_path g =
      if is_empty g.parameter_initializers then some (ok none) else elim io.create_source_index [
        | some status ↦ some (err status)
        | none ↦
            with_source model_path g
              (each_parameter add_source g.initializers g.parameter_initializers [])
      ]

  -- The end of `GenerateMlir`, by whether the file has not failed when it is closed. The result has
  -- the text of the file, if it is written.
  close_file :
      Bool → Text → Text → MlirGenerator → Option Text × Option (Result (Option (List Entry)))
  close_file true mlir_path model_path g = (some g.out, build_parameter_archive model_path g)
  close_file false mlir_path model_path g = (
    none,
    some (
        err (record { code = ort_fail; message = codes "Failed to write to file: " ++ mlir_path })),
  )

  -- `opened` is whether the output file is open.
  unfoldable pub generate_mlir :
      (ℕ → Text) → Bool → Bool → Text → Graph → Option Text × Option (Result (Option (List Entry)))
  unfolding close_file
  generate_mlir format_e false written mlir_path graph = (
    none,
    some (
        err (record {
          code = ort_fail;
          message = codes "Failed to open output file: " ++ mlir_path;
        })),
  )
  generate_mlir format_e true written mlir_path graph =
      close_file written mlir_path graph.model_path (generate format_e graph new_generator)
