-- ===== src/MlirGen/Archive/Objects/Results.antt =====
-- `BuildParameterArchive` of src/mlir_gen.cc with its owning pointers has the result of the model
-- without them, and leaves objects in the two out parameters only.
use onnxruntime_ep_iree.Common.{
  ℕ, ◌≡◌, refl, ap, ◌∙◌, inl, inr, Bool, true, false, List, [], ◌∷◌, Option, none, some, Text,
  is_empty, get_elem?, Bool-cases, Option-cases,
}
use onnxruntime_ep_iree.Common.Paths.{append_path, parent_path}
use onnxruntime_ep_iree.Wrappers.{Status, Result, ok, err}
use onnxruntime_ep_iree.Wrappers.Pointers.{Op}
use onnxruntime_ep_iree.Wrappers.Pointers.Scopes.{
  Traced, untraced, Ending, ◌>>=◌, ◌>>◌, continue, bind-then, created, created-result,
}
use onnxruntime_ep_iree.MlirGen.Graph.{
  External, external_error, in_memory, external_file, Initializer, Graph,
}
use onnxruntime_ep_iree.MlirGen.Generator.{
  ParameterInitializer, MlirGenerator, new_generator, generate,
}
use onnxruntime_ep_iree.MlirGen.Archive.{
  Entry, Io, check, add_data, add_source_of, add_source, add_external_of, add_external,
  each_parameter, with_source, add_externals, provide, write_archive, build_parameter_archive,
  generate_mlir,
}
use onnxruntime_ep_iree.MlirGen.Archive.Objects.{
  Objects, source_index, target_index, traced_data, traced_source, traced_external, traced_each,
  traced_provide, traced_target, build_objects, generate_objects,
}

module _ (io : Io) (objects : Objects) where
  traced_data-result :
      (param : ParameterInitializer) (init : Initializer) (index : List Entry)
      (value : Option (List ℕ))
      → (traced_data io objects param init index value).1
        ≡ some (add_data io param init index value)
  unfolding traced_data add_data
  traced_data-result param init index none = refl
  traced_data-result param init index (some bytes) =
      elim (Option-cases (io.wrap_host_allocation bytes)) [
        | inl e ↦ rw e refl
        | inr (status, e) ↦ rw e refl
      ]

  traced_source-result :
      (param : ParameterInitializer) (init : Initializer) (index : List Entry) (external : External)
      → (traced_source io objects param init index external).1
        ≡ some (add_source_of io param init index external)
  unfolding traced_source add_source_of
  traced_source-result param init index (external_error status) = refl
  traced_source-result param init index (external_file info) = refl
  traced_source-result param init index in_memory = traced_data-result param init index init.value

  traced_external-result :
      (model_path : Text) (param : ParameterInitializer) (index : List Entry) (external : External)
      → (traced_external io objects model_path param index external).1
        ≡ some (add_external_of io model_path param index external)
  unfolding traced_external add_external_of
  traced_external-result model_path param index (external_error status) = refl
  traced_external-result model_path param index in_memory = refl
  traced_external-result model_path param index (external_file info) =
      elim (Option-cases (io.open_file (append_path (parent_path model_path) info.file_path))) [
        | inl e ↦ rw e refl
        | inr (status, e) ↦ rw e refl
      ]

  module _ (add : ParameterInitializer → Initializer → List Entry → Result (List Entry))
      (traced : ParameterInitializer → Initializer → List Entry → Traced (List Entry)) where
    traced_each-result :
        ((param : ParameterInitializer) (init : Initializer) (index : List Entry)
          → (traced param init index).1 ≡ some (add param init index))
        → (inits : List Initializer) (params : List ParameterInitializer) (index : List Entry)
        → (traced_each io objects traced inits params index).1
          ≡ each_parameter io add inits params index
    unfolding traced_each each_parameter
    traced_each-result same inits [] index = refl
    traced_each-result same inits (param ∷ params) index =
        elim (Option-cases (get_elem? inits param.initializer_index)) [
          | inl e ↦ rw (e, traced_each, each_parameter) refl
          | inr (init, e) ↦
              rw (e, traced_each, each_parameter)
                (bind-then (λ next. traced_each io objects traced inits params next)
                  (λ next. each_parameter io add inits params next)
                  (λ next. traced_each-result same inits params next) (traced param init index)
                  (add param init index) (same param init index))
        ]

  traced_provide-result :
      (index : List Entry) → (traced_provide io objects index).1 ≡ some (provide io (ok index))
  unfolding traced_provide provide
  traced_provide-result index = elim (Option-cases (io.create_provider index)) [
    | inl e ↦ rw e refl
    | inr (status, e) ↦ rw e refl
  ]

  each-provide :
      (ops : List Op) (r : Ending (List Entry))
      → (continue ops r (traced_provide io objects)).1
        ≡ (elim r [ none ↦ none | some index ↦ some (provide io index) ])
  unfolding provide
  each-provide ops none = refl
  each-provide ops (some (err status)) = refl
  each-provide ops (some (ok index)) = traced_provide-result index

  module _ (model_path : Text) (g : MlirGenerator) where
    externals-result :
        (status : Option Status) (x : Result (List Entry))
        → (created target_index objects.target status
            >> (untraced (some x) >>= λ target.
                traced_each io objects
                  (λ param init index.
                    traced_external io objects model_path param index init.external)
                  g.initializers
                  g.parameter_initializers
                  target
                >>= traced_provide io objects)).1
          ≡ add_externals io model_path g (check status x)
    unfolding add_externals add_external
    externals-result (some status) x = refl
    externals-result none (err status) = refl
    externals-result none (ok target) =
        each-provide _ _
        ∙ ap provided (
            traced_each-result (add_external io model_path)
              (λ param init index. traced_external io objects model_path param index init.external)
              (λ param init index. traced_external-result model_path param index init.external)
              g.initializers g.parameter_initializers target)
      where
        provided : Ending (List Entry) → Ending (Option (List Entry))
        provided r = elim r [ none ↦ none | some index ↦ some (provide io index) ]

    traced_target-result :
        (source : List Entry)
        → (traced_target io objects model_path g source).1
          ≡ add_externals io model_path g (check io.create_target_index (write_archive io source))
    unfolding traced_target
    traced_target-result source = externals-result io.create_target_index (write_archive io source)

    source-result :
        (ops : List Op) (r : Ending (List Entry))
        → (continue ops r (traced_target io objects model_path g)).1 ≡ with_source io model_path g r
    unfolding with_source
    source-result ops none = refl
    source-result ops (some (err status)) = refl
    source-result ops (some (ok source)) = traced_target-result source

    each_source-result :
        (traced_each io objects
          (λ param init index. traced_source io objects param init index init.external)
          g.initializers
          g.parameter_initializers
          []).1
        ≡ each_parameter io (add_source io) g.initializers g.parameter_initializers []
    unfolding add_source
    each_source-result =
        traced_each-result (add_source io)
          (λ param init index. traced_source io objects param init index init.external)
          (λ param init index. traced_source-result param init index init.external) g.initializers
          g.parameter_initializers []

    -- With the pointers the archive has the result that it has without them.
    pub build_objects-result :
        (build_objects io objects model_path g).1 ≡ build_parameter_archive io model_path g
    unfolding build_objects build_parameter_archive
    build_objects-result = elim (Bool-cases (is_empty g.parameter_initializers)) [
      | inl e ↦ rw e refl
      | inr e ↦ rw e (
          created-result source_index objects.source io.create_source_index _
          ∙ ap behind (source-result _ _ ∙ ap (with_source io model_path g) each_source-result))
    ]
      where
        behind : Ending (Option (List Entry)) → Ending (Option (List Entry))
        behind r = elim io.create_source_index [ some status ↦ some (err status) | none ↦ r ]

  pub generate_objects-result :
      (format_e : ℕ → Text) (opened written : Bool) (mlir_path : Text) (graph : Graph)
      → (generate_objects io objects format_e opened written mlir_path graph).1
        ≡ (generate_mlir io format_e opened written mlir_path graph).1
  unfolding generate_objects generate_mlir
  generate_objects-result format_e true true mlir_path graph =
      build_objects-result graph.model_path (generate format_e graph new_generator)
  generate_objects-result format_e true false mlir_path graph = refl
  generate_objects-result format_e false written mlir_path graph = refl
