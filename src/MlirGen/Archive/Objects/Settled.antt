-- ===== src/MlirGen/Archive/Objects/Settled.antt =====
-- `BuildParameterArchive` of src/mlir_gen.cc leaves objects in its two out parameters only.
use onnxruntime_ep_iree.Common.{
  ℕ, refl, inl, inr, Bool, true, false, List, [], ◌∷◌, Option, none, some, Text, is_empty,
  get_elem?, Bool-cases, Option-cases,
}
use onnxruntime_ep_iree.Wrappers.{ok}
use onnxruntime_ep_iree.Wrappers.Pointers.Scopes.{Traced, created, ◌>>◌}
use onnxruntime_ep_iree.Wrappers.Pointers.Settles.{
  Settles, Settles-untraced, Settles-created, Settles-move_assign, Settles-bind, Settles-scoped,
}
use onnxruntime_ep_iree.MlirGen.Graph.{
  External, external_error, in_memory, external_file, Initializer, Graph,
}
use onnxruntime_ep_iree.MlirGen.Generator.{
  ParameterInitializer, MlirGenerator, new_generator, generate,
}
use onnxruntime_ep_iree.MlirGen.Archive.{Entry, Io, write_archive}
use onnxruntime_ep_iree.MlirGen.Archive.Objects.{
  Objects, handle, source_index, target_index, provider, out_index, out_provider, traced_data,
  traced_source, traced_external, traced_each, traced_provide, traced_target, build_objects,
  generate_objects,
}

module _ (io : Io) (objects : Objects) (vs : List ℕ) where
  -- An object that a block creates and uses in one call.
  handled :
      {A : Type 0} (v object : ℕ) (status : Option _) (m : Traced A)
      → Settles (v ∷ vs) (v ∷ vs) m
      → Settles (v ∷ vs) (v ∷ vs) (created v object status >> m)
  handled v object status m h =
      Settles-bind (v ∷ vs) (v ∷ vs) (created v object status) (λ _. m)
        (Settles-created (v ∷ vs) v object status (inl refl)) (λ _. h)

  traced_data-Settles :
      (param : ParameterInitializer) (init : Initializer) (index : List Entry)
      (value : Option (List ℕ))
      → Settles vs vs (traced_data io objects param init index value)
  unfolding traced_data
  traced_data-Settles param init index none = Settles-untraced vs _
  traced_data-Settles param init index (some bytes) =
      Settles-scoped vs handle vs _ (handled handle _ _ _ (Settles-untraced (handle ∷ vs) _))

  traced_source-Settles :
      (param : ParameterInitializer) (init : Initializer) (index : List Entry) (external : External)
      → Settles vs vs (traced_source io objects param init index external)
  unfolding traced_source
  traced_source-Settles param init index (external_error status) = Settles-untraced vs _
  traced_source-Settles param init index (external_file info) = Settles-untraced vs _
  traced_source-Settles param init index in_memory = traced_data-Settles param init index init.value

  traced_external-Settles :
      (model_path : Text) (param : ParameterInitializer) (index : List Entry) (external : External)
      → Settles vs vs (traced_external io objects model_path param index external)
  unfolding traced_external
  traced_external-Settles model_path param index (external_error status) = Settles-untraced vs _
  traced_external-Settles model_path param index in_memory = Settles-untraced vs _
  traced_external-Settles model_path param index (external_file info) =
      Settles-scoped vs handle vs _ (handled handle _ _ _ (Settles-untraced (handle ∷ vs) _))

  traced_each-Settles :
      (traced : ParameterInitializer → Initializer → List Entry → Traced (List Entry))
      → ((param : ParameterInitializer) (init : Initializer) (index : List Entry)
          → Settles vs vs (traced param init index))
      → (inits : List Initializer) (params : List ParameterInitializer) (index : List Entry)
      → Settles vs vs (traced_each io objects traced inits params index)
  unfolding traced_each
  traced_each-Settles traced h inits [] index = Settles-untraced vs _
  traced_each-Settles traced h inits (param ∷ params) index =
      elim (Option-cases (get_elem? inits param.initializer_index)) [
        | inl e ↦ rw (e, traced_each) (Settles-untraced vs none)
        | inr (init, e) ↦
            rw (e, traced_each)
              (Settles-bind vs vs (traced param init index) _ (h param init index)
                λ next. traced_each-Settles traced h inits params next)
      ]

module _ (io : Io) (objects : Objects) where
  -- The variables that may hold objects while an archive is built: the out parameters, and those of
  -- the blocks around.
  abbrev pub outputs : List ℕ
  outputs = out_provider ∷ out_index ∷ []

  traced_provide-Settles :
      (index : List Entry)
      → Settles
          (target_index ∷ source_index ∷ outputs)
          (target_index ∷ source_index ∷ outputs)
          (traced_provide io objects index)
  unfolding traced_provide
  traced_provide-Settles index = Settles-scoped _ provider _ _ (
      handled io objects _ provider _ _ _ (
        Settles-bind _ _ _ _
          (Settles-move_assign _ out_index target_index (inr (inr (inr (inr (inl refl))))))
          λ _.
            Settles-bind _ _ _ _
              (Settles-move_assign _ out_provider provider (inr (inr (inr (inl refl)))))
              λ _. Settles-untraced _ (some (ok (some index)))))

  traced_target-Settles :
      (model_path : Text) (g : MlirGenerator) (source : List Entry)
      → Settles
          (source_index ∷ outputs)
          (source_index ∷ outputs)
          (traced_target io objects model_path g source)
  unfolding traced_target
  traced_target-Settles model_path g source =
      let vs = target_index ∷ source_index ∷ outputs in
      Settles-scoped (source_index ∷ outputs) target_index _ _ (
        handled io objects _ target_index _ _ _ (
          Settles-bind vs vs _ _ (Settles-untraced vs (some (write_archive io source))) λ target.
            Settles-bind vs vs _ (traced_provide io objects)
              (traced_each-Settles io objects vs
                (λ param init index.
                  traced_external io objects model_path param index init.external)
                (λ param init index.
                  traced_external-Settles io objects vs model_path param index init.external)
                g.initializers g.parameter_initializers target)
              traced_provide-Settles))

  pub build_objects-Settles :
      (model_path : Text) (g : MlirGenerator)
      → Settles outputs outputs (build_objects io objects model_path g)
  unfolding build_objects
  build_objects-Settles model_path g = elim (Bool-cases (is_empty g.parameter_initializers)) [
    | inl e ↦ rw e (Settles-untraced outputs (some (ok none)))
    | inr e ↦ rw e (
        Settles-scoped outputs source_index outputs _ (
          handled io objects outputs source_index _ _ _ (
            Settles-bind _ _ _ (traced_target io objects model_path g)
              (traced_each-Settles io objects (source_index ∷ outputs)
                (λ param init index. traced_source io objects param init index init.external)
                (λ param init index.
                  traced_source-Settles io objects (source_index ∷ outputs) param init index
                    init.external)
                g.initializers g.parameter_initializers [])
              (traced_target-Settles model_path g))))
  ]

  pub generate_objects-Settles :
      (format_e : ℕ → Text) (opened written : Bool) (mlir_path : Text) (graph : Graph)
      → Settles outputs outputs
          (generate_objects io objects format_e opened written mlir_path graph)
  unfolding generate_objects
  generate_objects-Settles format_e true true mlir_path graph =
      build_objects-Settles graph.model_path (generate format_e graph new_generator)
  generate_objects-Settles format_e true false mlir_path graph = Settles-untraced outputs _
  generate_objects-Settles format_e false written mlir_path graph = Settles-untraced outputs _
