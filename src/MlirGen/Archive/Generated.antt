-- ===== src/MlirGen/Archive/Generated.antt =====
-- The archive of the graph that `Generate` has written: its keys, and the range of its indices.
use onnxruntime_ep_iree.Common.{
  ℕ, ◌≡◌, ◌≢◌, refl, ap, ◌∙◌, inl, inr, ◌⊎◌, true, false, ◌||◌, List, [], ◌∷◌, ◌++◌, Option, none,
  some, arith, Text, get_elem?, is_empty, All, All-mono, In, Option-cases, Bool-cases,
}
use onnxruntime_ep_iree.Wrappers.{Result, ok, err}
use onnxruntime_ep_iree.MlirGen.Graph.{Initializer, Graph}
use onnxruntime_ep_iree.MlirGen.Names.{sanitize_name}
use onnxruntime_ep_iree.MlirGen.Generator.{
  ParameterInitializer, MlirGenerator, generate, new_generator, collect_metadata,
}
use onnxruntime_ep_iree.MlirGen.Emission.{generate-module_text}
use onnxruntime_ep_iree.MlirGen.Mentions.{Mentions, parameter_reference, generate-Mentions}
use onnxruntime_ep_iree.MlirGen.Parameters.{IsLarge, parameter_at, generate-parameters}
use onnxruntime_ep_iree.MlirGen.Archive.{
  Entry, Io, add_source, add_external, each_parameter, add_externals, with_source,
  build_parameter_archive,
}
use onnxruntime_ep_iree.MlirGen.Archive.Rounds.{keys, is_in_memory, is_external, In-names_where}
use onnxruntime_ep_iree.MlirGen.Archive.Keys.{Preserves, build_parameter_archive-keys}

generate-initializers :
    (format_e : ℕ → Text) (graph : Graph)
    → (generate format_e graph new_generator).initializers ≡ graph.initializers
generate-initializers format_e graph =
    rw (generate-module_text format_e graph) (unfold collect_metadata in refl)

not_empty : {A : Type 0} (xs : List A) (x : A) → In x xs → is_empty xs ≡ false
not_empty [] x m = absurd m
not_empty (y ∷ xs) x m = refl

In-append : {A : Type 0} (xs ys : List A) (x : A) → In x xs ⊎ In x ys → In x (xs ++ ys)
In-append [] ys x (inl m) = absurd m
In-append [] ys x (inr m) = m
In-append (z ∷ xs) ys x (inl (inl e)) = inl e
In-append (z ∷ xs) ys x (inl (inr m)) = inr (In-append xs ys x (inl m))
In-append (z ∷ xs) ys x (inr m) = inr (In-append xs ys x (inr m))

-- Every index is in range.
abbrev InRange : List Initializer → ParameterInitializer → Type 0
InRange inits p = (init : Initializer) × (get_elem? inits p.initializer_index ≡ some init)

module _ (io : Io) where
  round-defined :
      (r : Result (List Entry)) (more : List Entry → Option (Result (List Entry)))
      → ((mid : List Entry) → more mid ≢ none)
      → elim r [ err status ↦ some (err status) | ok mid ↦ more mid ] ≢ none
  round-defined (err status) more h = λ e. cc
  round-defined (ok mid) more h = h mid

  -- Where the archive is built with the keys that it is given, and the archive of the graph succeeds:
  -- for an initializer of more than 256 bytes, the data of which are known to be in memory or in a
  -- file, the text of the module defines the constant of that initializer by a parameter whose key
  -- is a key of the index.
  pub generate-archived :
      Preserves io
      → (format_e : ℕ → Text) (graph : Graph) (model_path : Text) (out : Option (List Entry))
        (k : ℕ) (init : Initializer)
      → get_elem? graph.initializers k ≡ some init
      → IsLarge init
      → is_in_memory init.external || is_external init.external ≡ true
      → build_parameter_archive io model_path (generate format_e graph new_generator)
        ≡ some (ok out)
      → (target : List Entry) × (key : Text) × (out ≡ some target)
        × Mentions (parameter_reference init key) (generate format_e graph new_generator).out
        × In key (keys target)
  generate-archived preserves format_e graph model_path out k init found large known h =
      let g = generate format_e graph new_generator in
      let m = (generate-parameters format_e graph).1 k init found large in
      let at : get_elem? g.initializers k ≡ some init =
        rw (generate-initializers format_e graph) found in
      let (target, e, names) =
        build_parameter_archive-keys io preserves model_path g out
          (not_empty g.parameter_initializers _ m) h in
      (
        target,
        sanitize_name init.name,
        e,
        generate-Mentions format_e graph k init found large,
        rw names (
            In-append _ _ _ (elim (Bool-cases (is_in_memory init.external)) [
              | inl y ↦ inl (
                  In-names_where is_in_memory g.initializers g.parameter_initializers
                    (parameter_at k init) init at y m)
              | inr n ↦ inr (
                  In-names_where is_external g.initializers g.parameter_initializers
                    (parameter_at k init) init at (ground arith) m)
            ])),
      )

  each_parameter-defined :
      (add : ParameterInitializer → Initializer → List Entry → Result (List Entry))
      (inits : List Initializer) (ps : List ParameterInitializer) (index : List Entry)
      → All (InRange inits) ps
      → each_parameter io add inits ps index ≢ none
  unfolding each_parameter
  each_parameter-defined add inits [] index h = λ e. cc
  each_parameter-defined add inits (p ∷ ps) index ((init, found), h) =
      rw (found, each_parameter)
        (round-defined (add p init index) (each_parameter io add inits ps)
          (λ mid. each_parameter-defined add inits ps mid h))

  add_externals-defined :
      (model_path : Text) (g : MlirGenerator) (r : Result (List Entry))
      → All (InRange g.initializers) g.parameter_initializers
      → add_externals io model_path g r ≢ none
  unfolding add_externals
  add_externals-defined model_path g (err status) h = λ e. cc
  add_externals-defined model_path g (ok index) h =
      elim (Option-cases (
        each_parameter io (add_external io model_path) g.initializers g.parameter_initializers
          index)) [
            | inl e ↦ absurd (
                each_parameter-defined (add_external io model_path) g.initializers
                  g.parameter_initializers index h e)
            | inr (r, e) ↦ rw (e, add_externals) (λ z. cc)
          ]

  with_source-defined :
      (model_path : Text) (g : MlirGenerator) (o : Option (Result (List Entry)))
      → All (InRange g.initializers) g.parameter_initializers
      → o ≢ none
      → with_source io model_path g o ≢ none
  unfolding with_source
  with_source-defined model_path g none h k = absurd (k refl)
  with_source-defined model_path g (some (err status)) h k = λ e. cc
  with_source-defined model_path g (some (ok source)) h k = add_externals-defined model_path g _ h

  archive-defined :
      (model_path : Text) (g : MlirGenerator)
      → All (InRange g.initializers) g.parameter_initializers
      → build_parameter_archive io model_path g ≢ none
  unfolding build_parameter_archive
  archive-defined model_path g h = elim (Bool-cases (is_empty g.parameter_initializers)) [
    | inl e ↦ rw e (λ z. cc)
    | inr e ↦ rw e (elim (Option-cases io.create_source_index) [
      | inr (status, f) ↦ rw f (λ z. cc)
      | inl f ↦ rw f (
          with_source-defined model_path g
            (each_parameter io (add_source io) g.initializers g.parameter_initializers []) h
            (each_parameter-defined (add_source io) g.initializers g.parameter_initializers [] h))
    ])
  ]

  -- After `Generate` the archive reads `initializers_` at no index that is out of range, whatever the
  -- calls of the io library return.
  pub generate-archive_defined :
      (format_e : ℕ → Text) (graph : Graph) (model_path : Text)
      → build_parameter_archive io model_path (generate format_e graph new_generator) ≢ none
  generate-archive_defined format_e graph model_path =
      archive-defined model_path (generate format_e graph new_generator) (
        All-mono
          (λ p refers.
            let (k, init, found, e, large) = refers in
            (
              init,
              rw (generate-initializers format_e graph, e)
                  (ap (λ n. get_elem? graph.initializers n) (omega arith) ∙ found),
            ))
          (generate format_e graph new_generator).parameter_initializers
          (generate-parameters format_e graph).0)
