-- ===== src/MlirGen/Archive/Keys.antt =====
-- The keys of the archive.
use mathlib.Core.List.{List, [], ◌∷◌, ◌++◌}
use mathlib.Core.Option.{Option, none, some, some-injective}
use onnxruntime_ep_iree.Common.{
  ◌≡◌, refl, sym, ap, ◌∙◌, inl, inr, true, false, arith, ltb, Text, length, is_empty, Option-cases,
}
use onnxruntime_ep_iree.Wrappers.{Status, Result, ok, err}
use onnxruntime_ep_iree.MlirGen.Generator.{MlirGenerator}
use onnxruntime_ep_iree.MlirGen.Archive.Rounds.{
  keys, is_in_memory, is_external, names_where, each_parameter-keys, add_source_of-keys,
  add_external_of-keys,
}
use onnxruntime_ep_iree.MlirGen.Archive.{
  Entry, Io, check, add_source, add_external, each_parameter, write_archive, provide, add_externals,
  with_source, build_parameter_archive,
}

-- The names in memory, and then the external ones.
abbrev pub archive_names : MlirGenerator → List Text
archive_names g =
    names_where is_in_memory g.initializers g.parameter_initializers
    ++ names_where is_external g.initializers g.parameter_initializers

-- The call ends with a target index that has these keys.
abbrev pub Provides : List Text → Option (List Entry) → Type 0
Provides names out = (target : List Entry) × (out ≡ some target) × (keys target ≡ names)

module _ (io : Io) where
  -- The archive is built with the keys that it is given.
  abbrev pub Preserves : Type 0
  Preserves =
      (source target : List Entry) → io.build_archive source ≡ ok target → keys target ≡ keys source

  module _ (preserves : Preserves) where
    write_archive-keys :
        (source target : List Entry)
        → write_archive io source ≡ ok target
        → keys target ≡ keys source
    unfolding write_archive
    write_archive-keys [] target = λ h. ap (λ r. elim r [ ok i ↦ keys i | err s ↦ [] ]) (sym h)
    write_archive-keys (e ∷ source) target =
        let some_there : ltb 0 (length (e ∷ source)) ≡ true = ground arith in
        rw (some_there, write_archive) (preserves (e ∷ source) target)

    provide-Provides :
        (names : List Text) (r : Result (List Entry)) (out : Option (List Entry))
        → ((mid : List Entry) → r ≡ ok mid → keys mid ≡ names)
        → provide io r ≡ ok out
        → Provides names out
    unfolding provide
    provide-Provides names (err status) out known = λ h. cc
    provide-Provides names (ok target) out known = elim (Option-cases (io.create_provider target)) [
      | inl e ↦ rw e (λ h. (target, cc, known target refl))
      | inr (status, e) ↦ rw e (λ h. cc)
    ]

    externals-Provides :
        (names : List Text) (o : Option (Result (List Entry))) (out : Option (List Entry))
        → ((mid : List Entry) → o ≡ some (ok mid) → keys mid ≡ names)
        → elim o [ none ↦ none | some r ↦ some (provide io r) ] ≡ some (ok out)
        → Provides names out
    externals-Provides names none out known h = cc
    externals-Provides names (some r) out known h =
        provide-Provides names r out (λ mid e. known mid (ap some e)) (some-injective _ _ h)

    add_externals-Provides :
        (model_path : Text) (g : MlirGenerator) (r : Result (List Entry))
        (out : Option (List Entry)) (names : List Text)
        → ((mid : List Entry) → r ≡ ok mid → keys mid ≡ names)
        → add_externals io model_path g r ≡ some (ok out)
        → Provides (names ++ names_where is_external g.initializers g.parameter_initializers) out
    unfolding add_externals
    add_externals-Provides model_path g (err status) out names start h = cc
    add_externals-Provides model_path g (ok index) out names start h =
        externals-Provides
          (names ++ names_where is_external g.initializers g.parameter_initializers)
          (each_parameter io (add_external io model_path) g.initializers g.parameter_initializers
            index)
          out
          (λ mid e.
            each_parameter-keys io is_external (add_external io model_path)
              (λ p init i next.
                unfold add_external in add_external_of-keys io model_path p i next init.external)
              g.initializers g.parameter_initializers index mid e
            ∙ ap (λ t. t ++ names_where is_external g.initializers g.parameter_initializers)
                (start index refl))
          h

    checked-keys :
        (o : Option Status) (source mid : List Entry) (names : List Text)
        → keys source ≡ names
        → check o (write_archive io source) ≡ ok mid
        → keys mid ≡ names
    checked-keys none source mid names e h = write_archive-keys source mid h ∙ e
    checked-keys (some status) source mid names e h = cc

    with_source-Provides :
        (model_path : Text) (g : MlirGenerator) (o : Option (Result (List Entry)))
        (out : Option (List Entry)) (names : List Text)
        → ((mid : List Entry) → o ≡ some (ok mid) → keys mid ≡ names)
        → with_source io model_path g o ≡ some (ok out)
        → Provides (names ++ names_where is_external g.initializers g.parameter_initializers) out
    unfolding with_source
    with_source-Provides model_path g none out names start h = cc
    with_source-Provides model_path g (some (err status)) out names start h = cc
    with_source-Provides model_path g (some (ok source)) out names start h =
        add_externals-Provides model_path g (check io.create_target_index (write_archive io source))
          out names
          (λ mid e. checked-keys io.create_target_index source mid names (start source refl) e) h

    -- Where the archive is built with the keys that it is given, a call with parameters that succeeds
    -- leaves an index whose keys are the names of the parameters in memory and then those of the
    -- external ones, in order.
    pub build_parameter_archive-keys :
        (model_path : Text) (g : MlirGenerator) (out : Option (List Entry))
        → is_empty g.parameter_initializers ≡ false
        → build_parameter_archive io model_path g ≡ some (ok out)
        → Provides (archive_names g) out
    unfolding build_parameter_archive
    build_parameter_archive-keys model_path g out ne =
        rw ne (elim (Option-cases io.create_source_index) [
          | inr (status, f) ↦ rw f (λ h. cc)
          | inl f ↦ rw f (
              with_source-Provides model_path g
                (each_parameter io (add_source io) g.initializers g.parameter_initializers []) out
                (names_where is_in_memory g.initializers g.parameter_initializers)
                (each_parameter-keys io is_in_memory (add_source io)
                  (λ p init i next.
                    unfold add_source in add_source_of-keys io p init i next init.external)
                  g.initializers g.parameter_initializers []))
        ])
