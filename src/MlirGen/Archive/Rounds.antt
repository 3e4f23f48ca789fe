-- ===== src/MlirGen/Archive/Rounds.antt =====
-- What the rounds of the two loops add to the keys of an index.
use mathlib.Core.List.{List, [], ◌∷◌, ◌++◌, map, append_assoc, append-nil, map-append}
use mathlib.Core.Option.{Option, none, some}
use onnxruntime_ep_iree.Common.{
  ℕ, ◌≡◌, refl, sym, ap, ◌∙◌, inl, inr, Bool, true, false, if◌then◌else◌, Text, get_elem?,
  Option-cases, Bool-cases, In, subst,
}
use onnxruntime_ep_iree.Wrappers.{Result, ok, err}
use onnxruntime_ep_iree.MlirGen.Graph.{
  External, external_error, in_memory, external_file, Initializer,
}
use onnxruntime_ep_iree.MlirGen.Generator.{ParameterInitializer}
use onnxruntime_ep_iree.Common.Paths.{append_path, parent_path}
use onnxruntime_ep_iree.MlirGen.Archive.{
  Entry, Io, add_entry, add_data, each_parameter, add_source_of, add_external_of,
}

abbrev pub keys : List Entry → List Text
keys index = map (λ e. e.key) index

abbrev pub is_in_memory : External → Bool
is_in_memory in_memory = true
is_in_memory _ = false

abbrev pub is_external : External → Bool
is_external (external_file info) = true
is_external _ = false

-- The names of those parameters whose initializer passes a test.
unfoldable pub names_where :
    (External → Bool) → List Initializer → List ParameterInitializer → List Text
names_where sel inits [] = []
names_where sel inits (p ∷ ps) =
    let rest = names_where sel inits ps in
    elim (get_elem? inits p.initializer_index) [
      | none ↦ rest
      | some init ↦ (if sel init.external then p.sanitized_name ∷ [] else []) ++ rest
    ]

-- A round that succeeds adds the name of its parameter if the initializer passes the test.
abbrev pub Adds :
    (External → Bool)
    → (ParameterInitializer → Initializer → List Entry → Result (List Entry))
    → Type 0
Adds sel add =
    (p : ParameterInitializer) (init : Initializer) (index next : List Entry)
    → add p init index ≡ ok next
    → keys next ≡ keys index ++ (if sel init.external then p.sanitized_name ∷ [] else [])

module _ (io : Io) where
  add_entry-keys :
      (index next : List Entry) (e : Entry)
      → add_entry io index e ≡ ok next
      → keys next ≡ keys index ++ e.key ∷ []
  unfolding add_entry
  add_entry-keys index next e = elim (Option-cases (io.index_add index e)) [
    | inl none_ ↦ rw none_ (λ h.
        ap (λ r. elim r [ ok i ↦ keys i | err s ↦ [] ]) (sym h)
        ∙ map-append (λ (x : Entry). x.key) index (e ∷ []))
    | inr (status, e2) ↦ rw e2 (λ h. cc)
  ]

  -- One round, from what its result `r` adds and what the rounds behind it add.
  round-keys :
      (added rest : List Text) (index next : List Entry) (r : Result (List Entry))
      (more : List Entry → Option (Result (List Entry)))
      → ((mid : List Entry) → r ≡ ok mid → keys mid ≡ keys index ++ added)
      → ((mid : List Entry) → more mid ≡ some (ok next) → keys next ≡ keys mid ++ rest)
      → elim r [ err status ↦ some (err status) | ok mid ↦ more mid ] ≡ some (ok next)
      → keys next ≡ keys index ++ (added ++ rest)
  round-keys added rest index next (err status) more one behind h = cc
  round-keys added rest index next (ok mid) more one behind h =
      behind mid h ∙ ap (λ t. t ++ rest) (one mid refl) ∙ append_assoc (keys index) added rest

  pub each_parameter-keys :
      (sel : External → Bool)
      (add : ParameterInitializer → Initializer → List Entry → Result (List Entry))
      → Adds sel add
      → (inits : List Initializer) (ps : List ParameterInitializer) (index next : List Entry)
      → each_parameter io add inits ps index ≡ some (ok next)
      → keys next ≡ keys index ++ names_where sel inits ps
  unfolding each_parameter names_where
  each_parameter-keys sel add adds inits [] index next = λ h.
      ap (λ o. elim o [ some r ↦ elim r [ ok i ↦ keys i | err s ↦ [] ] | none ↦ [] ]) (sym h)
      ∙ sym (append-nil (keys index))
  each_parameter-keys sel add adds inits (p ∷ ps) index next =
      elim (Option-cases (get_elem? inits p.initializer_index)) [
        | inl out ↦ rw (out, each_parameter) (λ h. cc)
        | inr (init, e) ↦
            rw (e, each_parameter, names_where)
              (round-keys (if sel init.external then p.sanitized_name ∷ [] else [])
                (names_where sel inits ps) index next (add p init index)
                (each_parameter io add inits ps) (adds p init index)
                (λ mid. each_parameter-keys sel add adds inits ps mid next))
      ]

  add_data-keys :
      (p : ParameterInitializer) (init : Initializer) (index next : List Entry)
      (o : Option (List ℕ))
      → add_data io p init index o ≡ ok next
      → keys next ≡ keys index ++ p.sanitized_name ∷ []
  unfolding add_data
  add_data-keys p init index next none = λ h. cc
  add_data-keys p init index next (some bytes) =
      elim (Option-cases (io.wrap_host_allocation bytes)) [
        | inl e ↦ rw e (add_entry-keys index next _)
        | inr (status, e) ↦ rw e (λ h. cc)
      ]

  unchanged :
      (index next : List Entry)
      → ◌≡◌ {A = Result (List Entry)} (ok index) (ok next)
      → keys next ≡ keys index ++ []
  unchanged index next h =
      ap (λ r. elim r [ ok i ↦ keys i | err s ↦ [] ]) (sym h) ∙ sym (append-nil (keys index))

  pub add_source_of-keys :
      (p : ParameterInitializer) (init : Initializer) (index next : List Entry) (x : External)
      → add_source_of io p init index x ≡ ok next
      → keys next ≡ keys index ++ (if is_in_memory x then p.sanitized_name ∷ [] else [])
  unfolding add_source_of
  add_source_of-keys p init index next in_memory = add_data-keys p init index next init.value
  add_source_of-keys p init index next (external_error status) = λ h. cc
  add_source_of-keys p init index next (external_file info) = unchanged index next

  pub add_external_of-keys :
      (model_path : Text) (p : ParameterInitializer) (index next : List Entry) (x : External)
      → add_external_of io model_path p index x ≡ ok next
      → keys next ≡ keys index ++ (if is_external x then p.sanitized_name ∷ [] else [])
  unfolding add_external_of
  add_external_of-keys model_path p index next in_memory = unchanged index next
  add_external_of-keys model_path p index next (external_error status) = λ h. cc
  add_external_of-keys model_path p index next (external_file info) =
      elim (Option-cases (io.open_file (append_path (parent_path model_path) info.file_path))) [
        | inl e ↦ rw e (add_entry-keys index next _)
        | inr (status, e) ↦ rw e (λ h. cc)
      ]

pub In-names_where :
    (sel : External → Bool) (inits : List Initializer) (ps : List ParameterInitializer)
    (p : ParameterInitializer) (init : Initializer)
    → get_elem? inits p.initializer_index ≡ some init
    → sel init.external ≡ true
    → In p ps
    → In p.sanitized_name (names_where sel inits ps)
unfolding names_where
In-names_where sel inits [] p init found picked m = m
In-names_where sel inits (q ∷ ps) p init found picked (inl e) =
    subst (λ r. In p.sanitized_name (names_where sel inits (r ∷ ps))) e
      (rw (found, names_where, picked) (inl refl))
In-names_where sel inits (q ∷ ps) p init found picked (inr m) =
    let ih = In-names_where sel inits ps p init found picked m in
    elim (Option-cases (get_elem? inits q.initializer_index)) [
      | inl out ↦ rw (out, names_where) ih
      | inr (other, e) ↦
          rw (e, names_where)
            (elim (Bool-cases (sel other.external)) [ inl e2 ↦ rw e2 (inr ih) | inr e2 ↦ rw e2 ih ])
    ]
