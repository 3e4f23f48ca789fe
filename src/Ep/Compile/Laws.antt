-- ===== src/Ep/Compile/Laws.antt =====
-- When `CompileImpl` succeeds, and the name of the function that it looks up.
use mathlib.Core.Option
use mathlib.Core.Option.{some-injective}
use onnxruntime_ep_iree.Common.{
  ℕ, ◌≡◌, ◌≢◌, ◌↔◌, refl, ap, inl, inr, ◌⊎◌, Bool, true, false, List, [], ◌∷◌, ◌++◌, Option, none,
  some, if◌then◌else◌, Text, codes, is_empty, subst,
}
use onnxruntime_ep_iree.Wrappers.{Status, Result, ok, err}
use onnxruntime_ep_iree.Ep.Config.{Config, generate_compile_flags}
use onnxruntime_ep_iree.MlirGen.Graph.{Graph}
use onnxruntime_ep_iree.MlirGen.Names.{sanitize_name}
use onnxruntime_ep_iree.MlirGen.Names.Laws.{sanitize_name-ne}
use onnxruntime_ep_iree.MlirGen.Generator.{collect_metadata, new_generator}
use onnxruntime_ep_iree.MlirGen.Archive.{Entry, Io, generate_mlir}
use onnxruntime_ep_iree.Ep.Compile.{
  Compiler, NodeComputeInfo, first_error, function_name, compile_to_vmfb, register_parameters, load,
  lookup, after_mlir, compile,
}

-- The name under which `Generate` writes the function, in its module.
abbrev pub emitted_name : Graph → Text
emitted_name graph = codes "module." ++ (collect_metadata graph new_generator).graph_name

-- The name that `CompileImpl` looks up in the module.
abbrev pub looked_up : Graph → Text
looked_up graph = if is_empty graph.name then codes "main" else graph.name

names-agree :
    (s : Text)
    → (codes "module." ++ (if is_empty s then codes "main" else s)
        ≡ codes "module." ++ (if is_empty (sanitize_name s) then codes "main" else sanitize_name s))
      ↔ (sanitize_name s ≡ s)
names-agree [] = unfold sanitize_name in (λ h. cc, λ h. cc)
names-agree (c ∷ s) = rw (sanitize_name-ne (c ∷ s)) (λ h. cc, λ h. cc)

-- `CompileImpl` looks up the function under the name that it was written with exactly if sanitizing
-- keeps the name of the graph. For a graph with no name it does not.
pub function_name-emitted_name :
    (graph : Graph)
    → (function_name graph ≡ emitted_name graph) ↔ (sanitize_name graph.name ≡ graph.name)
unfolding function_name collect_metadata
function_name-emitted_name graph = names-agree graph.name

module _ (c : Compiler) (io : Io) (format_e : ℕ → Text) where
  lookup-ok :
      (graph : Graph) (parameters : Option (List Entry)) (o : Option Status) (r : Result ℕ)
      (info : NodeComputeInfo)
      → lookup c io format_e graph parameters o r ≡ ok info
      → (o ≡ none) × (r ≡ ok info.function) × (parameters ≡ info.parameters)
  unfolding lookup
  lookup-ok graph parameters (some status) r info h = cc
  lookup-ok graph parameters none (err status) info h = cc
  lookup-ok graph parameters none (ok f) info h = (refl, cc, cc)

  pub both_fine : (a b : Option Status) → first_error a b ≡ none → (a ≡ none) × (b ≡ none)
  both_fine none b h = (refl, h)
  both_fine (some status) b h = cc

  -- What `CompileImpl` needs to succeed, behind the generation of the MLIR.
  pub record Compiles (config : Config) (vmfb_path mlir_path : Text) (graph : Graph)
      (info : NodeComputeInfo) : Type 0 where
    pub compiled :
        compile_to_vmfb c io format_e mlir_path vmfb_path (generate_compile_flags config) ≡ none
    pub session : c.create_session ≡ none
    pub registered : register_parameters c io format_e info.parameters ≡ none
    pub loaded : c.append_bytecode_module vmfb_path ≡ none
    pub found : c.lookup_function (function_name graph) ≡ ok info.function

  after_mlir-Compiles :
      (config : Config) (mlir_path vmfb_path : Text) (graph : Graph)
      (r : Result (Option (List Entry))) (info : NodeComputeInfo)
      → after_mlir c io format_e config mlir_path vmfb_path graph r ≡ ok info
      → (r ≡ ok info.parameters) × Compiles config vmfb_path mlir_path graph info
  unfolding after_mlir load
  after_mlir-Compiles config mlir_path vmfb_path graph (err status) info h = cc
  after_mlir-Compiles config mlir_path vmfb_path graph (ok parameters) info h =
      let (fine, found, same) =
        lookup-ok graph parameters _ (c.lookup_function (function_name graph)) info h in
      let (compiled, rest) = both_fine _ _ fine in
      let (session, more) = both_fine _ _ rest in
      let (registered, loaded) = both_fine _ _ more in
      (
        ap ok same,
        record {
          compiled = compiled;
          session = session;
          registered = subst (λ p. register_parameters c io format_e p ≡ none) same registered;
          loaded = loaded;
          found = found;
        },
      )

  mapped-Compiles :
      (config : Config) (mlir_path vmfb_path : Text) (graph : Graph)
      (o : Option (Result (Option (List Entry)))) (info : NodeComputeInfo)
      → Option.map (after_mlir c io format_e config mlir_path vmfb_path graph) o ≡ some (ok info)
      → (o ≡ some (ok info.parameters)) × Compiles config vmfb_path mlir_path graph info
  mapped-Compiles config mlir_path vmfb_path graph none info h = cc
  mapped-Compiles config mlir_path vmfb_path graph (some r) info h =
      let (e, compiles) =
        after_mlir-Compiles config mlir_path vmfb_path graph r info (some-injective _ _ h) in
      (ap some e, compiles)

  pub compile-Compiles :
      (config : Config) (mlir_path vmfb_path : Text) (opened written : Bool) (graph : Graph)
      (graphs : List Graph) (info : NodeComputeInfo)
      → compile c io format_e config mlir_path vmfb_path opened written (graph ∷ graphs)
        ≡ some (ok info)
      → ((generate_mlir io format_e opened written mlir_path graph).1 ≡ some (ok info.parameters))
        × Compiles config vmfb_path mlir_path graph info
  unfolding compile
  compile-Compiles config mlir_path vmfb_path opened written graph graphs info h =
      mapped-Compiles config mlir_path vmfb_path graph _ info h

  pub Compiles-compile :
      (config : Config) (mlir_path vmfb_path : Text) (opened written : Bool) (graph : Graph)
      (graphs : List Graph) (info : NodeComputeInfo)
      → (generate_mlir io format_e opened written mlir_path graph).1 ≡ some (ok info.parameters)
      → Compiles config vmfb_path mlir_path graph info
      → compile c io format_e config mlir_path vmfb_path opened written (graph ∷ graphs)
        ≡ some (ok info)
  unfolding compile after_mlir load lookup
  Compiles-compile config mlir_path vmfb_path opened written graph graphs info e h =
      rw (e, h.compiled, h.session, h.registered, h.loaded, h.found)

  -- The compiled module is the one named `module`. If the functions that the session finds in it are
  -- the one that `Generate` wrote and others that the compiler generated, and the name that
  -- `CompileImpl` looks up is not one of those, the compilation of a graph whose name is changed by
  -- sanitizing never succeeds.
  pub compile_renamed :
      (config : Config) (mlir_path vmfb_path : Text) (opened written : Bool) (graph : Graph)
      (graphs : List Graph) (info : NodeComputeInfo) (is_generated : Text → Bool)
      → ((name : Text) (f : ℕ)
          → c.lookup_function (codes "module." ++ name) ≡ ok f
          → (name ≡ (collect_metadata graph new_generator).graph_name) ⊎ (is_generated name ≡ true))
      → is_generated (looked_up graph) ≡ false
      → sanitize_name graph.name ≢ graph.name
      → compile c io format_e config mlir_path vmfb_path opened written (graph ∷ graphs)
        ≢ some (ok info)
  unfolding function_name
  compile_renamed config mlir_path vmfb_path opened written graph graphs info is_generated exports
        own changed h =
      let (e, compiles) =
        compile-Compiles config mlir_path vmfb_path opened written graph graphs info h in
      elim (exports (looked_up graph) info.function compiles.found) [
        | inl same ↦
            changed ((function_name-emitted_name graph).0 (ap (◌++◌ (codes "module.")) same))
        | inr generated ↦ cc
      ]
