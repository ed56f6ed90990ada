-- ===== src/Plugin.antt =====
-- plugin/interface.go and cmd/internal/pluginloader: the plugins that a command loads.
pub mod Outcomes
pub mod Examples
use observability_cli.Prelude.{ℕ, Option, none, some, List, [], ◌∷◌, ◌++◌, ◌≡◌, ◌≢◌, String}

-- What a call returns that returns a value or an error.
pub data Attempt (E : Type 0) (A : Type 0) : Type 0 where
  returned : A → Attempt E A
  refused : E → Attempt E A

-- The messages that errors are wrapped with, each with the path.
pub data Message : Type 0 where
  failed_to_load failed_to_open failed_to_find does_not_implement : String → Message

-- The library github.com/pkg/errors: Wrapf of nil is nil, and of an error an error.
pub record Errors (E : Type 0) : Type 0 where
  pub wrapf : Option E → Message → Option E
  pub wrapf-none : (message : Message) → wrapf none message ≡ none
  pub wrapf-some : (e : E) (message : Message) → wrapf (some e) message ≢ none

-- AkitaPluginLoader: what the call of the loader returns.
abbrev pub AkitaPluginLoader : Type 0 → Type 0 → Type 0
AkitaPluginLoader E P = Attempt E P

-- A symbol of a plugin's file: a loader, or of another type.
pub data Symbol (E : Type 0) (P : Type 0) : Type 0 where
  loader_symbol : AkitaPluginLoader E P → Symbol E P
  other_symbol : Symbol E P

-- What Load reads: PrecompiledPlugins, what Go's package `plugin` does with a path (Open, then
-- Lookup of LoadAkitaPlugin), and OfficialPlugin.
pub record PluginFiles (E : Type 0) (P : Type 0) : Type 0 where
  pub precompiled_plugins : String → Option (AkitaPluginLoader E P)
  pub open_plugin : String → Attempt E ℕ
  pub lookup : ℕ → Attempt E (Symbol E P)
  pub official_plugin : Option P

-- A round of Load's loop: a plugin is appended, or Load returns no plugins with an error or nil.
pub data Round (E : Type 0) (P : Type 0) : Type 0 where
  append : P → Round E P
  return : Option E → Round E P

module _ {E P : Type 0} (errors : Errors E) (files : PluginFiles E P) where
  open errors use {wrapf}

  unfoldable pub call_loader : String → AkitaPluginLoader E P → Round E P
  call_loader path (returned plug) = append plug
  call_loader path (refused e) = return (wrapf (some e) (failed_to_load path))

  -- Since the lookup has succeeded, what is wrapped for a symbol of another type is nil.
  unfoldable pub load_symbol : String → Attempt E (Symbol E P) → Round E P
  load_symbol path (refused e) = return (wrapf (some e) (failed_to_find path))
  load_symbol path (returned (loader_symbol loader)) = call_loader path loader
  load_symbol path (returned other_symbol) = return (wrapf none (does_not_implement path))

  unfoldable pub load_path : String → Round E P
  load_path path = elim (files.precompiled_plugins path) [
    | some loader ↦ call_loader path loader
    | none ↦ elim (files.open_plugin path) [
      | refused e ↦ return (wrapf (some e) (failed_to_open path))
      | returned p ↦ load_symbol path (files.lookup p)
    ]
  ]

  abbrev pub with_official : List P → List P
  with_official loaded = elim files.official_plugin [
    | none ↦ loaded
    | some plug ↦ loaded ++ plug ∷ []
  ]

  -- The loop, with what is loaded so far.
  unfoldable pub load_loop : List P → List String → List P × Option E
  load_loop loaded [] = (with_official loaded, none)
  load_loop loaded (path ∷ paths) = elim (load_path path) [
    | append plug ↦ load_loop (loaded ++ plug ∷ []) paths
    | return e ↦ ([], e)
  ]

  unfoldable pub load : List String → List P × Option E
  load paths = load_loop [] paths
