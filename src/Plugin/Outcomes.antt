-- ===== src/Plugin/Outcomes.antt =====
-- What Load of cmd/internal/pluginloader returns.
use mathlib.Core.Path.{subst}
use observability_cli.Prelude.{
  ℕ, Option, none, some, List, [], ◌∷◌, ◌++◌, ◌≡◌, ◌≢◌, String, ◌⊎◌, inl, inr, refl, ap, ◌∙◌, sym,
  option_cases, append_assoc, append-nil,
}
use observability_cli.Plugin.{
  Attempt, returned, refused, Errors, AkitaPluginLoader, Symbol, loader_symbol, other_symbol,
  PluginFiles, Round, append, return, call_loader, load_symbol, load_path, with_official, load_loop,
  load, failed_to_load, failed_to_open, failed_to_find, does_not_implement,
}

module _ {E P : Type 0} (files : PluginFiles E P) where
  -- The loader of a path: the precompiled one, or else the symbol of the file.
  pub data LoaderOf (path : String) : AkitaPluginLoader E P → Type 0 where
    precompiled :
        {loader : AkitaPluginLoader E P}
        → files.precompiled_plugins path ≡ some loader
        → LoaderOf path loader
    from_file :
        {loader : AkitaPluginLoader E P} (p : ℕ)
        → files.precompiled_plugins path ≡ none
        → files.open_plugin path ≡ returned p
        → files.lookup p ≡ returned (loader_symbol loader)
        → LoaderOf path loader

  -- A file whose symbol is no loader.
  pub record IsMistyped (path : String) : Type 0 where
    pub handle : ℕ
    pub not_precompiled : files.precompiled_plugins path ≡ none
    pub opened : files.open_plugin path ≡ returned handle
    pub found : files.lookup handle ≡ returned other_symbol

  -- An error: of the loader, of the opening or of the lookup.
  pub data Fails (path : String) : Type 0 where
    loading : (e : E) → LoaderOf path (refused e) → Fails path
    opening :
        (e : E)
        → files.precompiled_plugins path ≡ none
        → files.open_plugin path ≡ refused e
        → Fails path
    finding :
        (p : ℕ) (e : E)
        → files.precompiled_plugins path ≡ none
        → files.open_plugin path ≡ returned p
        → files.lookup p ≡ refused e
        → Fails path

  -- Each path has a loader, and they return these plugins.
  pub data LoadsAll : List String → List P → Type 0 where
    no_paths : LoadsAll [] []
    next_path :
        {path : String} {plug : P} {paths : List String} {plugs : List P}
        → LoaderOf path (returned plug)
        → LoadsAll paths plugs
        → LoadsAll (path ∷ paths) (plug ∷ plugs)

  -- Some paths that load, and then one with `F`.
  pub record First (F : String → Type 0) (paths : List String) : Type 0 where
    pub front : List String
    pub path : String
    pub rest : List String
    pub splits : paths ≡ front ++ path ∷ rest
    pub plugs : List P
    pub loads : LoadsAll front plugs
    pub holds : F path

module _ {E P : Type 0} (files : PluginFiles E P) {F : String → Type 0} {path : String}
    {paths : List String} where
  at_once : F path → First files F (path ∷ paths)
  at_once h = record {
    front = [];
    path = path;
    rest = paths;
    splits = refl;
    plugs = [];
    loads = no_paths;
    holds = h;
  }

  later :
      {plug : P}
      → LoaderOf files path (returned plug)
      → First files F paths
      → First files F (path ∷ paths)
  later {plug = plug} h f = record {
    front = path ∷ f.front;
    path = f.path;
    rest = f.rest;
    splits = ap (◌∷◌ path) f.splits;
    plugs = plug ∷ f.plugs;
    loads = next_path h f.loads;
    holds = f.holds;
  }

module _ {E P : Type 0} (errors : Errors E) (files : PluginFiles E P) where
  -- What a round can be.
  abbrev IsRound : String → Round E P → Type 0
  IsRound path (append plug) = LoaderOf files path (returned plug)
  IsRound path (return none) = IsMistyped files path
  IsRound path (return (some _)) = Fails files path

  return-IsRound :
      (path : String) (e : Option E) → Fails files path → e ≢ none → IsRound path (return e)
  return-IsRound path none f h = absurd (h refl)
  return-IsRound path (some e) f h = f

  call_loader-IsRound :
      (path : String) (loader : AkitaPluginLoader E P)
      → LoaderOf files path loader
      → IsRound path (call_loader errors files path loader)
  unfolding call_loader
  call_loader-IsRound path (returned plug) h = h
  call_loader-IsRound path (refused e) h =
      return-IsRound path _ (loading e h) (errors.wrapf-some e (failed_to_load path))

  load_symbol-IsRound :
      (path : String) (p : ℕ) (symbol : Attempt E (Symbol E P))
      → files.precompiled_plugins path ≡ none
      → files.open_plugin path ≡ returned p
      → files.lookup p ≡ symbol
      → IsRound path (load_symbol errors files path symbol)
  unfolding load_symbol
  load_symbol-IsRound path p (refused e) h o l =
      return-IsRound path _ (finding p e h o l) (errors.wrapf-some e (failed_to_find path))
  load_symbol-IsRound path p (returned (loader_symbol loader)) h o l =
      call_loader-IsRound path loader (from_file p h o l)
  load_symbol-IsRound path p (returned other_symbol) h o l =
      subst (λ e. IsRound path (return e)) (sym (errors.wrapf-none (does_not_implement path)))
        (record { handle = p; not_precompiled = h; opened = o; found = l })

  opened-IsRound :
      (path : String) (opened : Attempt E ℕ)
      → files.precompiled_plugins path ≡ none
      → files.open_plugin path ≡ opened
      → IsRound path (elim opened [
        | refused e ↦ return (errors.wrapf (some e) (failed_to_open path))
        | returned p ↦ load_symbol errors files path (files.lookup p)
      ])
  opened-IsRound path (refused e) h o =
      return-IsRound path _ (opening e h o) (errors.wrapf-some e (failed_to_open path))
  opened-IsRound path (returned p) h o = load_symbol-IsRound path p (files.lookup p) h o refl

  load_path-IsRound : (path : String) → IsRound path (load_path errors files path)
  unfolding load_path
  load_path-IsRound path =
      option_cases (IsRound path) (files.precompiled_plugins path)
        (λ h. opened-IsRound path (files.open_plugin path) h refl)
        (λ loader h. call_loader-IsRound path loader (precompiled h))

  -- The three ways in which the loop can end.
  abbrev Outcome : List P → List String → List P × Option E → Type 0
  Outcome loaded paths result =
      ((plugs : List P) × LoadsAll files paths plugs
        × (result ≡ (with_official errors files (loaded ++ plugs), none)))
      ⊎ (First files (IsMistyped files) paths × (result ≡ ([], none)))
      ⊎ (First files (Fails files) paths × ((e : E) × (result ≡ ([], some e))))

  round-Outcome :
      (loaded : List P) (path : String) (paths : List String) (round : Round E P)
      → IsRound path round
      → ((now : List P) → Outcome now paths (load_loop errors files now paths))
      → Outcome loaded (path ∷ paths) (elim round [
        | append plug ↦ load_loop errors files (loaded ++ plug ∷ []) paths
        | return e ↦ ([], e)
      ])
  round-Outcome loaded path paths (append plug) h ih = elim (ih (loaded ++ plug ∷ [])) [
    | inl (plugs, l, e) ↦ inl (
      plug ∷ plugs,
      next_path h l,
      e ∙ ap (λ ps. (with_official errors files ps, none)) (append_assoc loaded (plug ∷ []) plugs),
    )
    | inr (inl (f, e)) ↦ inr (inl (later files h f, e))
    | inr (inr (f, e)) ↦ inr (inr (later files h f, e))
  ]
  round-Outcome loaded path paths (return none) h ih = inr (inl (at_once files h, refl))
  round-Outcome loaded path paths (return (some e)) h ih = inr (inr (at_once files h, (e, refl)))

  load_loop-Outcome :
      (loaded : List P) (paths : List String)
      → Outcome loaded paths (load_loop errors files loaded paths)
  unfolding load_loop
  load_loop-Outcome loaded [] =
      inl ([], no_paths, ap (λ ps. (with_official errors files ps, none)) (sym (append-nil loaded)))
  load_loop-Outcome loaded (path ∷ paths) =
      round-Outcome loaded path paths (load_path errors files path) (load_path-IsRound path)
        (λ now. load_loop-Outcome now paths)

  -- If every path has a loader that returns, Load returns their plugins in order, then the official
  -- one, if there is one, and no error. Otherwise the first path with which that is not so decides:
  -- if its file has a symbol that is no loader, Load returns no plugins and no error; if its loader,
  -- the opening or the lookup fails, it returns no plugins and an error.
  pub load_outcome :
      (paths : List String)
      → ((plugs : List P) × LoadsAll files paths plugs
          × (load errors files paths ≡ (with_official errors files plugs, none)))
        ⊎ (First files (IsMistyped files) paths × (load errors files paths ≡ ([], none)))
        ⊎ (First files (Fails files) paths × ((e : E) × (load errors files paths ≡ ([], some e))))
  unfolding load
  load_outcome paths = load_loop-Outcome [] paths
