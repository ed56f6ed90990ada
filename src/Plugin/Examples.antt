-- ===== src/Plugin/Examples.antt =====
-- A command with two plugins, of which the second one's file exports something else.
use observability_cli.Prelude.{
  ℕ, Option, none, some, List, [], ◌∷◌, ◌≡◌, refl, String, string_eq, ◌==◌, ◌⊎◌, if◌then◌else◌,
}
use observability_cli.Plugin.{
  returned, Errors, other_symbol, PluginFiles, call_loader, load_symbol, load_path, load_loop, load,
  Message, with_official,
}
use observability_cli.Plugin.Outcomes.{LoadsAll, IsMistyped, Fails, First, load_outcome}

abbrev wrap : Option ℕ → Message → Option ℕ
wrap none _ = none
wrap (some e) _ = some e

abbrev numbered : Errors ℕ
numbered = record { wrapf = wrap; wrapf-none = λ _. refl; wrapf-some = λ e _ h. cc }

-- "flickr" is precompiled; every file opens and has a symbol of another type.
abbrev files : PluginFiles ℕ String
files = record {
  precompiled_plugins = λ path. if path == "flickr" then some (returned "Flickr") else none;
  open_plugin = λ _. returned 1;
  lookup = λ _. returned other_symbol;
  official_plugin = none;
}

abbrev two_paths : List String
two_paths = "flickr" ∷ "odd.so" ∷ []

-- No plugins, and no error.
load_runs : load numbered files two_paths ≡ ([], none)
unfolding load load_loop load_path load_symbol call_loader
load_runs = refl

load_outcome_example :
    ((plugs : List String) × LoadsAll files two_paths plugs
      × (load numbered files two_paths ≡ (with_official numbered files plugs, none)))
    ⊎ (First files (IsMistyped files) two_paths × (load numbered files two_paths ≡ ([], none)))
    ⊎ (First files (Fails files) two_paths
        × ((e : ℕ) × (load numbered files two_paths ≡ ([], some e))))
load_outcome_example = load_outcome numbered files two_paths
