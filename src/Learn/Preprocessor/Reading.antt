-- ===== src/Learn/Preprocessor/Reading.antt =====
-- Reads of learn/json_preprocessor.go from a reader of finitely many bytes.
use observability_cli.Prelude.{ℕ, ◌≤◌, ◌≡◌, Bool, Option, none, some, List, [], ◌∷◌, ◌++◌, length}
use observability_cli.Net.{Error}
use observability_cli.Learn.Preprocessor.{Reader, strip, StripControlCharactersReader, read_loop}

-- What a reader of the bytes `content s` does: each call takes a chunk from the front, no longer
-- than it was asked for.
pub record Delivers {S : Type 0} (reader : Reader S) : Type 0 where
  pub content : S → List ℕ
  pub content-read :
      (s : S) (n : ℕ) → content s ≡ (reader.read s n).1.0 ++ content (reader.read s n).0
  pub length-read : (s : S) (n : ℕ) → length (reader.read s n).1.0 ≤ n

module _ {S : Type 0} (reader : Reader S) where
  -- Reads into buffers of any sizes, and all that they return.
  unfoldable pub read_all :
      ℕ → StripControlCharactersReader S → List ℕ → Option (StripControlCharactersReader S × List ℕ)
  read_all fuel r [] = some (r, [])
  read_all fuel r (n ∷ sizes) = elim (read_loop reader fuel r n) [
    | none ↦ none
    | some (r', (out, _)) ↦ elim (read_all fuel r' sizes) [
      | none ↦ none
      | some (r'', rest) ↦ some (r'', out ++ rest)
    ]
  ]

module _ {S : Type 0} (reader : Reader S) (source : Delivers reader) where
  open source use {content}

  -- The text that is still to come.
  abbrev pub pending : StripControlCharactersReader S → Bool × List ℕ
  pending r = strip r.has_preceding_backslash (content r.wrapped)

  -- `out` is the next part of the text, and there is room for it.
  pub record Reads (r : StripControlCharactersReader S) (n : ℕ)
      (x : StripControlCharactersReader S × (List ℕ × Error)) : Type 0 where
    pub next_part : pending r ≡ ((pending x.0).0, x.1.0 ++ (pending x.0).1)
    pub fits : length x.1.0 ≤ n
    pub consumes : length (content x.0.wrapped) ≤ length (content r.wrapped)

  -- One call of the wrapped reader.
  abbrev first_read :
      StripControlCharactersReader S → ℕ → StripControlCharactersReader S × (List ℕ × Error)
  first_read r n =
      let (s, (chunk, err)) = reader.read r.wrapped n in
      let (flag, written) = strip r.has_preceding_backslash chunk in
      (record { has_preceding_backslash = flag; wrapped = s }, (written, err))

  abbrev pub Found :
      StripControlCharactersReader S
      → ℕ
      → Option (StripControlCharactersReader S × (List ℕ × Error))
      → Type 0
  Found r n o = (x : StripControlCharactersReader S × (List ℕ × Error)) × (o ≡ some x) × Reads r n x

  -- What has been returned is the front of the stripped text, and what is pending is the rest.
  abbrev pub Front :
      StripControlCharactersReader S → Option (StripControlCharactersReader S × List ℕ) → Type 0
  Front r o =
      (x : StripControlCharactersReader S × List ℕ) × (o ≡ some x)
      × (pending r ≡ ((pending x.0).0, x.1 ++ (pending x.0).1))
