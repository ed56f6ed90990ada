-- ===== src/Learn/Preprocessor.antt =====
-- learn/json_preprocessor.go: a reader that strips control characters. Bytes are numbers.
pub mod Stripping
pub mod Reading
pub mod Examples
use observability_cli.Prelude.{
  ℕ, zero, suc, ◌+◌, ◌-◌, ◌≤◌, ◌≡◌, leb, ltb, nat_beq, Bool, true, false, not, ◌||◌, Option, none,
  some, List, [], ◌∷◌, ◌++◌, length, if◌then◌else◌,
}
use observability_cli.Net.{Error}

-- io.Reader: a call asks for at most so many bytes.
pub record Reader (S : Type 0) : Type 0 where
  pub read : S → ℕ → S × (List ℕ × Error)

abbrev pub backslash : ℕ
backslash = 92

-- The loop over one buffer: the flag `hasPrecedingBackslash` afterwards, and the bytes written.
pub strip : Bool → List ℕ → Bool × List ℕ
strip has_preceding_backslash [] = (has_preceding_backslash, [])
strip has_preceding_backslash (c ∷ cs) =
    let skipped = strip has_preceding_backslash cs in
    let replaced = strip false cs in
    let kept = strip (if nat_beq c backslash then not has_preceding_backslash else false) cs in
    if leb c 31
    then if has_preceding_backslash then (replaced.0, backslash ∷ replaced.1) else skipped
    else (kept.0, c ∷ kept.1)

-- stripControlCharactersReader
pub record StripControlCharactersReader (S : Type 0) : Type 0 where
  pub has_preceding_backslash : Bool
  pub wrapped : S

pub new_strip_control_characters_reader : {S : Type 0} → S → StripControlCharactersReader S
new_strip_control_characters_reader s = record { has_preceding_backslash = false; wrapped = s }

-- After an error, or fewer bytes than there was room for, `Read` does not go on.
abbrev pub stops_reading : List ℕ → Error → ℕ → Bool
stops_reading chunk none remaining = ltb (length chunk) remaining
stops_reading chunk (some _) remaining = true

module _ {S : Type 0} (reader : Reader S) where
  -- The loop of `Read` with room for `remaining` more bytes, on fuel; none when it runs out.
  pub read_loop :
      ℕ
      → StripControlCharactersReader S
      → ℕ
      → Option (StripControlCharactersReader S × (List ℕ × Error))
  unfolding strip
  read_loop zero r remaining = none
  read_loop (suc fuel) r remaining =
      let (s, (chunk, err)) = reader.read r.wrapped remaining in
      let (flag, written) = strip r.has_preceding_backslash chunk in
      let r' : StripControlCharactersReader S = record {
        has_preceding_backslash = flag;
        wrapped = s;
      } in
      let more = read_loop fuel r' (remaining - length written) in
      if nat_beq remaining 0
      then some (r, ([], none))
      else if stops_reading chunk err remaining
      then some (r', (written, err))
      else elim more [
        | none ↦ none
        | some (r'', (rest, err')) ↦ some (r'', (written ++ rest, err'))
      ]
