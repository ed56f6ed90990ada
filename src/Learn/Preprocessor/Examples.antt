-- ===== src/Learn/Preprocessor/Examples.antt =====
-- learn/json_preprocessor.go on a text with an escaped carriage return.
use observability_cli.Prelude.{
  ℕ, sym, none, some, List, [], ◌∷◌, take, drop, length-take, take-append-drop, arith,
}
use observability_cli.Learn.Preprocessor.{Reader}
use observability_cli.Learn.Preprocessor.Reading.{Delivers}

-- "a", a backslash, a carriage return, a line feed, "n"
abbrev text : List ℕ
text = 97 ∷ 92 ∷ 13 ∷ 10 ∷ 110 ∷ []

abbrev in_memory : Reader (List ℕ)
in_memory = record {
  read = λ s n. (drop n s, (take n s, elim s [ [] ↦ some "EOF" | _ ∷ _ ↦ none ]));
}

in_memory-Delivers : Delivers in_memory
in_memory-Delivers = record {
  content = λ s. s;
  content-read = λ s n. sym (take-append-drop n s);
  length-read = λ s n. omega (arith, length-take n s);
}
