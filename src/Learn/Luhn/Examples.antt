-- ===== src/Learn/Luhn/Examples.antt =====
-- learn/luhn.go on card numbers for tests.
use observability_cli.Prelude.{ℕ, ◌≡◌, true, List, [], ◌∷◌, ◌++◌}
use observability_cli.Learn.Luhn.{valid_luhn}
use observability_cli.Learn.Luhn.Checksum.{valid_luhn-checksum}

-- 4111111111 111, and then 111 or another digit in place of the first.
abbrev front : List ℕ
front = 52 ∷ 49 ∷ 49 ∷ 49 ∷ 49 ∷ 49 ∷ 49 ∷ 49 ∷ 49 ∷ 49 ∷ 49 ∷ 49 ∷ 49 ∷ []

abbrev back : List ℕ
back = 49 ∷ 49 ∷ []

valid_luhn-checksum_example : valid_luhn (front ++ 49 ∷ back) ≡ true
valid_luhn-checksum_example = valid_luhn-checksum (front ++ 49 ∷ back)
