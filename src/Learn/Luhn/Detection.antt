-- ===== src/Learn/Luhn/Detection.antt =====
-- Which mistakes in a number the check of learn/luhn.go finds.
use observability_cli.Prelude.{
  ℕ, ◌+◌, ◌-◌, ◌%◌, ◌≡◌, ◌≢◌, sym, ◌∙◌, ap, Bool, true, false, not, List, [], ◌∷◌, ◌++◌, reverse,
  append_assoc, if◌then◌else◌, all, arith,
}
use mathlib.Core.List.{reverse-append, reverse-cons}
use observability_cli.Learn.Luhn.{valid_luhn}
use observability_cli.Learn.Luhn.Checksum.{is_digit, doubled, checksum, valid_luhn-checksum}

-- What one digit adds.
abbrev share : Bool → ℕ → ℕ
share b c = if b then doubled (c - 48) else c - 48

abbrev after : Bool → List ℕ → Bool
after b [] = b
after b (c ∷ cs) = after (not b) cs

checksum-append :
    (b : Bool) (cs ds : List ℕ) → checksum b (cs ++ ds) ≡ checksum b cs + checksum (after b cs) ds
checksum-append b [] ds = omega arith
checksum-append b (c ∷ cs) ds = ground (arith, checksum-append (not b) cs ds)

share-injective :
    (b : Bool) (c d rest : ℕ)
    → is_digit c ≡ true
    → is_digit d ≡ true
    → (share b c + rest) % 10 ≡ 0
    → (share b d + rest) % 10 ≡ 0
    → c ≡ d
share-injective b c d rest h k p q = ground arith

-- What the digits around one digit add, and whether it is doubled.
abbrev around : List ℕ → List ℕ → ℕ
around xs ys = checksum false (reverse ys) + checksum (not (after false (reverse ys))) (reverse xs)

checksum-around :
    (xs ys : List ℕ) (c : ℕ)
    → checksum false (reverse (xs ++ c ∷ ys)) ≡ share (after false (reverse ys)) c + around xs ys
checksum-around xs ys c =
    ap (checksum false) (
      reverse-append xs (c ∷ ys)
      ∙ ap (λ l. l ++ reverse xs) (reverse-cons c ys)
      ∙ append_assoc (reverse ys) (c ∷ []) (reverse xs))
    ∙ checksum-append false (reverse ys) (c ∷ reverse xs)
    ∙ omega arith

all-middle : (xs ys : List ℕ) (c : ℕ) → all is_digit (xs ++ c ∷ ys) ≡ true → is_digit c ≡ true
all-middle [] ys c h = ground arith
all-middle (x ∷ xs) ys c h = ground (arith, all-middle xs ys c)

valid-parts :
    (cs : List ℕ)
    → valid_luhn cs ≡ true
    → (all is_digit cs ≡ true) × (checksum false (reverse cs) % 10 ≡ 0)
valid-parts cs h = ground (arith, valid_luhn-checksum cs)

same_digit :
    (xs ys : List ℕ) (c d : ℕ)
    → valid_luhn (xs ++ c ∷ ys) ≡ true
    → valid_luhn (xs ++ d ∷ ys) ≡ true
    → c ≡ d
same_digit xs ys c d h k =
    let (digits_c, sum_c) = valid-parts (xs ++ c ∷ ys) h in
    let (digits_d, sum_d) = valid-parts (xs ++ d ∷ ys) k in
    share-injective (after false (reverse ys)) c d (around xs ys) (all-middle xs ys c digits_c)
      (all-middle xs ys d digits_d) (ap (λ n. n % 10) (sym (checksum-around xs ys c)) ∙ sum_c)
      (ap (λ n. n % 10) (sym (checksum-around xs ys d)) ∙ sum_d)

-- A number that is accepted is not accepted any more with one character changed to any other.
pub valid_luhn-one_digit :
    (xs ys : List ℕ) (c d : ℕ)
    → valid_luhn (xs ++ c ∷ ys) ≡ true
    → c ≢ d
    → valid_luhn (xs ++ d ∷ ys) ≡ false
valid_luhn-one_digit xs ys c d h n =
    ground (arith, λ (k : valid_luhn (xs ++ d ∷ ys) ≡ true). same_digit xs ys c d h k)
