-- ===== src/Learn/Luhn.antt =====
-- learn/luhn.go: the check digit of card numbers. A Go string is the list of its runes; a byte that
-- is no valid UTF-8 ranges as the rune 0xFFFD.
pub mod Checksum
pub mod Detection
pub mod Examples
use observability_cli.Prelude.{
  ℕ, zero, suc, ◌+◌, ◌-◌, ◌*◌, ◌%◌, ltb, nat_beq, Bool, true, false, ◌||◌, Option, none, some, List,
  [], ◌∷◌, if◌then◌else◌,
}

-- How many bytes a rune takes in UTF-8.
pub rune_len : ℕ → ℕ
rune_len c = if ltb c 128 then 1 else if ltb c 2_048 then 2 else if ltb c 65_536 then 3 else 4

-- len(number)
pub byte_length : List ℕ → ℕ
unfolding rune_len
byte_length [] = 0
byte_length (c ∷ number) = rune_len c + byte_length number

-- The value of a digit in the sum.
pub digit_value : ℕ → ℕ → ℕ → ℕ
digit_value parity i d =
    if nat_beq (i % 2) parity then if ltb 9 (d * 2) then d * 2 - 9 else d * 2 else d

-- The loop, with the byte index; none is the return of false in it.
pub luhn_loop : ℕ → ℕ → ℕ → List ℕ → Option ℕ
unfolding digit_value rune_len
luhn_loop parity i sum [] = some sum
luhn_loop parity i sum (d ∷ number) =
    let rest = luhn_loop parity (i + rune_len d) (sum + digit_value parity i (d - 48)) number in
    if ltb d 48 || ltb 57 d then none else rest

pub valid_luhn : List ℕ → Bool
unfolding luhn_loop byte_length
valid_luhn number =
    let loop = luhn_loop (byte_length number % 2) 0 0 number in
    if ltb (byte_length number) 13
    then false
    else elim loop [ none ↦ false | some sum ↦ nat_beq (sum % 10) 0 ]
