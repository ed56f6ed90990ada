-- ===== src/Learn/Luhn/Checksum.antt =====
-- The check of learn/luhn.go against the definition of the Luhn checksum.
use observability_cli.Prelude.{
  ℕ, zero, suc, ◌+◌, ◌-◌, ◌*◌, ◌%◌, ◌/◌, ◌≡◌, refl, ◌∙◌, ap, leb, nat_beq, Bool, true, false, not,
  ◌&&◌, none, some, List, [], ◌∷◌, ◌++◌, reverse, if◌then◌else◌, all, length, Bool-cases, inl, inr,
  length-append, arith,
}
use mathlib.Core.List.{reverse-cons}
use observability_cli.Learn.Luhn.{rune_len, byte_length, digit_value, luhn_loop, valid_luhn}

abbrev pub is_digit : ℕ → Bool
is_digit c = leb 48 c && leb c 57

-- The decimal digits of 2 d, added up.
abbrev pub doubled : ℕ → ℕ
doubled d = d * 2 / 10 + d * 2 % 10

-- Digits from the right: every second one is doubled, the first one is not.
abbrev pub checksum : Bool → List ℕ → ℕ
checksum double [] = 0
checksum double (c ∷ cs) = (if double then doubled (c - 48) else c - 48) + checksum (not double) cs

-- The same from the left.
abbrev is_even : ℕ → Bool
is_even zero = true
is_even (suc n) = not (is_even n)

abbrev left_sum : List ℕ → ℕ
left_sum [] = 0
left_sum (c ∷ cs) = (if is_even (length cs) then c - 48 else doubled (c - 48)) + left_sum cs

checksum-snoc :
    (b : Bool) (cs : List ℕ) (c : ℕ)
    → checksum b (cs ++ c ∷ [])
      ≡ checksum b cs
        + (if (if is_even (length cs) then b else not b) then doubled (c - 48) else c - 48)
checksum-snoc b [] c = ground arith
checksum-snoc b (d ∷ cs) c = ground (arith, checksum-snoc (not b) cs c)

is_even_mod : (n : ℕ) → is_even n ≡ nat_beq (n % 2) 0
is_even_mod zero = refl
is_even_mod (suc n) = ground (arith, is_even_mod n)

length-reverse : (cs : List ℕ) → length (reverse cs) ≡ length cs
length-reverse [] = refl
length-reverse (c ∷ cs) =
    ap length (reverse-cons c cs)
    ∙ length-append (reverse cs) (c ∷ [])
    ∙ omega (arith, length-reverse cs)

left_sum-checksum : (cs : List ℕ) → left_sum cs ≡ checksum false (reverse cs)
left_sum-checksum [] = refl
left_sum-checksum (c ∷ cs) = ground (
  arith,
  ap (checksum false) (reverse-cons c cs),
  checksum-snoc false (reverse cs) c,
  ap is_even (length-reverse cs),
  left_sum-checksum cs,
)

digit_value-doubled :
    (i n d : ℕ)
    → is_digit d ≡ true
    → digit_value ((i + suc n) % 2) i (d - 48) ≡ (if is_even n then d - 48 else doubled (d - 48))
unfolding digit_value
digit_value-doubled i n d h = ground (arith, is_even_mod n)

rune_len-digit : (c : ℕ) → is_digit c ≡ true → rune_len c ≡ 1
unfolding rune_len
rune_len-digit c h = ground arith

luhn_loop-left_sum :
    (parity i sum : ℕ) (cs : List ℕ)
    → parity ≡ (i + length cs) % 2
    → luhn_loop parity i sum cs ≡ (if all is_digit cs then some (sum + left_sum cs) else none)
unfolding luhn_loop rune_len
luhn_loop-left_sum parity i sum [] e = ground arith
luhn_loop-left_sum parity i sum (c ∷ cs) e = elim (Bool-cases (is_digit c)) [
  | inl digit ↦
      let step =
        luhn_loop-left_sum parity (i + rune_len c) (sum + digit_value parity i (c - 48)) cs
          (e ∙ ap (λ n. n % 2) (omega (arith, rune_len-digit c digit))) in
      ground (
        arith,
        step,
        ap (λ q. digit_value q i (c - 48)) e,
        digit_value-doubled i (length cs) c digit,
      )
  | inr other ↦ ground arith
]

luhn_loop-none :
    (parity i sum : ℕ) (cs : List ℕ) → all is_digit cs ≡ false → luhn_loop parity i sum cs ≡ none
unfolding luhn_loop
luhn_loop-none parity i sum [] h = ground arith
luhn_loop-none parity i sum (c ∷ cs) h =
    ground (arith, luhn_loop-none parity (i + rune_len c) (sum + digit_value parity i (c - 48)) cs)

byte_length-length : (cs : List ℕ) → all is_digit cs ≡ true → byte_length cs ≡ length cs
unfolding byte_length
byte_length-length [] h = refl
byte_length-length (c ∷ cs) h = ground (arith, rune_len-digit c, byte_length-length cs)

-- The check accepts exactly the texts of 13 decimal digits or more whose Luhn checksum, taken from
-- the right with every second digit doubled and its digits added up, ends in 0.
pub valid_luhn-checksum :
    (number : List ℕ)
    → valid_luhn number ≡ (
        leb 13 (length number)
        && (all is_digit number && nat_beq (checksum false (reverse number) % 10) 0))
unfolding valid_luhn
valid_luhn-checksum number = elim (Bool-cases (all is_digit number)) [
  | inl digits ↦
      let same = byte_length-length number digits in
      ground (
        arith,
        same,
        digits,
        luhn_loop-left_sum (byte_length number % 2) 0 0 number
            (ap (λ n. n % 2) (omega (arith, same))),
        left_sum-checksum number,
      )
  | inr others ↦ ground (arith, others, luhn_loop-none (byte_length number % 2) 0 0 number others)
]
