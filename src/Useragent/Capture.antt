-- ===== src/Useragent/Capture.antt =====
-- What a group of the regular expression of useragent/useragent.go may capture.
use mathlib.Core.Path.{subst}
use observability_cli.Prelude.{
  ℕ, ◌+◌, ◌≤◌, ◌<◌, ◌≡◌, refl, ◌≢◌, ap, ◌∙◌, inl, inr, Bool, true, false, Option, none, some,
  Option-cases, [], ◌∷◌, ◌++◌, nat_beq, nat_beq_iff, arith, count_if, count_if-append, All,
  if◌then◌else◌, if_cases, option_cases,
}
use observability_cli.Useragent.{Text, strip_prefix, after, capture, or_else, prepend, with_group}

pub strip_prefix-append : (p s : Text) → strip_prefix p (p ++ s) ≡ some s
unfolding strip_prefix
strip_prefix-append [] s = refl
strip_prefix-append (a ∷ p) s = ground (arith, strip_prefix-append p s)

strip_prefix_sound : (p s rest : Text) → strip_prefix p s ≡ some rest → s ≡ p ++ rest
unfolding strip_prefix
strip_prefix_sound [] s rest e = ground arith
strip_prefix_sound (a ∷ p) [] rest e = ground arith
strip_prefix_sound (a ∷ p) (b ∷ s) rest e =
    ground (arith, nat_beq_iff a b, strip_prefix_sound p s rest)

-- How many code points of the text are this one.
abbrev pub count : ℕ → Text → ℕ
count c = count_if (nat_beq c)

not_newline : (c : ℕ) → c ≢ b'\n' → nat_beq c b'\n' ≡ false
not_newline c h = ground (arith, h)

or_else-none {ℓ} :
    {A : Type ℓ} (b : Bool) (o : Option (Text × A)) → or_else (if b then none else none) o ≡ o
or_else-none true o = refl
or_else-none false o = refl

module _ {ℓ} {R : Type ℓ} (sep : Text) (k : Text → Option R) where
  pub after-append : (rest : Text) → after sep k (sep ++ rest) ≡ k rest
  unfolding after
  after-append rest =
      ap (λ (o : Option Text). elim o as (λ _. Option R) [ none ↦ none | some t ↦ k t ])
        (strip_prefix-append sep rest)

  -- The text is the group, the separator, and what the rest of the expression matches.
  abbrev pub IsMatch : Text → Text → R → Type ℓ
  IsMatch s g r = (rest : Text) × ((s ≡ g ++ (sep ++ rest)) × (k rest ≡ some r))

  abbrev MatchIf : Text → Option (Text × R) → Type ℓ
  MatchIf s none = Unit
  MatchIf s (some (g, r)) = IsMatch s g r

  after_sound : (s : Text) (r : R) → after sep k s ≡ some r → IsMatch s [] r
  unfolding after
  after_sound s r =
      option_cases (λ (o : Option R). o ≡ some r → IsMatch s [] r) (strip_prefix sep s)
        (λ _ e. absurd (cc)) λ rest e q. (rest, (strip_prefix_sound sep s rest e, q))

  with_group-MatchIf : (s : Text) (o : Option R) → after sep k s ≡ o → MatchIf s (with_group o)
  with_group-MatchIf s none e = tt
  with_group-MatchIf s (some r) e = after_sound s r e

  prepend-MatchIf :
      (c : ℕ) (s : Text) (o : Option (Text × R)) → MatchIf s o → MatchIf (c ∷ s) (prepend c o)
  prepend-MatchIf c s none h = tt
  prepend-MatchIf c s (some (g, r)) (rest, (e, q)) = (rest, (ap (◌∷◌ c) e, q))

  or_else-MatchIf :
      (s : Text) (o p : Option (Text × R)) → MatchIf s o → MatchIf s p → MatchIf s (or_else o p)
  or_else-MatchIf s none p h i = i
  or_else-MatchIf s (some x) p h i = h

  capture-MatchIf : (s : Text) → MatchIf s (capture sep k s)
  unfolding capture
  capture-MatchIf [] = with_group-MatchIf [] (after sep k []) refl
  capture-MatchIf (c ∷ s) =
      or_else-MatchIf (c ∷ s) _ _
        (if_cases (MatchIf (c ∷ s)) (nat_beq c b'\n') (λ _. tt)
          (λ _. prepend-MatchIf c s (capture sep k s) (capture-MatchIf s)))
        (with_group-MatchIf (c ∷ s) (after sep k (c ∷ s)) refl)

  -- A text without enough of a code point has no match: `n` is what the rest of the expression needs.
  pub capture-none :
      (c n : ℕ)
      → ((rest : Text) (r : R) → k rest ≡ some r → n ≤ count c rest)
      → (s : Text) → count c s < count c sep + n
      → capture sep k s ≡ none
  capture-none c n needs s few = elim (Option-cases (capture sep k s)) [
    | inl e ↦ e
    | inr ((g, r), e) ↦
        let (rest, (whole, found)) : IsMatch s g r = subst (MatchIf s) e (capture-MatchIf s) in
        absurd (
          omega (
            arith,
            few,
            needs rest r found,
            ap (count c) whole,
            count_if-append (nat_beq c) g (sep ++ rest),
            count_if-append (nat_beq c) sep rest,
          ))
  ]

  pub capture-count :
      (c n : ℕ)
      → ((rest : Text) (r : R) → k rest ≡ some r → n ≤ count c rest)
      → (s : Text) (x : Text × R) → capture sep k s ≡ some x
      → count c sep + n ≤ count c s
  capture-count c n needs s (g, r) e =
      let (rest, (whole, found)) : IsMatch s g r = subst (MatchIf s) e (capture-MatchIf s) in
      omega (
        arith,
        needs rest r found,
        ap (count c) whole,
        count_if-append (nat_beq c) g (sep ++ rest),
        count_if-append (nat_beq c) sep rest,
      )

  -- The group takes what stands before the place where no longer group matches.
  pub capture-append :
      (g s : Text) (r : R)
      → All (λ c. c ≢ b'\n') g
      → capture sep k s ≡ some ([], r)
      → capture sep k (g ++ s) ≡ some (g, r)
  unfolding capture
  capture-append [] s r plain e = e
  capture-append (c ∷ g) s r (h, plain) e =
      let ih = capture-append g s r plain e in
      ap
        (λ b.
          or_else (if b then none else prepend c (capture sep k (g ++ s)))
            (with_group (after sep k (c ∷ (g ++ s)))))
        (not_newline c h)
      ∙ ap (λ o. or_else (prepend c o) (with_group (after sep k (c ∷ (g ++ s))))) ih

module _ {ℓ} {R : Type ℓ} (b : ℕ) (t : Text) (k : Text → Option R) where
  pub capture-here :
      (rest : Text) (r : R)
      → k rest ≡ some r
      → capture (b ∷ t) k (t ++ rest) ≡ none
      → capture (b ∷ t) k ((b ∷ t) ++ rest) ≡ some ([], r)
  unfolding capture
  capture-here rest r found no_longer =
      let here = with_group (after (b ∷ t) k ((b ∷ t) ++ rest)) in
      ap (λ o. or_else (if nat_beq b b'\n' then none else prepend b o) here) no_longer
      ∙ or_else-none (nat_beq b b'\n') here
      ∙ ap with_group (after-append (b ∷ t) k rest ∙ found)
