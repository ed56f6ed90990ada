-- ===== src/Ecs/Queries/Batches.antt =====
-- The batches of cmd/internal/ecs/aws_api_names.go: no ARN is left out, and no batch is too large.
use observability_cli.Prelude.{
  ◌≡◌, ◌≢◌, refl, ap, ◌∙◌, ℕ, zero, suc, ◌≤◌, List, [], ◌∷◌, ◌++◌, String, string_eq, take, drop,
  length, All, length-take, length-drop, take-append-drop, arith,
}
use observability_cli.Ecs.Queries.{batches}

abbrev pub concat {ℓ} : {A : Type ℓ} → List (List A) → List A
concat [] = []
concat (xs ∷ xss) = xs ++ concat xss

-- One to a hundred.
abbrev pub IsBatch : List String → Type 0
IsBatch b = (length b ≤ 100) × (b ≢ [])

-- A round for each element is enough.
batches-concat : (n : ℕ) (xs : List String) → length xs ≤ n → concat (batches n xs) ≡ xs
unfolding batches
batches-concat zero [] h = refl
batches-concat zero (x ∷ xs) h = absurd (omega (arith, h))
batches-concat (suc n) [] h = refl
batches-concat (suc n) (x ∷ xs) h =
    ap (λ l. x ∷ l)
      (ap (λ l. take 99 xs ++ l)
          (batches-concat n (drop 99 xs) (omega (arith, h, length-drop {0} 99 xs)))
        ∙ take-append-drop 99 xs)

batches-IsBatch : (n : ℕ) (xs : List String) → All IsBatch (batches n xs)
unfolding batches
batches-IsBatch zero xs = tt
batches-IsBatch (suc n) [] = tt
batches-IsBatch (suc n) (x ∷ xs) =
    ((omega (arith, length-take {0} 99 xs), λ e. cc), batches-IsBatch n (drop 99 xs))

-- The slices that are described are not empty and have at most 100 ARNs, and one after the other
-- they are the ARNs that were listed.
pub batches_cover :
    (arns : List String)
    → All IsBatch (batches (length arns) arns) × (concat (batches (length arns) arns) ≡ arns)
batches_cover arns =
    (batches-IsBatch (length arns) arns, batches-concat (length arns) arns (omega (arith)))
