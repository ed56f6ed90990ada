-- ===== src/Trace/Stats/Top/Insertion.antt =====
-- An insertion sort, which does what trace/stats.go asks of `slices.SortFunc`.
use mathlib.Core.List.{Permᴰ}
use mathlib.Core.List.Permᴰ
use mathlib.Core.Path.{◌≡◌, refl}
use observability_cli.Prelude.{
  Bool, false, List, [], ◌∷◌, arith, All, if◌then◌else◌, Bool-cases, inl, inr,
}
use observability_cli.Trace.Stats.Top.{IsStrictWeak, Sorted, SortFunc}

module _ {A : Type 0} (less : A → A → Bool) where
  unfoldable pub insert_by : A → List A → List A
  insert_by x [] = x ∷ []
  insert_by x (y ∷ ys) = let rest = insert_by x ys in if less y x then y ∷ rest else x ∷ y ∷ ys

  unfoldable pub insertion_sort : List A → List A
  unfolding insert_by
  insertion_sort [] = []
  insertion_sort (x ∷ xs) = insert_by x (insertion_sort xs)

  insert_by-perm : (x : A) (xs : List A) → Permᴰ (insert_by x xs) (x ∷ xs)
  unfolding insert_by
  insert_by-perm x [] = Permᴰ.refl (x ∷ [])
  insert_by-perm x (y ∷ ys) = elim (Bool-cases (less y x)) [
    | inl e ↦ rw e (Permᴰ.trans (Permᴰ.cons refl (insert_by-perm x ys)) (Permᴰ.swap refl refl))
    | inr e ↦ rw e (Permᴰ.refl (x ∷ y ∷ ys))
  ]

  insertion_sort-perm : (xs : List A) → Permᴰ (insertion_sort xs) xs
  unfolding insertion_sort
  insertion_sort-perm [] = Permᴰ.nil
  insertion_sort-perm (x ∷ xs) =
      Permᴰ.trans (insert_by-perm x (insertion_sort xs)) (Permᴰ.cons refl (insertion_sort-perm xs))

  module _ (weak : IsStrictWeak less) where
    not_less_trans : (a b c : A) → less a b ≡ false → less b c ≡ false → less a c ≡ false
    not_less_trans a b c h k =
        ground (arith, weak.trans b a c, weak.trans a c b, weak.incomparable a b c)

    All-not_less :
        (x y : A) (zs : List A)
        → less y x ≡ false
        → All (λ z. less z y ≡ false) zs
        → All (λ z. less z x ≡ false) zs
    All-not_less x y [] h k = tt
    All-not_less x y (z ∷ zs) h k = (not_less_trans z y x k.0 h, All-not_less x y zs h k.1)

    All-insert_by : (P : A → Type 0) (x : A) (xs : List A) → P x → All P xs → All P (insert_by x xs)
    unfolding insert_by
    All-insert_by P x [] p h = (p, tt)
    All-insert_by P x (y ∷ ys) p h = ground (arith, All-insert_by P x ys p h.1)

    insert_by-Sorted : (x : A) (xs : List A) → Sorted less xs → Sorted less (insert_by x xs)
    unfolding insert_by
    insert_by-Sorted x [] h = (tt, tt)
    insert_by-Sorted x (y ∷ ys) h = elim (Bool-cases (less y x)) [
      | inl e ↦ rw e (
        All-insert_by (λ z. less z y ≡ false) x ys (ground (arith, weak.trans y x y, weak.irrefl y))
            h.0,
        insert_by-Sorted x ys h.1,
      )
      | inr e ↦ rw e ((e, All-not_less x y ys e h.0), h)
    ]

    insertion_sort-Sorted : (xs : List A) → Sorted less (insertion_sort xs)
    unfolding insertion_sort
    insertion_sort-Sorted [] = tt
    insertion_sort-Sorted (x ∷ xs) =
        insert_by-Sorted x (insertion_sort xs) (insertion_sort-Sorted xs)

pub insertion : {A : Type 0} → SortFunc A
insertion = record {
  sort_func = insertion_sort;
  permutes = insertion_sort-perm;
  sorts = λ less xs weak. insertion_sort-Sorted less weak xs;
}
