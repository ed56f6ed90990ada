-- ===== src/Prelude/Maps.antt =====
-- Go's maps, as association lists. `range` goes through a map in the list's order.
use Prim.Native.Nat.{ℕ, ◌+◌}
use mathlib.Core.Path.{◌≡◌, refl, ap}
use mathlib.Core.Logic.{◌≢◌}
use mathlib.Core.Bool.{true}
use mathlib.Core.Option.{Option, none, some}
use mathlib.Core.List.{List, [], ◌∷◌}
use native.Mathlib.Omega.{arith}
use observability_cli.Prelude.Tests.{Eq, ◌==◌, if◌then◌else◌}
use observability_cli.Prelude.Lists.{length, All, All-both}

abbrev pub Map {ℓ κ} : Type ℓ → Type κ → Type (ℓ ⊔ κ)
Map K V = List (K × V)

pub beq_self {ℓ} : {K : Type ℓ} ⦃e : Eq K⦄ (k : K) → (k == k) ≡ true
beq_self ⦃e⦄ k = (e.beq_iff k k).1 refl

module _ {ℓ κ} {K : Type ℓ} {V : Type κ} ⦃e : Eq K⦄ where
  -- v, ok := m[k]
  unfoldable pub get : K → Map K V → Option V
  get k [] = none
  get k ((j, v) ∷ m) = if j == k then some v else get k m

  -- m[k] = v
  unfoldable pub put : K → V → Map K V → Map K V
  put k v [] = (k, v) ∷ []
  put k v ((j, w) ∷ m) = let rest = put k v m in if j == k then (k, v) ∷ m else (j, w) ∷ rest

  -- delete(m, k)
  unfoldable pub delete : K → Map K V → Map K V
  delete k [] = []
  delete k ((j, w) ∷ m) = let rest = delete k m in if j == k then rest else (j, w) ∷ rest

  -- No key stands twice, as in every Go map.
  abbrev pub Fresh : K → Map K V → Type ℓ
  Fresh k m = All (λ kv. kv.0 ≢ k) m

  abbrev pub IsMap : Map K V → Type ℓ
  IsMap [] = Unit
  IsMap ((k, v) ∷ m) = All (λ kv. kv.0 ≢ k) m × IsMap m

  pub get-put :
      (k j : K) (v : V) (m : Map K V) → get j (put k v m) ≡ (if k == j then some v else get j m)
  unfolding get put
  get-put k j v [] = refl
  get-put k j v ((i, w) ∷ m) =
      ground (arith, e.beq_iff k j, e.beq_iff i k, e.beq_iff i j, get-put k j v m)

  pub get-delete : (k j : K) (m : Map K V) → get j (delete k m) ≡ (if k == j then none else get j m)
  unfolding get delete
  get-delete k j [] = ground arith
  get-delete k j ((i, w) ∷ m) =
      ground (arith, e.beq_iff k j, e.beq_iff i k, e.beq_iff i j, get-delete k j m)

  pub get-put_self : (k : K) (v : V) (m : Map K V) → get k (put k v m) ≡ some v
  get-put_self k v m = ground (arith, get-put k k v m, beq_self k)

  pub get-delete_self : (k : K) (m : Map K V) → get k (delete k m) ≡ none
  get-delete_self k m = ground (arith, get-delete k k m, beq_self k)

  pub Fresh-put : (k j : K) (v : V) (m : Map K V) → k ≢ j → Fresh j m → Fresh j (put k v m)
  unfolding put
  Fresh-put k j v [] h f = (h, tt)
  Fresh-put k j v ((i, w) ∷ m) h f = ground (arith, Fresh-put k j v m h f.1)

  pub Fresh-delete : (k j : K) (m : Map K V) → Fresh j m → Fresh j (delete k m)
  unfolding delete
  Fresh-delete k j [] f = tt
  Fresh-delete k j ((i, w) ∷ m) f = ground (arith, Fresh-delete k j m f.1)

  pub Fresh-get : (k : K) (m : Map K V) → Fresh k m → get k m ≡ none
  unfolding get
  Fresh-get k [] f = refl
  Fresh-get k ((j, w) ∷ m) f = ground (arith, e.beq_iff j k, Fresh-get k m f.1)

  pub put-IsMap : (k : K) (v : V) (m : Map K V) → IsMap m → IsMap (put k v m)
  unfolding put
  put-IsMap k v [] h = (tt, tt)
  put-IsMap k v ((i, w) ∷ m) h =
      ground (arith, e.beq_iff i k, Fresh-put k i v m, put-IsMap k v m h.1)

  pub delete-IsMap : (k : K) (m : Map K V) → IsMap m → IsMap (delete k m)
  unfolding delete
  delete-IsMap k [] h = tt
  delete-IsMap k ((i, w) ∷ m) h = ground (arith, Fresh-delete k i m h.0, delete-IsMap k m h.1)

  -- A key that is new is added at the end; one that is there takes no room.
  pub length-put :
      (k : K) (v : V) (m : Map K V)
      → length (put k v m) ≡ length m + elim (get k m) [ none ↦ 1 | some _ ↦ 0 ]
  unfolding get put
  length-put k v [] = omega arith
  length-put k v ((i, w) ∷ m) = ground (arith, length-put k v m)

module _ {ℓ κ μ} {K : Type ℓ} {V : Type κ} ⦃e : Eq K⦄ where
  -- A predicate of the entries is kept by the operations.
  pub All-put :
      (P : K × V → Type μ) (k : K) (v : V) (m : Map K V) → P (k, v) → All P m → All P (put k v m)
  unfolding put
  All-put P k v [] p h = (p, tt)
  All-put P k v ((i, w) ∷ m) p h = ground (arith, All-put P k v m p h.1)

  pub All-delete : (P : K × V → Type μ) (k : K) (m : Map K V) → All P m → All P (delete k m)
  unfolding delete
  All-delete P k [] h = tt
  All-delete P k ((i, w) ∷ m) h = ground (arith, All-delete P k m h.1)

  pub All-get :
      (P : K × V → Type μ) (k : K) (v : V) (m : Map K V) → All P m → get k m ≡ some v → P (k, v)
  unfolding get
  All-get P k v [] h q = cc
  All-get P k v ((i, w) ∷ m) h q = ground (arith, e.beq_iff i k, All-get P k v m h.1)

module _ {ℓ κ} {K : Type ℓ} {V : Type κ} ⦃e : Eq K⦄ where
  abbrev pub sum_by : (K × V → ℕ) → Map K V → ℕ
  sum_by f [] = 0
  sum_by f (kv ∷ m) = f kv + sum_by f m

  pub delete-Fresh : (k : K) (m : Map K V) → Fresh k m → delete k m ≡ m
  unfolding delete
  delete-Fresh k [] h = refl
  delete-Fresh k ((i, w) ∷ m) h = ground (arith, e.beq_iff i k, delete-Fresh k m h.1)

  pub get-Fresh : (k : K) (m : Map K V) → get k m ≡ none → Fresh k m
  unfolding get
  get-Fresh k [] h = tt
  get-Fresh k ((i, w) ∷ m) h = ground (arith, e.beq_iff i k, get-Fresh k m)

  -- A new key that is taken out again leaves the map as it was.
  pub delete-put : (k : K) (v : V) (m : Map K V) → get k m ≡ none → delete k (put k v m) ≡ m
  unfolding get put delete
  delete-put k v [] h = ground (arith, beq_self k)
  delete-put k v ((i, w) ∷ m) h = ground (arith, delete-put k v m)

  pub sum_by-put :
      (f : K × V → ℕ) (k : K) (v : V) (m : Map K V)
      → get k m ≡ none
      → sum_by f (put k v m) ≡ sum_by f m + f (k, v)
  unfolding get put
  sum_by-put f k v [] h = omega arith
  sum_by-put f k v ((i, w) ∷ m) h = ground (arith, sum_by-put f k v m)

  pub sum_by-delete :
      (f : K × V → ℕ) (k : K) (v : V) (m : Map K V)
      → IsMap m
      → get k m ≡ some v
      → sum_by f (delete k m) + f (k, v) ≡ sum_by f m
  unfolding get delete
  sum_by-delete f k v [] h q = cc
  sum_by-delete f k v ((i, w) ∷ m) h q =
      ground (arith, e.beq_iff i k, delete-Fresh k m, ap (λ j. f (j, w)), sum_by-delete f k v m h.1)

  -- Every entry of a map is found under its key.
  pub IsMap-get : (m : Map K V) → IsMap m → All (λ kv. get kv.0 m ≡ some kv.1) m
  unfolding get
  IsMap-get [] h = tt
  IsMap-get ((k, v) ∷ m) (fresh, h) = (
    ground (arith, beq_self k),
    All-both (λ kv. kv.0 ≢ k) (λ kv. get kv.0 m ≡ some kv.1)
        (λ kv. get kv.0 ((k, v) ∷ m) ≡ some kv.1) (λ kv f q. ground (arith, e.beq_iff k kv.0)) m
        fresh (IsMap-get m h),
  )

module _ {ℓ κ μ} {K : Type ℓ} {V : Type κ} {W : Type μ} ⦃e : Eq K⦄ (f : V → W) where
  -- The map with each value passed through `f`.
  abbrev pub map_values : Map K V → Map K W
  map_values [] = []
  map_values ((k, v) ∷ m) = (k, f v) ∷ map_values m

  pub length-map_values : (m : Map K V) → length (map_values m) ≡ length m
  length-map_values [] = refl
  length-map_values (_ ∷ m) = omega (arith, length-map_values m)

  pub get-map_values :
      (k : K) (m : Map K V)
      → get k (map_values m) ≡ elim (get k m) [ none ↦ none | some v ↦ some (f v) ]
  unfolding get
  get-map_values k [] = refl
  get-map_values k ((j, v) ∷ m) = ground (arith, get-map_values k m)

  Fresh-map_values : (k : K) (m : Map K V) → Fresh k m → Fresh k (map_values m)
  Fresh-map_values k [] h = tt
  Fresh-map_values k (_ ∷ m) h = (h.0, Fresh-map_values k m h.1)

  pub map_values-IsMap : (m : Map K V) → IsMap m → IsMap (map_values m)
  map_values-IsMap [] h = tt
  map_values-IsMap ((k, v) ∷ m) h = (Fresh-map_values k m h.0, map_values-IsMap m h.1)
