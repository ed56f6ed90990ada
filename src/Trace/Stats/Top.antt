-- ===== src/Trace/Stats/Top.antt =====
-- `TopN` of trace/stats.go. `slices.SortFunc` belongs to golang.org/x/exp: a parameter that is
-- documented to reorder its argument into one that its test finds sorted.
pub mod Order
pub mod Prefix
pub mod Largest
pub mod Insertion
use mathlib.Core.List.{Permᴰ}
use observability_cli.Prelude.{
  ℕ, Bool, true, false, ◌≡◌, not, List, [], ◌∷◌, Option, Eq, ltb, nat_beq, min, length, take, All,
  if◌then◌else◌, Map, put,
}
use observability_cli.Trace.Telemetry.{PacketCounts}
use observability_cli.Trace.Stats.{BoundedPacketCounter, get_overflow}

-- `<` on the keys: constraints.Ordered.
pub record Ordered (K : Type 0) : Type 0 where
  pub less : K → K → Bool
  pub less_irrefl : (a : K) → less a a ≡ false
  pub less_trans : (a b c : K) → less a b ≡ true → less b c ≡ true → less a c ≡ true
  pub less_total : (a b : K) → less a b ≡ false → less b a ≡ false → a ≡ b

-- What SortFunc asks of its test: a strict weak ordering.
pub record IsStrictWeak {A : Type 0} (less : A → A → Bool) : Type 0 where
  pub irrefl : (a : A) → less a a ≡ false
  pub trans : (a b c : A) → less a b ≡ true → less b c ≡ true → less a c ≡ true
  pub incomparable :
      (a b c : A)
      → less a b ≡ false
      → less b a ≡ false
      → less b c ≡ false
      → less c b ≡ false
      → less a c ≡ false

-- Nothing that comes later is less.
abbrev pub Sorted : {A : Type 0} → (A → A → Bool) → List A → Type 0
Sorted less [] = Unit
Sorted less (x ∷ xs) = All (λ y. less y x ≡ false) xs × Sorted less xs

pub record SortFunc (A : Type 0) : Type 0 where
  pub sort_func : (A → A → Bool) → List A → List A
  pub permutes : (less : A → A → Bool) (xs : List A) → Permᴰ (sort_func less xs) xs
  pub sorts :
      (less : A → A → Bool) (xs : List A) → IsStrictWeak less → Sorted less (sort_func less xs)

-- The loop that fills the result.
pub fill :
    {K : Type 0} ⦃e : Eq K⦄ → Map K PacketCounts → List (K × PacketCounts) → Map K PacketCounts
fill rv [] = rv
fill rv ((k, v) ∷ pairs) = fill (put k v rv) pairs

module _ {K : Type 0} ⦃e : Eq K⦄ (order : Ordered K) (sorting : SortFunc (K × PacketCounts)) where
  -- The test that `TopN` sorts by: the higher count first, then the smaller key.
  pub ranks_before : (PacketCounts → ℕ) → K × PacketCounts → K × PacketCounts → Bool
  ranks_before project a b =
      if not (nat_beq (project a.1) (project b.1))
      then ltb (project b.1) (project a.1)
      else order.less a.0 b.0

  pub top_n :
      BoundedPacketCounter K → ℕ → (PacketCounts → ℕ) → Map K PacketCounts × Option PacketCounts
  top_n bc n project =
      let pairs = sorting.sort_func (ranks_before project) bc.m in
      (fill [] (take (min (length pairs) n) pairs), get_overflow bc)
