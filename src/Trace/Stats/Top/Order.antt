-- ===== src/Trace/Stats/Top/Order.antt =====
-- The order by which `TopN` of trace/stats.go sorts.
use observability_cli.Prelude.{ℕ, ◌≡◌, Bool, false, ◌++◌, List, [], ◌∷◌, arith, Eq, All}
use observability_cli.Trace.Telemetry.{PacketCounts}
use observability_cli.Trace.Stats.Top.{Ordered, IsStrictWeak, Sorted, SortFunc, ranks_before}

module _ {K : Type 0} ⦃e : Eq K⦄ (order : Ordered K) (sorting : SortFunc (K × PacketCounts)) where
  pub ranks_before-IsStrictWeak :
      (project : PacketCounts → ℕ) → IsStrictWeak (ranks_before order sorting project)
  unfolding ranks_before
  ranks_before-IsStrictWeak project = record {
    irrefl = λ a. ground (arith, order.less_irrefl a.0);
    trans = λ a b c h k. ground (arith, order.less_trans a.0 b.0 c.0);
    incomparable = λ a b c h k l m.
        ground (arith, order.less_total a.0 b.0, order.less_total b.0 c.0, order.less_irrefl a.0);
  }

-- In a sorted list nothing at the back comes before anything at the front.
pub Sorted-append :
    {A : Type 0} (less : A → A → Bool) (xs ys : List A)
    → Sorted less (xs ++ ys)
    → All (λ x. All (λ y. less y x ≡ false) ys) xs
Sorted-append {A} less [] ys h = tt
Sorted-append {A} less (x ∷ xs) ys h = (drop_front xs h.0, Sorted-append less xs ys h.1)
  where
    drop_front :
        (zs : List A) → All (λ y. less y x ≡ false) (zs ++ ys) → All (λ y. less y x ≡ false) ys
    drop_front [] k = k
    drop_front (z ∷ zs) k = drop_front zs k.1
