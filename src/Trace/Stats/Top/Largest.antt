-- ===== src/Trace/Stats/Top/Largest.antt =====
-- What `TopN` of trace/stats.go selects.
use observability_cli.Prelude.{
  ℕ, ◌<◌, ◌≡◌, sym, ◌∙◌, ap, false, ◌⊎◌, [], ◌++◌, arith, Eq, All, All-get, Map, get, IsMap, some,
  none, min, length, length-take, take, drop, take-append-drop,
}
use mathlib.Core.List.Permᴰ
use mathlib.Core.Path.{subst}
use observability_cli.Trace.Telemetry.{PacketCounts}
use observability_cli.Trace.Stats.{BoundedPacketCounter}
use observability_cli.Trace.Stats.Top.{Ordered, SortFunc, Sorted, ranks_before, top_n}
use observability_cli.Trace.Stats.Top.Order.{ranks_before-IsStrictWeak, Sorted-append}
use observability_cli.Trace.Stats.Top.Prefix.{
  perm-IsMap, get-perm, length-perm, prefix-IsMap, get-append_front, get-append_back, fill_lem,
}

-- `n` entries of the map, or all; those left out have a lower count, or the same and no smaller key.
pub record IsTop {K : Type 0} ⦃e : Eq K⦄ (order : Ordered K) (project : PacketCounts → ℕ) (n : ℕ)
    (m rv : Map K PacketCounts) : Type 0 where
  pub size : length rv ≡ min n (length m)
  pub entries : (k : K) (v : PacketCounts) → get k rv ≡ some v → get k m ≡ some v
  pub largest :
      (k j : K) (v w : PacketCounts)
      → get k rv ≡ some v
      → get j m ≡ some w
      → get j rv ≡ none
      → (project w < project v) ⊎ (project w ≡ project v) × (order.less j k ≡ false)

module _ {K : Type 0} ⦃e : Eq K⦄ (order : Ordered K) (sorting : SortFunc (K × PacketCounts)) where
  -- Whatever stands in the front of the sorted pairs is the top.
  cut-IsTop :
      (project : PacketCounts → ℕ) (n : ℕ) (m kept rest : Map K PacketCounts)
      → length kept ≡ min n (length m)
      → ((k : K) → get k (kept ++ rest) ≡ get k m)
      → Sorted (ranks_before order sorting project) (kept ++ rest)
      → IsTop order project n m kept
  unfolding ranks_before
  cut-IsTop project n m kept rest size same sorted = record {
    size = size;
    entries = λ k v h. sym (same k) ∙ get-append_front k kept rest v h;
    largest = λ k j v w h g left.
        let below : ranks_before order sorting project (j, w) (k, v) ≡ false =
          All-get (λ jw. ranks_before order sorting project jw (k, v) ≡ false) j w rest
            (All-get (λ kv. All (λ jw. ranks_before order sorting project jw kv ≡ false) rest) k v
              kept (Sorted-append (ranks_before order sorting project) kept rest sorted) h)
            (sym (get-append_back j kept rest left) ∙ (same j ∙ g)) in
        ground arith;
  }

  -- `TopN` of a map without double keys selects `n` of its entries, or all if there are fewer,
  -- such that each entry left out has a lower count than each that is kept, or the same count and
  -- no smaller key.
  pub top_n-IsTop :
      (bc : BoundedPacketCounter K) (n : ℕ) (project : PacketCounts → ℕ)
      → IsMap bc.m
      → IsTop order project n bc.m (top_n order sorting bc n project).0
  unfolding top_n
  top_n-IsTop bc n project v =
      let less = ranks_before order sorting project in
      let pairs = sorting.sort_func less bc.m in
      let count = min (length pairs) n in
      let kept = take count pairs in
      let perm = sorting.permutes less bc.m in
      let whole = take-append-drop count pairs in
      let is_map = perm-IsMap (Permᴰ.symm perm) v in
      subst (IsTop order project n bc.m)
        (sym (
          fill_lem [] kept (prefix-IsMap kept (drop count pairs) (subst IsMap (sym whole) is_map))))
        (cut-IsTop project n bc.m kept (drop count pairs)
          (omega (arith, length-take count pairs, length-perm perm))
          (λ k. ap (get k) whole ∙ get-perm k perm is_map)
          (subst (Sorted less) (sym whole)
            (sorting.sorts less bc.m (ranks_before-IsStrictWeak order sorting project))))
