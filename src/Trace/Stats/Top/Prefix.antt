-- ===== src/Trace/Stats/Top/Prefix.antt =====
-- Go's maps as lists of pairs: reordered, cut and filled again, as `TopN` of trace/stats.go does.
use mathlib.Core.List.{Permᴰ}
use mathlib.Core.Path.{subst}
use observability_cli.Prelude.{
  suc, ◌≡◌, ◌≢◌, refl, sym, ◌∙◌, ap, none, some, [], ◌∷◌, ◌++◌, arith, Eq, All, Map, get, put,
  IsMap, length, append-nil, append_assoc,
}
use observability_cli.Trace.Telemetry.{PacketCounts}
use observability_cli.Trace.Stats.Top.{fill}

module _ {K V : Type 0} ⦃e : Eq K⦄ where
  All-perm : (P : K × V → Type 0) {xs ys : Map K V} → Permᴰ xs ys → All P xs → All P ys
  All-perm P Permᴰ.nil h = tt
  All-perm P (Permᴰ.cons q p) h = (subst P q h.0, All-perm P p h.1)
  All-perm P (Permᴰ.swap q r) h = (subst P r h.1.0, (subst P q h.0, h.1.1))
  All-perm P (Permᴰ.trans p q) h = All-perm P q (All-perm P p h)

  -- A reordered map has the same entries.
  pub perm-IsMap : {xs ys : Map K V} → Permᴰ xs ys → IsMap xs → IsMap ys
  perm-IsMap Permᴰ.nil h = tt
  perm-IsMap (Permᴰ.cons {l₂} q p) h =
      (subst (λ x. All (λ kv. kv.0 ≢ x.0) l₂) q (All-perm (λ kv. kv.0 ≢ _) p h.0), perm-IsMap p h.1)
  perm-IsMap (Permᴰ.swap {a} {b} {a'} {b'} {l} q r) h =
      subst (λ x. IsMap (x ∷ b' ∷ l)) r
        (subst (λ y. IsMap (b ∷ y ∷ l)) q (((λ x. h.0.0 (sym x)), h.1.0), (h.0.1, h.1.1)))
  perm-IsMap (Permᴰ.trans p q) h = perm-IsMap q (perm-IsMap p h)

  pub get-perm : {xs ys : Map K V} (k : K) → Permᴰ xs ys → IsMap xs → get k xs ≡ get k ys
  unfolding get
  get-perm k Permᴰ.nil h = refl
  get-perm k (Permᴰ.cons q p) h = rw q (ground (arith, get-perm k p h.1))
  get-perm k (Permᴰ.swap {a = (i, v)} {b = (j, w)} q r) h =
      rw (← q, ← r) (ground (arith, e.beq_iff i k, e.beq_iff j k, h.0.0))
  get-perm k (Permᴰ.trans p q) h = get-perm k p h ∙ get-perm k q (perm-IsMap p h)

  pub length-perm : {xs ys : Map K V} → Permᴰ xs ys → length xs ≡ length ys
  length-perm Permᴰ.nil = refl
  length-perm (Permᴰ.cons q p) = ap suc (length-perm p)
  length-perm (Permᴰ.swap q r) = refl
  length-perm (Permᴰ.trans p q) = length-perm p ∙ length-perm q

  -- The front of a map is a map.
  All-prefix : (P : K × V → Type 0) (xs ys : Map K V) → All P (xs ++ ys) → All P xs
  All-prefix P [] ys h = tt
  All-prefix P (x ∷ xs) ys h = (h.0, All-prefix P xs ys h.1)

  pub prefix-IsMap : (xs ys : Map K V) → IsMap (xs ++ ys) → IsMap xs
  prefix-IsMap [] ys h = tt
  prefix-IsMap (x ∷ xs) ys h = (All-prefix (λ kv. kv.0 ≢ x.0) xs ys h.0, prefix-IsMap xs ys h.1)

  pub get-append :
      (k : K) (xs ys : Map K V)
      → get k (xs ++ ys) ≡ elim (get k xs) [ none ↦ get k ys | some v ↦ some v ]
  unfolding get
  get-append k [] ys = ground arith
  get-append k ((j, v) ∷ xs) ys = ground (arith, get-append k xs ys)

  pub get-append_front :
      (k : K) (xs ys : Map K V) (v : V) → get k xs ≡ some v → get k (xs ++ ys) ≡ some v
  get-append_front k xs ys v h = get-append k xs ys ∙ rw h

  pub get-append_back : (k : K) (xs ys : Map K V) → get k xs ≡ none → get k (xs ++ ys) ≡ get k ys
  get-append_back k xs ys h = get-append k xs ys ∙ rw h

  -- A key that is new goes to the end.
  put-new : (k : K) (v : V) (m : Map K V) → All (λ kv. kv.0 ≢ k) m → put k v m ≡ m ++ (k, v) ∷ []
  unfolding put
  put-new k v [] h = refl
  put-new k v ((j, w) ∷ m) h = ground (arith, e.beq_iff j k, put-new k v m h.1)

  All-middle :
      (P : K × V → Type 0) (xs : Map K V) (x : K × V) (ys : Map K V) → All P (xs ++ x ∷ ys) → P x
  All-middle P [] x ys h = h.0
  All-middle P (y ∷ xs) x ys h = All-middle P xs x ys h.1

  IsMap-middle :
      (xs : Map K V) (x : K × V) (ys : Map K V) → IsMap (xs ++ x ∷ ys) → All (λ kv. kv.0 ≢ x.0) xs
  IsMap-middle [] x ys h = tt
  IsMap-middle (y ∷ xs) x ys h =
      ((λ q. All-middle (λ kv. kv.0 ≢ y.0) xs x ys h.0 (sym q)), IsMap-middle xs x ys h.1)

pub fill_lem :
    {K : Type 0} ⦃e : Eq K⦄ (rv pairs : Map K PacketCounts)
    → IsMap (rv ++ pairs)
    → fill rv pairs ≡ rv ++ pairs
unfolding fill
fill_lem rv [] h = sym (append-nil rv)
fill_lem rv ((k, v) ∷ pairs) h =
    ap (λ m. fill m pairs) (put-new k v rv (IsMap-middle rv (k, v) pairs h))
    ∙ (fill_lem (rv ++ (k, v) ∷ []) pairs (rw (append_assoc rv ((k, v) ∷ []) pairs) h)
        ∙ append_assoc rv ((k, v) ∷ []) pairs)
