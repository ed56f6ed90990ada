-- ===== src/Apidump/Net/Interfaces.antt =====
-- The interfaces that apidump/net.go picks by itself.
use mathlib.Core.Path.{subst}
use observability_cli.Prelude.{
  ◌≡◌, ◌≢◌, refl, ap, ◌∙◌, ◌⊎◌, inl, inr, Bool, true, false, ◌&&◌, Option, none, some, List, [],
  ◌∷◌, String, string_eq, ◌==◌, arith, if◌then◌else◌, if_cases, option_cases, Map, get, put, delete,
  get-put, get-delete,
}
use observability_cli.Apidump.Net.{
  Addr, NetInterface, NetError, Host, Interfaces, check_pcap_permissions, collect, delete_all,
  sample_error, permitted, automatic_interfaces, get_eligible_interfaces,
}

abbrev has {ℓ} : {V : Type ℓ} → String → Map String V → Bool
has j [] = false
has j ((k, v) ∷ m) = let rest = has j m in if k == j then true else rest

has-get {ℓ} : {V : Type ℓ} (j : String) (m : Map String V) → has j m ≡ false → get j m ≡ none
unfolding get
has-get j [] h = refl
has-get j ((k, v) ∷ m) h = ground (arith, has-get j m)

delete_all-get :
    (j : String) (errs : Map String String) (m : Interfaces)
    → get j (delete_all errs m) ≡ (if has j errs then none else get j m)
unfolding delete_all
delete_all-get j [] m = refl
delete_all-get j ((k, e) ∷ errs) m =
    ground (arith, delete_all-get j errs (delete k m), get-delete k j m)

-- What an interface has to have to be picked.
abbrev pub candidate : NetInterface → Option (Option (List Addr))
candidate iface =
    if iface.flag_up
    then elim iface.addrs [
      | none ↦ none
      | some [] ↦ none
      | some (a ∷ more) ↦ some (some (a ∷ more))
    ]
    else none

-- The addresses of the last interface of this name that is up and has any.
abbrev pub last_candidate :
    String → List NetInterface → Option (Option (List Addr)) → Option (Option (List Addr))
last_candidate j [] found = found
last_candidate j (iface ∷ ifaces) found =
    let other = last_candidate j ifaces found in
    let same = last_candidate j ifaces (candidate iface) in
    if iface.name == j then elim (candidate iface) [ none ↦ other | some _ ↦ same ] else other

abbrev pub GetsIf : String → Option (Option (List Addr)) → NetError ⊎ Interfaces → Type 0
GetsIf j o (inl e) = Unit
GetsIf j o (inr m) = get j m ≡ o

collect-get :
    (j : String) (ifaces : List NetInterface) (m : Interfaces)
    → GetsIf j (last_candidate j ifaces (get j m)) (collect ifaces m)
unfolding collect
collect-get j [] m = refl
collect-get j (iface ∷ ifaces) m = go iface.flag_up iface.addrs (collect-get j ifaces)
  where
    go :
        (up : Bool) (addrs : Option (List Addr))
        → ((n : Interfaces) → GetsIf j (last_candidate j ifaces (get j n)) (collect ifaces n))
        → let i : NetInterface = record iface { flag_up = up; addrs = addrs } in
          GetsIf j (last_candidate j (i ∷ ifaces) (get j m)) (collect (i ∷ ifaces) m)
    go false addrs ih =
        if_cases (λ o. GetsIf j o (collect ifaces m)) (iface.name == j) (λ _. ih m) (λ _. ih m)
    go true none ih = tt
    go true (some []) ih =
        if_cases (λ o. GetsIf j o (collect ifaces m)) (iface.name == j) (λ _. ih m) (λ _. ih m)
    go true (some (a ∷ more)) ih =
        let v : Option (List Addr) = some (a ∷ more) in
        let n = put iface.name v m in
        let h : GetsIf j (last_candidate j ifaces (if iface.name == j then some v else get j m))
            (collect ifaces n) =
          subst (λ o. GetsIf j (last_candidate j ifaces o) (collect ifaces n))
            (get-put iface.name j v m) (ih n) in
        if_cases (λ o. GetsIf j o (collect ifaces n)) (iface.name == j)
          (λ e.
            subst
              (λ b.
                GetsIf j (last_candidate j ifaces (if b then some v else get j m))
                  (collect ifaces n))
              e h)
          (λ e.
            subst
              (λ b.
                GetsIf j (last_candidate j ifaces (if b then some v else get j m))
                  (collect ifaces n))
              e h)

same {ℓ} : {A : Type ℓ} {o : Option A} {a b : A} → o ≡ some a → o ≡ some b → a ≡ b
same e f = cc

module _ (host : Host) where
  abbrev pub fails : String → Bool
  fails j = elim (host.open_live j) [ none ↦ false | some _ ↦ true ]

  has-check_pcap_permissions :
      (j : String) (m : Interfaces) → has j (check_pcap_permissions host m) ≡ (has j m && fails j)
  unfolding check_pcap_permissions
  has-check_pcap_permissions j [] = refl
  has-check_pcap_permissions j ((k, v) ∷ m) =
      ground (arith, string_eq.beq_iff k j, has-check_pcap_permissions j m, ap host.open_live)

  permitted-get :
      (j : String) (m : Interfaces)
      → GetsIf j (if fails j then none else get j m) (permitted host m)
        × (permitted host m ≢ inr [])
  unfolding permitted
  permitted-get j m = go (delete_all (check_pcap_permissions host m) m) (
      delete_all-get j (check_pcap_permissions host m) m
      ∙ ground (arith, has-check_pcap_permissions j m, has-get j m))
    where
      go :
          (left : Interfaces)
          → get j left ≡ (if fails j then none else get j m)
          → let r : NetError ⊎ Interfaces = elim left [
            | [] ↦ inl (sample_error host (check_pcap_permissions host m))
            | kept ∷ rest ↦ inr (kept ∷ rest)
          ] in
            GetsIf j (if fails j then none else get j m) r × (r ≢ inr [])
      go [] e = (tt, λ q. cc)
      go (kept ∷ rest) e = (e, λ q. ground (arith, q))

  -- What is picked of a machine's interfaces, by name.
  abbrev pub Picks : String → List NetInterface → NetError ⊎ Interfaces → Type 0
  Picks j ifaces r =
      GetsIf j (if fails j then none else last_candidate j ifaces none) r × (r ≢ inr [])

  Picks-permitted :
      (j : String) (ifaces : List NetInterface) (r : NetError ⊎ Interfaces)
      → GetsIf j (last_candidate j ifaces none) r
      → Picks j ifaces (elim r [ inl e ↦ inl e | inr results ↦ permitted host results ])
  Picks-permitted j ifaces (inl e) h = (tt, λ q. cc)
  Picks-permitted j ifaces (inr m) h =
      let (found, nonempty) = permitted-get j m in
      (subst (λ o. GetsIf j (if fails j then none else o) (permitted host m)) h found, nonempty)

  -- Where the user names no interface and the machine's are known, a result is never empty, and has
  -- of each name exactly the addresses of the last interface of that name that is up and has any,
  -- if the name can be captured from.
  pub get_eligible_interfaces-Picks :
      (ifaces : List NetInterface)
      → host.interfaces ≡ some ifaces
      → (j : String) → Picks j ifaces (get_eligible_interfaces host [])
  unfolding get_eligible_interfaces automatic_interfaces get
  get_eligible_interfaces-Picks ifaces known j =
      option_cases (Picks j ifaces) host.interfaces (λ e. absurd (cc))
        λ found e.
          subst
            (λ fs.
              Picks j ifaces
                (elim (collect fs []) [ inl x ↦ inl x | inr results ↦ permitted host results ]))
            (same known e) (Picks-permitted j ifaces (collect ifaces []) (collect-get j ifaces []))
