-- ===== src/Apidump/Net/Filters.antt =====
-- What the filters of apidump/net.go let through.
use observability_cli.Prelude.{
  ℕ, ◌<◌, ◌≡◌, ◌≢◌, refl, sym, ap, ◌∙◌, ◌⊎◌, inl, inr, Bool, true, false, not, ◌&&◌, ◌||◌, none,
  some, List, [], ◌∷◌, String, nat_beq, arith, if_cases, Map,
}
use observability_cli.Apidump.Net.{
  NetError, bpf_filter_and_port, Interfaces, Direction, src, dst, Filter, user_filter, no_filter,
  any_of, negation, ips_of, tests_of, filter_of_ips, port_filter, port_filters,
  get_inbound_bpf_filter, negations, create_bpf_filters,
}

pub record Packet : Type 0 where
  pub src_ip : ℕ
  pub src_port : ℕ
  pub dst_ip : ℕ
  pub dst_port : ℕ

abbrev test : Packet → Direction × ℕ × ℕ → Bool
test p (src, ip, port) = nat_beq p.src_ip ip && nat_beq p.src_port port
test p (dst, ip, port) = nat_beq p.dst_ip ip && nat_beq p.dst_port port

abbrev any_test : Packet → List (Direction × ℕ × ℕ) → Bool
any_test p [] = false
any_test p (t ∷ ts) = test p t || any_test p ts

-- pcap-filter's meaning of an expression; `user` is that of the user's text.
abbrev pub passes : (String → Packet → Bool) → Packet → Filter → Bool
passes user p (user_filter f) = user f p
passes user p no_filter = true
passes user p (any_of ts) = any_test p ts
passes user p (negation f) = not (passes user p f)

abbrev pub is_ip_in : ℕ → List ℕ → Bool
is_ip_in ip [] = false
is_ip_in ip (i ∷ is) = nat_beq ip i || is_ip_in ip is

-- The packet comes from or goes to the port on one of these addresses.
abbrev pub is_to_or_from : Packet → ℕ → List ℕ → Bool
is_to_or_from p port ips =
    is_ip_in p.src_ip ips && nat_beq p.src_port port
    || is_ip_in p.dst_ip ips && nat_beq p.dst_port port

any_test-tests_of :
    (p : Packet) (port : ℕ) (ips : List ℕ)
    → any_test p (tests_of port ips) ≡ is_to_or_from p port ips
unfolding tests_of
any_test-tests_of p port [] = refl
any_test-tests_of p port (ip ∷ ips) = ground (arith, any_test-tests_of p port ips)

module _ (user : String → Packet → Bool) (p : Packet) where
  -- The filters of the interfaces, in their order: the packet passes the inbound filter exactly if
  -- it comes from or goes to the port on the interface, and the outbound one exactly if not.
  abbrev pub ArePortFilters : ℕ → Interfaces → Map String Filter → Map String Filter → Type 0
  ArePortFilters port [] [] [] = Unit
  ArePortFilters port ((name, some addrs) ∷ rest) ((n, f) ∷ fs) ((m, g) ∷ gs) =
      (n ≡ name)
      × (m ≡ name)
      × (passes user p f ≡ is_to_or_from p port (ips_of addrs))
      × (passes user p g ≡ not (passes user p f))
      × ArePortFilters port rest fs gs
  ArePortFilters port _ _ _ = ⊥

  -- A result by port.
  abbrev pub SplitsIf : ℕ → Interfaces → NetError ⊎ (Map String Filter × Map String Filter) → Type 0
  SplitsIf port interfaces (inl e) = e ≢ bpf_filter_and_port
  SplitsIf port interfaces (inr (inbound, outbound)) =
      ArePortFilters port interfaces inbound outbound

  abbrev FiltersIf : ℕ → Interfaces → NetError ⊎ Map String Filter → Type 0
  FiltersIf port interfaces (inl e) = e ≢ bpf_filter_and_port
  FiltersIf port interfaces (inr fs) = ArePortFilters port interfaces fs (negations fs)

  port_filters-FiltersIf :
      (port : ℕ) (interfaces : Interfaces)
      → FiltersIf port interfaces (port_filters port interfaces)
  unfolding port_filters port_filter filter_of_ips negations
  port_filters-FiltersIf port [] = tt
  port_filters-FiltersIf port ((name, none) ∷ rest) = λ e. cc
  port_filters-FiltersIf port ((name, some addrs) ∷ rest) =
      go (ips_of addrs) refl (port_filters port rest) (port_filters-FiltersIf port rest)
    where
      go :
          (ips : List ℕ)
          → ips_of addrs ≡ ips
          → (r : NetError ⊎ Map String Filter) → FiltersIf port rest r
          → FiltersIf port ((name, some addrs) ∷ rest) (elim (filter_of_ips name port ips) [
            | inl e ↦ inl e
            | inr f ↦ elim r [ inl e ↦ inl e | inr fs ↦ inr ((name, f) ∷ fs) ]
          ])
      go [] e r h = λ q. cc
      go (ip ∷ ips) e (inl x) h = h
      go (ip ∷ ips) e (inr fs) h = (
        refl,
        refl,
        any_test-tests_of p port (ip ∷ ips) ∙ ap (is_to_or_from p port) (sym e),
        refl,
        h,
      )

  -- By port, without a filter of the user's: if there is a result with outbound filters, it has of
  -- every interface, in their order, an inbound filter that a packet passes exactly if it comes from
  -- or goes to the port on one of the interface's IP addresses, and an outbound one that it passes
  -- exactly if not. With both a port and a filter of the user's there is no result.
  pub create_bpf_filters-splits :
      (interfaces : Interfaces) (port : ℕ)
      → 0 < port
      → SplitsIf port interfaces (create_bpf_filters interfaces none true port)
        × ((f : String)
            → create_bpf_filters interfaces (some f) true port ≡ inl bpf_filter_and_port)
  unfolding create_bpf_filters get_inbound_bpf_filter
  create_bpf_filters-splits interfaces port h = (
    if_cases
        (λ (r : NetError ⊎ Map String Filter).
          SplitsIf port interfaces (elim r [ inl e ↦ inl e | inr fs ↦ inr (fs, negations fs) ]))
        (nat_beq port 0) (λ z. absurd (ground (arith, h, z)))
        (λ _. go (port_filters port interfaces) (port_filters-FiltersIf port interfaces)),
    λ f. ground (arith, h),
  )
    where
      go :
          (r : NetError ⊎ Map String Filter)
          → FiltersIf port interfaces r
          → SplitsIf port interfaces (elim r [ inl e ↦ inl e | inr fs ↦ inr (fs, negations fs) ])
      go (inl e) k = k
      go (inr fs) k = k
