-- ===== src/Apidump/Net/Examples.antt =====
-- Interfaces and filters of apidump/net.go.
use observability_cli.Prelude.{
  ◌≡◌, refl, inl, inr, true, false, none, some, List, [], ◌∷◌, String, string_eq, ◌==◌, arith, put,
  delete,
}
use observability_cli.Apidump.Net.{
  ip_net, ip_addr, other_addr, NetInterface, Host, Interfaces, bpf_filter_and_port,
  get_eligible_interfaces, automatic_interfaces, collect, permitted, check_pcap_permissions,
  delete_all, create_bpf_filters,
}
use observability_cli.Apidump.Net.Interfaces.{Picks, get_eligible_interfaces-Picks}
use observability_cli.Apidump.Net.Filters.{Packet, SplitsIf, create_bpf_filters-splits}

abbrev machine : List NetInterface
machine =
    record { name = "lo"; flag_up = true; addrs = some (ip_net 127 ∷ []) }
    ∷ record { name = "eth0"; flag_up = true; addrs = some (other_addr ∷ ip_addr 10 ∷ []) }
    ∷ record { name = "eth1"; flag_up = false; addrs = some (ip_addr 11 ∷ []) }
    ∷ record { name = "wlan0"; flag_up = true; addrs = some [] }
    ∷ []

-- Nothing may be captured on `lo`.
abbrev host : Host
host = record {
  interface_by_name = λ _. none;
  interfaces = some machine;
  open_live = λ n. elim (n == "lo") [ true ↦ some "Operation not permitted" | false ↦ none ];
  contains = λ a b. a == b;
}

get_eligible_interfaces-Picks_example : Picks host "eth0" machine (get_eligible_interfaces host [])
get_eligible_interfaces-Picks_example = get_eligible_interfaces-Picks host machine refl "eth0"

eligible :
    get_eligible_interfaces host [] ≡ inr (("eth0", some (other_addr ∷ ip_addr 10 ∷ [])) ∷ [])
unfolding get_eligible_interfaces automatic_interfaces collect permitted check_pcap_permissions
    delete_all put delete
eligible = refl

abbrev packet : Packet
packet = record { src_ip = 9; src_port = 5000; dst_ip = 10; dst_port = 80 }

abbrev interfaces : Interfaces
interfaces = ("eth0", some (other_addr ∷ ip_addr 10 ∷ [])) ∷ ("lo", some (ip_net 127 ∷ [])) ∷ []

create_bpf_filters-splits_example :
    SplitsIf (λ _ _. true) packet 80 interfaces (create_bpf_filters interfaces none true 80)
    × ((f : String) → create_bpf_filters interfaces (some f) true 80 ≡ inl bpf_filter_and_port)
create_bpf_filters-splits_example =
    create_bpf_filters-splits (λ _ _. true) packet interfaces 80 (omega arith)
