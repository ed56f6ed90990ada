-- ===== src/Apidump/Net.antt =====
-- apidump/net.go: which interfaces are listened on, and with which filters. A filter is the
-- expression that its text is, in the syntax of the library `pcap`.
pub mod Interfaces
pub mod Filters
pub mod Examples
use observability_cli.Prelude.{
  ℕ, ◌⊎◌, inl, inr, Bool, true, false, Option, none, some, List, [], ◌∷◌, ◌++◌, String, string_eq,
  nat_beq, ltb, if◌then◌else◌, Map, put, delete,
}
use observability_cli.Net.{Error}

-- net.Addr: its kinds with an address, and others.
pub data Addr : Type 0 where
  ip_addr ip_net tcp_addr udp_addr : ℕ → Addr
  other_addr : Addr

-- net.Interface, with the addresses that `Addrs` finds; none is its error.
pub record NetInterface : Type 0 where
  pub name : String
  pub flag_up : Bool
  pub addrs : Option (List Addr)

pub data NetError : Type 0 where
  interface_not_found : String → NetError
  pcap_permission : NetError
  pcap_interface_not_implemented : NetError
  pcap_interface_other : NetError
  no_interface_list : NetError
  no_addresses : String → NetError
  no_ip_addresses : String → NetError
  bpf_filter_and_port : NetError

-- What the code asks of its surroundings: `net.InterfaceByName`, `net.Interfaces`, the error of
-- `pcap.OpenLive` on an interface, and `strings.Contains`.
pub record Host : Type 0 where
  pub interface_by_name : String → Option NetInterface
  pub interfaces : Option (List NetInterface)
  pub open_live : String → Error
  pub contains : String → String → Bool

-- Results are the names with the addresses; none where `Addrs` is an error.
abbrev pub Interfaces : Type 0
Interfaces = Map String (Option (List Addr))

-- The loop over the interfaces of the machine.
unfoldable pub collect : List NetInterface → Interfaces → NetError ⊎ Interfaces
collect [] results = inr results
collect (iface ∷ ifaces) results =
    let skipped = collect ifaces results in
    if iface.flag_up
    then elim iface.addrs [
      | none ↦ inl (no_addresses iface.name)
      | some [] ↦ skipped
      | some (a ∷ more) ↦ collect ifaces (put iface.name (some (a ∷ more)) results)
    ]
    else skipped

unfoldable pub delete_all : Map String String → Interfaces → Interfaces
delete_all [] results = results
delete_all ((name, _) ∷ errs) results = delete_all errs (delete name results)

module _ (host : Host) where
  unfoldable pub show_permission_errors : String → NetError
  show_permission_errors message =
      if host.contains message "Operation not permitted"
      then pcap_permission
      else if host.contains message
          "SIOCETHTOOL(ETHTOOL_GET_TS_INFO) ioctl failed: Function not implemented"
      then pcap_interface_not_implemented
      else pcap_interface_other

  -- The interfaces that cannot be captured from, with their errors.
  unfoldable pub check_pcap_permissions : Interfaces → Map String String
  check_pcap_permissions [] = []
  check_pcap_permissions ((name, _) ∷ rest) =
      let errs = check_pcap_permissions rest in
      elim (host.open_live name) [ none ↦ errs | some e ↦ (name, e) ∷ errs ]

  -- The loop over the names that the user gave.
  unfoldable pub find_all : List String → Interfaces → NetError ⊎ Interfaces
  find_all [] results = inr results
  find_all (n ∷ ns) results = elim (host.interface_by_name n) [
    | none ↦ inl (interface_not_found n)
    | some iface ↦ find_all ns (put n iface.addrs results)
  ]

  unfoldable pub user_specified_interfaces : List String → NetError ⊎ Interfaces
  user_specified_interfaces names = elim (find_all names []) [
    | inl e ↦ inl e
    | inr results ↦ elim (check_pcap_permissions results) [
      | [] ↦ inr results
      | (_, err) ∷ _ ↦ inl (show_permission_errors err)
    ]
  ]

  -- The error that is reported if no interface is left: the last one.
  unfoldable pub sample_error : Map String String → NetError
  sample_error [] = pcap_interface_other
  sample_error ((_, e) ∷ errs) =
      let rest = sample_error errs in elim errs [ [] ↦ show_permission_errors e | _ ∷ _ ↦ rest ]

  unfoldable pub permitted : Interfaces → NetError ⊎ Interfaces
  permitted results =
      let errs = check_pcap_permissions results in
      let left = delete_all errs results in
      elim left [ [] ↦ inl (sample_error errs) | kept ∷ rest ↦ inr (kept ∷ rest) ]

  unfoldable pub automatic_interfaces : NetError ⊎ Interfaces
  automatic_interfaces = elim host.interfaces [
    | none ↦ inl no_interface_list
    | some ifaces ↦ elim (collect ifaces []) [ inl e ↦ inl e | inr results ↦ permitted results ]
  ]

  unfoldable pub get_eligible_interfaces : List String → NetError ⊎ Interfaces
  get_eligible_interfaces [] = automatic_interfaces
  get_eligible_interfaces (n ∷ ns) = user_specified_interfaces (n ∷ ns)

pub data Direction : Type 0 where
  src dst : Direction

-- The expressions: the user's own text, the empty one, which every packet passes, tests
-- `(dir host ip and dir port p)` joined by `or`, and `not (f)`.
pub data Filter : Type 0 where
  user_filter : String → Filter
  no_filter : Filter
  any_of : List (Direction × ℕ × ℕ) → Filter
  negation : Filter → Filter

unfoldable pub ips_of : List Addr → List ℕ
ips_of [] = []
ips_of (ip_addr ip ∷ rest) = ip ∷ ips_of rest
ips_of (ip_net ip ∷ rest) = ip ∷ ips_of rest
ips_of (tcp_addr ip ∷ rest) = ip ∷ ips_of rest
ips_of (udp_addr ip ∷ rest) = ip ∷ ips_of rest
ips_of (other_addr ∷ rest) = ips_of rest

unfoldable pub tests_of : ℕ → List ℕ → List (Direction × ℕ × ℕ)
tests_of port [] = []
tests_of port (ip ∷ ips) = (src, ip, port) ∷ (dst, ip, port) ∷ tests_of port ips

-- The same filter on every interface.
unfoldable pub same_filter : Filter → Interfaces → Map String Filter
same_filter f [] = []
same_filter f ((name, _) ∷ rest) = (name, f) ∷ same_filter f rest

unfoldable pub filter_of_ips : String → ℕ → List ℕ → NetError ⊎ Filter
filter_of_ips name port [] = inl (no_ip_addresses name)
filter_of_ips name port (ip ∷ ips) = inr (any_of (tests_of port (ip ∷ ips)))

-- The filter of one interface by port.
unfoldable pub port_filter : String → ℕ → Option (List Addr) → NetError ⊎ Filter
port_filter name port none = inl (no_addresses name)
port_filter name port (some addrs) = filter_of_ips name port (ips_of addrs)

unfoldable pub port_filters : ℕ → Interfaces → NetError ⊎ Map String Filter
port_filters port [] = inr []
port_filters port ((name, addrs) ∷ rest) = elim (port_filter name port addrs) [
  | inl e ↦ inl e
  | inr f ↦ elim (port_filters port rest) [ inl e ↦ inl e | inr fs ↦ inr ((name, f) ∷ fs) ]
]

-- `bpf_filter` is none for the empty text.
unfoldable pub get_inbound_bpf_filter :
    Interfaces → Option String → ℕ → NetError ⊎ Map String Filter
get_inbound_bpf_filter interfaces (some f) port =
    if ltb 0 port then inl bpf_filter_and_port else inr (same_filter (user_filter f) interfaces)
get_inbound_bpf_filter interfaces none port =
    let filters = port_filters port interfaces in
    if nat_beq port 0 then inr (same_filter no_filter interfaces) else filters

-- An empty filter has no outbound one.
unfoldable pub negations : Map String Filter → Map String Filter
negations [] = []
negations ((name, no_filter) ∷ fs) = negations fs
negations ((name, f) ∷ fs) = (name, negation f) ∷ negations fs

unfoldable pub create_bpf_filters :
    Interfaces → Option String → Bool → ℕ → NetError ⊎ (Map String Filter × Map String Filter)
create_bpf_filters interfaces bpf_filter create_outbound port =
    elim (get_inbound_bpf_filter interfaces bpf_filter port) [
      | inl e ↦ inl e
      | inr inbound ↦ inr (inbound, if create_outbound then negations inbound else [])
    ]
