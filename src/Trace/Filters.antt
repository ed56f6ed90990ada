-- ===== src/Trace/Filters.antt =====
-- trace/filters.go: collectors that filter out HTTP requests and the responses to them.
pub mod Responses
use observability_cli.Prelude.{
  ℕ, Bool, true, false, not, Option, none, some, List, [], ◌∷◌, String, nat_eq, if◌then◌else◌, Map,
  get, put,
}
use observability_cli.Net.{
  Traffic, Content, HttpRequest, http_request, http_response, tcp_packet, tcp_connection,
  client_hello, server_hello, tls_handshake, http2_preface, quic_handshake, dropped_bytes, Error,
}
use observability_cli.Collector.{Collector}

-- A regular expression is what its `MatchString` answers.
abbrev pub any_match : List (String → Bool) → String → Bool
any_match [] x = false
any_match (m ∷ ms) x = let rest = any_match ms x in if m x then true else rest

pub http_path_filter : List (String → Bool) → HttpRequest → Bool
http_path_filter matchers r = elim r.url [
  | none ↦ true
  | some url ↦ not (any_match matchers url.url_path)
]

pub http_host_filter : List (String → Bool) → HttpRequest → Bool
http_host_filter matchers r = not (any_match matchers r.host)

pub http_path_allowlist : List (String → Bool) → HttpRequest → Bool
http_path_allowlist matchers r = elim r.url [
  | none ↦ false
  | some url ↦ any_match matchers url.url_path
]

pub http_host_allowlist : List (String → Bool) → HttpRequest → Bool
http_host_allowlist matchers r = any_match matchers r.host

-- `is_tracker_domain` is of the library `trackers`.
pub tracker_filter : (String → Bool) → HttpRequest → Bool
tracker_filter is_tracker_domain r = elim r.url [
  | none ↦ true
  | some url ↦ not (is_tracker_domain url.url_host)
]

-- The IDs of filtered requests, with the state of the next collector.
pub record RequestFilter (S : Type 0) : Type 0 where
  pub filtered_ids : Map ℕ (Unit {0})
  pub next : S

-- `witness_id` is `learn.ToWitnessID`, a UUID made by hashing.
module _ (witness_id : ℕ → ℕ → ℕ) (filter_func : Option (HttpRequest → Bool)) where
  abbrev pub rejects : HttpRequest → Bool
  rejects r = elim filter_func [ none ↦ false | some f ↦ not (f r) ]

  module _ {S : Type 0} (collector : Collector S) where
    pub pass_on : RequestFilter S → Traffic → RequestFilter S × Error
    pass_on c t = let (s, err) = collector.process c.next t in (record c { next = s }, err)

    pub filter_content : Content → RequestFilter S → Traffic → RequestFilter S × Error
    unfolding pass_on
    filter_content (http_request r) c t =
        if rejects r
        then (
          record c { filtered_ids = put (witness_id r.stream_id r.seq) tt c.filtered_ids },
          none,
        )
        else pass_on c t
    filter_content (http_response r) c t =
        elim (get (witness_id r.stream_id r.seq) c.filtered_ids) [
          | some _ ↦ (c, none)
          | none ↦ pass_on c t
        ]
    filter_content (tcp_packet _) c t = pass_on c t
    filter_content (tcp_connection _) c t = pass_on c t
    filter_content (client_hello _) c t = pass_on c t
    filter_content (server_hello _) c t = pass_on c t
    filter_content (tls_handshake _) c t = pass_on c t
    filter_content http2_preface c t = pass_on c t
    filter_content quic_handshake c t = pass_on c t
    filter_content (dropped_bytes _) c t = pass_on c t

    pub request_filter : Collector (RequestFilter S)
    unfolding filter_content
    request_filter = record {
      process = λ c t. filter_content t.content c t;
      close = λ c. let (s, err) = collector.close c.next in (record c { next = s }, err);
    }
