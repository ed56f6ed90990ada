-- ===== src/Trace/RateLimit.antt =====
-- trace/rate_limit.go. The shared limit's lock is held throughout each method, so each is one step
-- of its state. Time is an argument; `run`'s select loop is the choice between `start_new_epoch`
-- and `start_interval`. The moving average is floating-point arithmetic and a parameter, as is the
-- drawing of a random number below a positive bound.
pub mod Limit
pub mod Epoch
pub mod Pairing
pub mod Examples
use observability_cli.Prelude.{
  ℕ, zero, suc, ◌+◌, ◌-◌, Bool, true, false, Option, none, some, List, [], ◌∷◌, ◌++◌, ltb, leb,
  nat_beq, nat_eq, pair_eq, if◌then◌else◌, Map, get, put, delete,
}
use observability_cli.Prelude.Int.{ℤ, pos, negsuc, sub_ℕ, ◌-ℤ◌}
use observability_cli.Net.{
  Traffic, Content, HttpRequest, HttpResponse, http_request, http_response, tcp_packet,
  tcp_connection, client_hello, server_hello, tls_handshake, http2_preface, quic_handshake,
  dropped_bytes, Error,
}
use observability_cli.Collector.{Collector}

-- What the rate limiter is configured with, and the arithmetic that it borrows.
pub record Config : Type 0 where
  pub epoch_time : ℕ
  pub max_duration : ℕ
  -- (1 - alpha) * old + alpha * new
  pub moving_average : ℤ → ℤ → ℤ
  -- rand.Int63n(n), for a positive n
  pub int63n : ℕ → ℕ

pub record SharedRateLimit : Type 0 where
  pub current_epoch_start : ℕ
  pub sample_interval_start : ℕ
  pub sample_interval_active : Bool
  pub sample_interval_count : ℕ
  -- The delay that the interval timer was last set to.
  pub interval_timer : ℕ
  pub witnesses_per_epoch : ℕ
  pub estimated_sample_interval : ℤ
  pub first_estimate : Bool
  -- The child collectors, and what waits in the channels of those whose buffer is full.
  pub children : List ℕ
  pub epoch_channels : Map ℕ ℕ

-- `witness_limit` is the rate per minute times the minutes of an epoch, rounded down.
pub new_rate_limit : ℕ → ℕ → SharedRateLimit
new_rate_limit witness_limit now = record {
  current_epoch_start = now;
  sample_interval_start = 0;
  sample_interval_active = false;
  sample_interval_count = 0;
  interval_timer = 0;
  witnesses_per_epoch = if ltb witness_limit 1 then 1 else witness_limit;
  estimated_sample_interval = pos 0;
  first_estimate = true;
  children = [];
  epoch_channels = [];
}

pub start_interval : SharedRateLimit → ℕ → SharedRateLimit
start_interval r start = record r {
  sample_interval_start = start;
  sample_interval_count = 0;
  sample_interval_active = true;
}

pub allow_other : SharedRateLimit → Bool
allow_other r = r.sample_interval_active

module _ (config : Config) where
  pub end_interval : SharedRateLimit → ℕ → SharedRateLimit
  end_interval r end_time =
      let interval_length = sub_ℕ end_time r.sample_interval_start in
      record r {
        sample_interval_active = false;
        sample_interval_count = 0;
        estimated_sample_interval =
            if r.first_estimate
            then interval_length
            else config.moving_average r.estimated_sample_interval interval_length;
        first_estimate = false;
      }

  pub allow_http_request : SharedRateLimit → ℕ → SharedRateLimit × Bool
  unfolding end_interval
  allow_http_request r now =
      if r.sample_interval_active
      then (
        if leb r.witnesses_per_epoch (r.sample_interval_count + 1)
            then end_interval r now
            else record r { sample_interval_count = r.sample_interval_count + 1 },
        true,
      )
      else (r, false)

  -- `rand.Int63n(int64(upperBound))`; none is its panic on a bound that is not positive.
  pub random_offset : ℤ → Option ℕ
  random_offset (pos zero) = none
  random_offset (pos (suc n)) = some (config.int63n (suc n))
  random_offset (negsuc _) = none

  -- The delay until the next sampling interval.
  pub next_delay : SharedRateLimit → Option ℕ
  unfolding random_offset
  next_delay r =
      if r.first_estimate
      then some 0
      else random_offset (pos config.epoch_time -ℤ r.estimated_sample_interval)

-- The loop over the children: a send that would block is left out.
pub notify : ℕ → List ℕ → Map ℕ ℕ → Map ℕ ℕ
notify threshold [] channels = channels
notify threshold (child ∷ rest) channels =
    notify threshold rest
      (elim (get child channels) [ none ↦ put child threshold channels | some _ ↦ channels ])

module _ (config : Config) where
  -- None is a panic.
  pub start_new_epoch : SharedRateLimit → ℕ → ℕ → Option SharedRateLimit
  unfolding next_delay notify
  start_new_epoch r epoch_start now = elim (next_delay config r) [
    | none ↦ none
    | some delay ↦ some (record r {
      current_epoch_start = now;
      interval_timer = delay;
      epoch_channels = notify (epoch_start - config.max_duration) r.children r.epoch_channels;
    })
  ]

-- A collector that shares the limit, with the state of the next one.
pub record RateLimitCollector (S : Type 0) : Type 0 where
  pub id : ℕ
  -- By stream ID and sequence number.
  pub request_arrival_times : Map (ℕ × ℕ) ℕ
  pub next : S

pub new_collector : {S : Type 0} → SharedRateLimit → ℕ → S → SharedRateLimit × RateLimitCollector S
new_collector r id s = (
  record r { children = r.children ++ id ∷ [] },
  record { id = id; request_arrival_times = []; next = s },
)

-- The loop of `onCollectorClose`: the first child that is the closed one goes.
pub remove_child : ℕ → List ℕ → List ℕ
remove_child closed [] = []
remove_child closed (c ∷ cs) =
    let rest = remove_child closed cs in if nat_beq c closed then cs else c ∷ rest

pub on_collector_close : SharedRateLimit → ℕ → SharedRateLimit
unfolding remove_child
on_collector_close r closed = record r { children = remove_child closed r.children }

pub expire_requests : ℕ → Map (ℕ × ℕ) ℕ → Map (ℕ × ℕ) ℕ
expire_requests threshold [] = []
expire_requests threshold ((k, v) ∷ m) =
    let rest = expire_requests threshold m in if ltb v threshold then rest else (k, v) ∷ rest

module _ {S : Type 0} (config : Config) (collector : Collector S) where
  unfoldable pub process_request :
      SharedRateLimit
      → RateLimitCollector S
      → Traffic
      → HttpRequest
      → ℕ
      → SharedRateLimit × RateLimitCollector S
  process_request r c pnt req now =
      let (r', allowed) = allow_http_request config r now in
      if allowed
      then (
        r',
        record c {
          next = (collector.process c.next pnt).0;
          request_arrival_times =
              put (req.stream_id, req.seq) pnt.observation_time c.request_arrival_times;
        },
      )
      else (r', c)

  unfoldable pub process_response :
      RateLimitCollector S → Traffic → HttpResponse → RateLimitCollector S
  process_response c pnt resp = elim (get (resp.stream_id, resp.seq) c.request_arrival_times) [
    | none ↦ c
    | some _ ↦ record c {
      request_arrival_times = delete (resp.stream_id, resp.seq) c.request_arrival_times;
      next = (collector.process c.next pnt).0;
    }
  ]

  pub process_other : SharedRateLimit → RateLimitCollector S → Traffic → RateLimitCollector S
  process_other r c pnt =
      if allow_other r then record c { next = (collector.process c.next pnt).0 } else c

  -- The `switch` of `Process`.
  pub process_content :
      Content
      → SharedRateLimit
      → RateLimitCollector S
      → Traffic
      → ℕ
      → SharedRateLimit × RateLimitCollector S
  unfolding process_request process_response process_other
  process_content (http_request req) r c pnt now = process_request r c pnt req now
  process_content (http_response resp) r c pnt now = (r, process_response c pnt resp)
  process_content (tcp_packet _) r c pnt now = (r, process_other r c pnt)
  process_content (tcp_connection _) r c pnt now = (r, process_other r c pnt)
  process_content (client_hello _) r c pnt now = (r, process_other r c pnt)
  process_content (server_hello _) r c pnt now = (r, process_other r c pnt)
  process_content (tls_handshake _) r c pnt now = (r, process_other r c pnt)
  process_content http2_preface r c pnt now = (r, process_other r c pnt)
  process_content quic_handshake r c pnt now = (r, process_other r c pnt)
  process_content (dropped_bytes _) r c pnt now = (r, process_other r c pnt)

  -- The receive that does not block.
  pub check_epoch : SharedRateLimit → RateLimitCollector S → SharedRateLimit × RateLimitCollector S
  unfolding expire_requests
  check_epoch r c = elim (get c.id r.epoch_channels) [
    | none ↦ (r, c)
    | some threshold ↦ (
      record r { epoch_channels = delete c.id r.epoch_channels },
      record c { request_arrival_times = expire_requests threshold c.request_arrival_times },
    )
  ]

  -- The error is always nil.
  pub process :
      SharedRateLimit → RateLimitCollector S → Traffic → ℕ → SharedRateLimit × RateLimitCollector S
  process r c pnt now = let (r', c') = process_content pnt.content r c pnt now in check_epoch r' c'

  pub close :
      SharedRateLimit → RateLimitCollector S → SharedRateLimit × RateLimitCollector S × Error
  unfolding on_collector_close
  close r c =
      let (s, err) = collector.close c.next in
      (on_collector_close r c.id, record c { next = s }, err)
