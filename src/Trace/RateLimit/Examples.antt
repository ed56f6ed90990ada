-- ===== src/Trace/RateLimit/Examples.antt =====
-- The rate limiter of trace/rate_limit.go with a budget of two.
use observability_cli.Prelude.{
  ℕ, ◌+◌, ◌-◌, ◌≡◌, ◌<◌, ◌≤◌, refl, true, false, none, [], ◌∷◌, arith, get, Map, IsMap, nat_eq,
  pair_eq, ◌↔◌,
}
use observability_cli.Prelude.Int.{pos}
use observability_cli.Net.{Traffic, http_request, http_response, Content}
use observability_cli.Trace.RateLimit.{Config, SharedRateLimit, start_new_epoch}
use observability_cli.Trace.RateLimit.Limit.{Inv, allow_all, allow_all-count}
use observability_cli.Trace.RateLimit.Epoch.{start_new_epoch-none}
use observability_cli.Trace.RateLimit.Pairing.{
  get-expire_requests, process-next, Recording, Paired, run-Paired, admits,
}
use observability_cli.Trace.RateLimit.Pairing

abbrev config : Config
config = record {
  epoch_time = 300;
  max_duration = 600;
  moving_average = λ a b. b;
  int63n = λ n. n - 1;
}

-- An interval that began at time 1000, with one of two witnesses taken.
abbrev running : SharedRateLimit
running = record {
  current_epoch_start = 1000;
  sample_interval_start = 1000;
  sample_interval_active = true;
  sample_interval_count = 1;
  interval_timer = 0;
  witnesses_per_epoch = 2;
  estimated_sample_interval = pos 120;
  first_estimate = false;
  children = 1 ∷ [];
  epoch_channels = [];
}

running-Inv : Inv running
running-Inv = ground arith

allow_all-count_example : (allow_all config running (1020 ∷ 1021 ∷ 1022 ∷ [])).1 ≡ 1
allow_all-count_example = allow_all-count config running (1020 ∷ 1021 ∷ 1022 ∷ []) running-Inv

-- An estimate that has grown to a whole epoch.
abbrev slow : SharedRateLimit
slow = record running { estimated_sample_interval = pos 300 }

start_new_epoch-none_example :
    (start_new_epoch config slow 1300 1300 ≡ none) ↔ ((false ≡ false) × (300 + 0 ≤ 300))
start_new_epoch-none_example = start_new_epoch-none config slow 1300 1300

slow_panics : start_new_epoch config slow 1300 1300 ≡ none
slow_panics = start_new_epoch-none_example.1 (refl, omega arith)

int63n_below : (n : ℕ) → 0 < n → config.int63n n < n
int63n_below n h = omega arith

abbrev waiting : Map (ℕ × ℕ) ℕ
waiting = ((7, 0), 100) ∷ ((7, 1), 900) ∷ []

waiting-IsMap : IsMap waiting
waiting-IsMap = (((λ e. ground arith), tt), (tt, tt))

abbrev child : Recording
child = record { id = 1; request_arrival_times = []; next = [] }

abbrev exchange : Content → Traffic
exchange x = record {
  src_ip = 1;
  src_port = 5000;
  dst_ip = 2;
  dst_port = 80;
  interface = "eth0";
  content = x;
  observation_time = 1010;
  final_packet_time = 1011;
}

abbrev request : Traffic
request =
    exchange (http_request (record { stream_id = 7; seq = 0; host = "a"; url = none; header = [] }))

abbrev response : Traffic
response = exchange (http_response (record { stream_id = 7; seq = 0; header = [] }))

run-Paired_example :
    Paired
      (7, 0)
      (Pairing.run config child ((running, (request, 1010)) ∷ (running, (response, 1012)) ∷ []))
unfolding get
run-Paired_example =
    run-Paired config (7, 0) child ((running, (request, 1010)) ∷ (running, (response, 1012)) ∷ [])
      (omega arith)
