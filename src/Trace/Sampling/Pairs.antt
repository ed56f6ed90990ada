-- ===== src/Trace/Sampling/Pairs.antt =====
-- Whole runs of the sampler and of the filter of the agent's own traffic.
use observability_cli.Prelude.{
  ◌≡◌, refl, ap, ◌∙◌, Bool, true, false, not, none, String, List, [], ◌∷◌, filter_by,
  filter_by-append, ◌++◌, if◌then◌else◌, ◌⊎◌, arith,
}
use observability_cli.Net.{Traffic, HttpRequest, HttpResponse, http_request, http_response}
use observability_cli.Collector.{Collector}
use observability_cli.Collector.Run.{process_all}
use observability_cli.Trace.Sampling.{
  Sampler, include_sample, sample_key, sampling_collector, contains_cli_traffic,
  user_traffic_collector,
}

-- A collector that drops what fails the test.
module _ {S : Type 0} (collector : Collector S) (p : Traffic → Bool) where
  process_all-if :
      (b : Bool) (s : S) (t : Traffic) (ts : List Traffic)
      → process_all collector (if b then collector.process s t else (s, none)).0 ts
        ≡ process_all collector s (if b then t ∷ ts else ts)
  unfolding process_all
  process_all-if true s t ts = refl
  process_all-if false s t ts = refl

  process_all-filter :
      (dropping : Collector S)
      → ((s : S) (t : Traffic)
          → dropping.process s t ≡ (if p t then collector.process s t else (s, none)))
      → (s : S) (ts : List Traffic)
      → process_all dropping s ts ≡ process_all collector s (filter_by p ts)
  unfolding process_all
  process_all-filter dropping h s [] = refl
  process_all-filter dropping h s (t ∷ ts) =
      process_all-filter dropping h (dropping.process s t).0 ts
      ∙ ap (λ r. process_all collector r.0 (filter_by p ts)) (h s t)
      ∙ process_all-if (p t) s t (filter_by p ts)

-- Whether the sampler takes the traffic.
abbrev pub is_sampled : Sampler → Traffic → Bool
is_sampled sampling t = include_sample sampling (sample_key sampling t.content)

module _ (sampling : Sampler) {S : Type 0} (collector : Collector S) where
  process_all-sampling_collector :
      (s : S) (ts : List Traffic)
      → process_all (sampling_collector sampling collector) s ts
        ≡ process_all collector s (filter_by (is_sampled sampling) ts)
  unfolding sampling_collector
  process_all-sampling_collector =
      process_all-filter collector (is_sampled sampling) (sampling_collector sampling collector)
        (λ s t. refl)

  pair-key :
      (a b : Traffic) (r : HttpRequest) (p : HttpResponse)
      → a.content ≡ http_request r
      → b.content ≡ http_response p
      → r.stream_id ≡ p.stream_id
      → r.seq ≡ p.seq
      → is_sampled sampling a ≡ is_sampled sampling b
  unfolding sample_key
  pair-key a b r p ea eb e f = cc

  -- Sampling never splits an exchange: of a request and a response with one stream ID and sequence
  -- number, anywhere in the traffic, the next collector gets both or neither, in their places among
  -- the sampled part of the other traffic.
  pub sampling_collector-pair :
      (s : S) (a b : Traffic) (r : HttpRequest) (p : HttpResponse)
      (before between after : List Traffic)
      → a.content ≡ http_request r
      → b.content ≡ http_response p
      → r.stream_id ≡ p.stream_id
      → r.seq ≡ p.seq
      → (process_all
            (sampling_collector sampling collector)
            s
            (before ++ a ∷ (between ++ b ∷ after))
          ≡ process_all collector s (
              filter_by (is_sampled sampling) before
              ++ a
                ∷ (filter_by (is_sampled sampling) between
                    ++ b ∷ filter_by (is_sampled sampling) after)))
        ⊎ (process_all
              (sampling_collector sampling collector)
              s
              (before ++ a ∷ (between ++ b ∷ after))
            ≡ process_all collector s (
                filter_by (is_sampled sampling) before
                ++ (filter_by (is_sampled sampling) between
                    ++ filter_by (is_sampled sampling) after)))
  sampling_collector-pair s a b r p before between after ea eb e f = ground (
    arith,
    pair-key a b r p ea eb e f,
    process_all-sampling_collector s (before ++ a ∷ (between ++ b ∷ after)),
    filter_by-append (is_sampled sampling) before (a ∷ (between ++ b ∷ after)),
    filter_by-append (is_sampled sampling) between (b ∷ after),
  )

module _ (cli_git_version request_id : String) {S : Type 0} (collector : Collector S) where
  -- The next collector gets just the traffic that the agent did not cause itself.
  pub process_all-user_traffic_collector :
      (s : S) (ts : List Traffic)
      → process_all (user_traffic_collector cli_git_version request_id collector) s ts
        ≡ process_all collector s
            (filter_by (λ t. not (contains_cli_traffic cli_git_version request_id t.content)) ts)
  unfolding user_traffic_collector
  process_all-user_traffic_collector =
      process_all-filter collector
        (λ t. not (contains_cli_traffic cli_git_version request_id t.content))
        (user_traffic_collector cli_git_version request_id collector)
        (λ s t. swap_if (contains_cli_traffic cli_git_version request_id t.content) s t)
    where
      swap_if :
          (b : Bool) (s : S) (t : Traffic)
          → (if b then (s, none) else collector.process s t)
            ≡ (if not b then collector.process s t else (s, none))
      swap_if true s t = refl
      swap_if false s t = refl
