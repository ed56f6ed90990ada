-- ===== src/Apispec/Har/Entries.antt =====
-- What apispec/har.go hands to the collector, and what it counts.
use observability_cli.Prelude.{
  ℕ, suc, ◌+◌, ◌≡◌, refl, sym, ap, ◌∙◌, true, false, Option, none, some, List, [], ◌∷◌, ◌++◌,
  nat_beq, arith, if◌then◌else◌,
}
use observability_cli.Net.{Traffic, http_request, http_response, Error}
use observability_cli.Collector.{Collector}
use observability_cli.Collector.Run.{process_all, process_all-append}
use observability_cli.Collector.SampledErrors.{SampledErrors}
use observability_cli.Apispec.Har.{
  Milliseconds, CustomHarEntry, ReconstructedTimestamps, FromHar, Progress, har_traffic,
  reconstruct_from_har, process_half, process_request, process_response, process_har_entry,
  parse_entries, parse_from_har,
}

-- What one half of an entry has to give: the traffic of a half that converts.
abbrev pub if_converted : Error → Traffic → List Traffic
if_converted none t = t ∷ []
if_converted (some _) t = []

abbrev pub failures : Error → ℕ
failures none = 0
failures (some _) = 1

module _ {Rq Rs : Type 0} (from_har : FromHar Rq Rs) where
  abbrev pub request_traffic : ReconstructedTimestamps → ℕ → ℕ → Option Rq → List Traffic
  request_traffic ts u i none = []
  request_traffic ts u i (some r) =
      let (req, err) = from_har.convert_request r in
      if_converted err (
        har_traffic ts.request_start ts.request_end
          (http_request (record req { stream_id = u; seq = i })))

  abbrev pub response_traffic : ReconstructedTimestamps → ℕ → ℕ → Option Rs → List Traffic
  response_traffic ts u i none = []
  response_traffic ts u i (some r) =
      let (resp, err) = from_har.convert_response r in
      if_converted err (
        har_traffic ts.response_start ts.response_end
          (http_response (record resp { stream_id = u; seq = i })))

module _ {F Rq Rs : Type 0} (from_har : FromHar Rq Rs) where
  abbrev pub entry_failures : CustomHarEntry F Rq Rs → ℕ
  entry_failures entry =
      elim entry.request [ none ↦ 0 | some r ↦ failures (from_har.convert_request r).1 ]
      + elim entry.response [ none ↦ 0 | some r ↦ failures (from_har.convert_response r).1 ]

  abbrev pub total_failures : List (CustomHarEntry F Rq Rs) → ℕ
  total_failures [] = 0
  total_failures (entry ∷ entries) = entry_failures entry + total_failures entries

  -- The entries all of whose halves convert.
  abbrev pub converted_entries : List (CustomHarEntry F Rq Rs) → ℕ
  converted_entries [] = 0
  converted_entries (entry ∷ entries) =
      (if nat_beq (entry_failures entry) 0 then 1 else 0) + converted_entries entries

module _ {F Rq Rs : Type 0} (ms : Milliseconds F) (from_har : FromHar Rq Rs) where
  -- The halves that convert, each with the file's UUID and the entry's index.
  abbrev pub traffic_of : ℕ → ℕ → List (CustomHarEntry F Rq Rs) → List Traffic
  traffic_of u i [] = []
  traffic_of u i (entry ∷ entries) =
      let ts = reconstruct_from_har ms entry in
      request_traffic from_har ts u i entry.request
      ++ response_traffic from_har ts u i entry.response
      ++ traffic_of u (suc i) entries

module _ {S E : Type 0} (col : Collector S) (sampled : SampledErrors E) where
  -- One half, in terms of what it gives.
  abbrev Gives : Progress S E → List Traffic → ℕ → Progress S E → Type 0
  Gives (s, errs, success) ts n (s', errs', success') =
      (s' ≡ process_all col s ts)
      × (sampled.total_count errs' ≡ sampled.total_count errs + n)
      × (success' ≡ (if nat_beq n 0 then success else false))

  process_half-Gives :
      (p : Progress S E) (err : Error) (t : Traffic)
      → Gives p (if_converted err t) (failures err) (process_half col sampled p err t)
  unfolding process_half process_all
  process_half-Gives (s, errs, success) none t = (refl, omega arith, refl)
  process_half-Gives (s, errs, success) (some e) t =
      (refl, omega (arith, sampled.total_count-add errs e), refl)

module _ {S E Rq Rs : Type 0} (col : Collector S) (sampled : SampledErrors E)
    (from_har : FromHar Rq Rs) where
  process_request-Gives :
      (ts : ReconstructedTimestamps) (u i : ℕ) (p : Progress S E) (o : Option Rq)
      → Gives col sampled p
          (request_traffic from_har ts u i o)
          (elim o [ none ↦ 0 | some r ↦ failures (from_har.convert_request r).1 ])
          (process_request col sampled from_har ts u i p o)
  unfolding process_request process_all
  process_request-Gives ts u i p none = (refl, omega arith, refl)
  process_request-Gives ts u i p (some r) =
      process_half-Gives col sampled p (from_har.convert_request r).1 _

  process_response-Gives :
      (ts : ReconstructedTimestamps) (u i : ℕ) (p : Progress S E) (o : Option Rs)
      → Gives col sampled p
          (response_traffic from_har ts u i o)
          (elim o [ none ↦ 0 | some r ↦ failures (from_har.convert_response r).1 ])
          (process_response col sampled from_har ts u i p o)
  unfolding process_response process_all
  process_response-Gives ts u i p none = (refl, omega arith, refl)
  process_response-Gives ts u i p (some r) =
      process_half-Gives col sampled p (from_har.convert_response r).1 _

module _ {S E F Rq Rs : Type 0} (col : Collector S) (sampled : SampledErrors E)
    (ms : Milliseconds F) (from_har : FromHar Rq Rs) where
  process_har_entry-Gives :
      (s : S) (errs : E) (u i : ℕ) (entry : CustomHarEntry F Rq Rs)
      → let ts = reconstruct_from_har ms entry in
        Gives col sampled
          (s, errs, true)
          (request_traffic from_har ts u i entry.request
            ++ response_traffic from_har ts u i entry.response)
          (entry_failures from_har entry)
          (process_har_entry col sampled ms from_har s errs u i entry)
  unfolding process_har_entry
  process_har_entry-Gives s errs u i entry =
      let ts = reconstruct_from_har ms entry in
      let half = process_request col sampled from_har ts u i (s, errs, true) entry.request in
      let (s1, n1, b1) =
        process_request-Gives col sampled from_har ts u i (s, errs, true) entry.request in
      let (s2, n2, b2) = process_response-Gives col sampled from_har ts u i half entry.response in
      (
        s2
            ∙ ap (λ r. process_all col r (response_traffic from_har ts u i entry.response)) s1
            ∙ sym (process_all-append col s (request_traffic from_har ts u i entry.request) _),
        omega (arith, n1, n2),
        ground (arith, b1, b2),
      )

  parse_entries-Gives :
      (s : S) (errs : E) (u i n : ℕ) (entries : List (CustomHarEntry F Rq Rs))
      → let (s', errs', n') = parse_entries col sampled ms from_har s errs u i n entries in
        (s' ≡ process_all col s (traffic_of ms from_har u i entries))
        × (sampled.total_count errs' ≡ sampled.total_count errs + total_failures from_har entries)
        × (n' ≡ n + converted_entries from_har entries)
  unfolding parse_entries process_all
  parse_entries-Gives s errs u i n [] = (refl, omega arith, omega arith)
  parse_entries-Gives s errs u i n (entry ∷ entries) =
      let ts = reconstruct_from_har ms entry in
      let halves =
        request_traffic from_har ts u i entry.request
        ++ response_traffic from_har ts u i entry.response in
      let (s', errs', success) = process_har_entry col sampled ms from_har s errs u i entry in
      let (state, count, ok) = process_har_entry-Gives s errs u i entry in
      let n' : ℕ = if success then suc n else n in
      let (state', count', ok') = parse_entries-Gives s' errs' u (suc i) n' entries in
      (
        state'
            ∙ ap (λ r. process_all col r (traffic_of ms from_har u (suc i) entries)) state
            ∙ sym (process_all-append col s halves (traffic_of ms from_har u (suc i) entries)),
        omega (arith, count, count'),
        ground (arith, ok, ok'),
      )

  -- Of the entries of a HAR file, in order, the collector is given exactly the requests and
  -- responses that convert, each under the file's UUID and its entry's index, whatever its Process
  -- returns; as many errors are kept count of as halves do not convert; and the number returned is
  -- that of the entries all of whose halves convert.
  pub parse_from_har-all :
      (s : S) (u : ℕ) (entries : List (CustomHarEntry F Rq Rs))
      → let (s', errs, n) = parse_from_har col sampled ms from_har s u entries in
        (s' ≡ process_all col s (traffic_of ms from_har u 0 entries))
        × (sampled.total_count errs ≡ total_failures from_har entries)
        × (n ≡ converted_entries from_har entries)
  unfolding parse_from_har
  parse_from_har-all s u entries =
      let (state, count, ok) = parse_entries-Gives s (sampled.empty 3) u 0 0 entries in
      (state, omega (arith, count, sampled.total_count-empty 3), omega (arith, ok))
