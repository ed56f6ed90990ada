-- ===== src/Trace/RateLimit/Pairing.antt =====
-- What a rate-limited collector of trace/rate_limit.go lets through: requests within the budget, and
-- the responses of those.
use observability_cli.Prelude.{
  ℕ, ◌+◌, ◌≤◌, ◌≡◌, refl, ◌∙◌, Bool, true, false, none, some, List, [], ◌∷◌, ◌++◌, arith,
  if◌then◌else◌, ltb, pair_beq, pair_eq, pair_beq_iff, nat_eq, Map, get, get-put, get-delete, IsMap,
  Fresh-get, count_if, count_if-append, append-nil, option_cases,
}
use observability_cli.Net.{Traffic, Content, http_request, http_response}
use observability_cli.Collector.Run.{recorder}
use observability_cli.Trace.RateLimit.{
  Config, SharedRateLimit, RateLimitCollector, allow_http_request, allow_other, expire_requests,
  process_content, check_epoch, process,
}

-- In a map without double keys, an expiry keeps a remembered request exactly if it did not arrive
-- before the threshold, with the time that it had.
pub get-expire_requests :
    (threshold : ℕ) (k : ℕ × ℕ) (m : Map (ℕ × ℕ) ℕ)
    → IsMap m
    → get k (expire_requests threshold m) ≡ elim (get k m) [
      | none ↦ none
      | some arrival ↦ if ltb arrival threshold then none else some arrival
    ]
unfolding expire_requests get
get-expire_requests threshold k [] h = refl
get-expire_requests threshold k ((j, v) ∷ m) h =
    ground (arith, get-expire_requests threshold k m h.1, pair_beq_iff j k, Fresh-get j m h.0)

abbrev pub is_request : ℕ × ℕ → Traffic → Bool
is_request k t = elim t.content [ http_request q ↦ pair_beq (q.stream_id, q.seq) k | _ ↦ false ]

abbrev pub is_response : ℕ × ℕ → Traffic → Bool
is_response k t = elim t.content [ http_response q ↦ pair_beq (q.stream_id, q.seq) k | _ ↦ false ]

abbrev pub is_pending : ℕ × ℕ → Map (ℕ × ℕ) ℕ → Bool
is_pending k m = elim (get k m) [ none ↦ false | some _ ↦ true ]

abbrev pub pending : ℕ × ℕ → Map (ℕ × ℕ) ℕ → ℕ
pending k m = elim (get k m) [ none ↦ 0 | some _ ↦ 1 ]

-- What is let through: a response of a remembered request, anything else during an interval.
abbrev pub admits : SharedRateLimit → Map (ℕ × ℕ) ℕ → Content → Bool
admits r m (http_response q) = is_pending (q.stream_id, q.seq) m
admits r m _ = r.sample_interval_active

abbrev pub Recording : Type 0
Recording = RateLimitCollector (List Traffic)

-- No key has been answered more often than it was asked, what is still open counted in.
abbrev pub Paired : ℕ × ℕ → Recording → Type 0
Paired k c =
    count_if (is_response k) c.next + pending k c.request_arrival_times
    ≤ count_if (is_request k) c.next

pending-expire_requests :
    (threshold : ℕ) (k : ℕ × ℕ) (m : Map (ℕ × ℕ) ℕ)
    → pending k (expire_requests threshold m) ≤ pending k m
unfolding expire_requests get
pending-expire_requests threshold k [] = omega arith
pending-expire_requests threshold k ((j, v) ∷ m) =
    ground (arith, pending-expire_requests threshold k m)

module _ (config : Config) where
  content-next :
      (x : Content) (r : SharedRateLimit) (c : Recording) (t : Traffic) (now : ℕ)
      → (process_content config recorder x r c t now).1.next
        ≡ c.next ++ (if admits r c.request_arrival_times x then t ∷ [] else [])
  unfolding process_content allow_http_request allow_other
  content-next (http_request q) r c t now = ground (arith, append-nil c.next)
  content-next (http_response q) r c t now = ground (arith, append-nil c.next)
  content-next _ r c t now = ground (arith, append-nil c.next)

  check_epoch-next :
      (r : SharedRateLimit) (c : Recording) → (check_epoch config recorder r c).1.next ≡ c.next
  unfolding check_epoch
  check_epoch-next r c = ground arith

  -- `Process` hands a packet on, once and unchanged, exactly if it is a response to a remembered
  -- request, or anything but a response while a sample interval runs.
  pub process-next :
      (r : SharedRateLimit) (c : Recording) (t : Traffic) (now : ℕ)
      → (process config recorder r c t now).1.next
        ≡ c.next ++ (if admits r c.request_arrival_times t.content then t ∷ [] else [])
  unfolding process
  process-next r c t now =
      let (r', c') = process_content config recorder t.content r c t now in
      check_epoch-next r' c' ∙ content-next t.content r c t now

  content-Paired :
      (k : ℕ × ℕ) (x : Content) (r : SharedRateLimit) (c : Recording) (t : Traffic) (now : ℕ)
      → t.content ≡ x
      → Paired k c
      → Paired k (process_content config recorder x r c t now).1
  unfolding process_content allow_http_request allow_other
  content-Paired k (http_request q) r c t now e h =
      let key : ℕ × ℕ = (q.stream_id, q.seq) in
      ground (
        arith,
        count_if-append (is_response k) c.next (t ∷ []),
        count_if-append (is_request k) c.next (t ∷ []),
        get-put key k t.observation_time c.request_arrival_times,
      )
  content-Paired k (http_response q) r c t now e h =
      let key : ℕ × ℕ = (q.stream_id, q.seq) in
      ground (
        arith,
        count_if-append (is_response k) c.next (t ∷ []),
        count_if-append (is_request k) c.next (t ∷ []),
        get-delete key k c.request_arrival_times,
        pair_beq_iff key k,
      )
  content-Paired k x r c t now e h = ground (
    arith,
    count_if-append (is_response k) c.next (t ∷ []),
    count_if-append (is_request k) c.next (t ∷ []),
  )

  check_epoch-Paired :
      (k : ℕ × ℕ) (r : SharedRateLimit) (c : Recording)
      → Paired k c
      → Paired k (check_epoch config recorder r c).1
  unfolding check_epoch
  check_epoch-Paired k r c h =
      option_cases (λ (x : SharedRateLimit × Recording). Paired k x.1) (get c.id r.epoch_channels)
        (λ _. h)
        (λ threshold _. omega (arith, pending-expire_requests threshold k c.request_arrival_times))

  -- A call of `Process` meets the shared limit in any state, as other collectors have left it.
  unfoldable pub run : Recording → List (SharedRateLimit × (Traffic × ℕ)) → Recording
  run c [] = c
  run c ((r, (t, now)) ∷ calls) = run (process config recorder r c t now).1 calls

  -- Whatever the shared limit does, if so before the run: of the packets that a collector has
  -- handed on the responses under a key, and the request that is still open under it, are never
  -- more than its requests.
  pub run-Paired :
      (k : ℕ × ℕ) (c : Recording) (calls : List (SharedRateLimit × (Traffic × ℕ)))
      → Paired k c
      → Paired k (run c calls)
  unfolding run process
  run-Paired k c [] h = h
  run-Paired k c ((r, (t, now)) ∷ calls) h =
      let (r', c') = process_content config recorder t.content r c t now in
      run-Paired k (process config recorder r c t now).1 calls
        (check_epoch-Paired k r' c' (content-Paired k t.content r c t now refl h))
