-- ===== src/Trace/Filters/Responses.antt =====
-- A request filter of trace/filters.go over a whole run, against what it should keep.
use observability_cli.Prelude.{
  ℕ, ◌≡◌, refl, ◌∙◌, ap, Bool, true, false, not, ◌&&◌, ◌||◌, Option, none, some, List, [], ◌∷◌,
  arith, nat_eq, nat_beq, if◌then◌else◌, get, get-put,
}
use observability_cli.Net.{Traffic, Content, HttpRequest, http_request, http_response}
use observability_cli.Collector.{Collector}
use observability_cli.Collector.Run.{process_all}
use observability_cli.Trace.Filters.{RequestFilter, rejects, filter_content, request_filter}

module _ (witness_id : ℕ → ℕ → ℕ) (filter_func : Option (HttpRequest → Bool)) where
  -- Has a request with this ID been rejected?
  abbrev pub rejected : ℕ → List Traffic → Bool
  rejected id [] = false
  rejected id (t ∷ past) =
      let rest = rejected id past in
      elim t.content [
        | http_request r ↦
            (rejects witness_id filter_func r && nat_beq (witness_id r.stream_id r.seq) id) || rest
        | _ ↦ rest
      ]

  -- What is kept of `t`, given the traffic before it, latest first.
  abbrev pub is_kept : List Traffic → Traffic → Bool
  is_kept past t = elim t.content [
    | http_request r ↦ not (rejects witness_id filter_func r)
    | http_response r ↦ not (rejected (witness_id r.stream_id r.seq) past)
    | _ ↦ true
  ]

  abbrev pub kept : List Traffic → List Traffic → List Traffic
  kept past [] = []
  kept past (t ∷ ts) = let rest = kept (t ∷ past) ts in if is_kept past t then t ∷ rest else rest

  is_some : Option (Unit {0}) → Bool
  is_some none = false
  is_some (some _) = true

  module _ {S : Type 0} (collector : Collector S) where
    -- The IDs that the filter remembers are those of the rejected requests.
    Remembers : List Traffic → RequestFilter S → Type 0
    Remembers past c = (id : ℕ) → is_some (get id c.filtered_ids) ≡ rejected id past

    step-Remembers :
        (past : List Traffic) (c : RequestFilter S) (t : Traffic) (x : Content)
        → t.content ≡ x
        → Remembers past c
        → Remembers (t ∷ past) (filter_content witness_id filter_func collector x c t).0
    unfolding filter_content Remembers is_some
    step-Remembers past c t (http_request r) e h id =
        ground (arith, h id, get-put (witness_id r.stream_id r.seq) id tt c.filtered_ids)
    step-Remembers past c t (http_response r) e h id = ground (arith, h id)
    step-Remembers past c t x e h id = ground (arith, h id)

    step-next :
        (past : List Traffic) (c : RequestFilter S) (t : Traffic) (x : Content)
        → t.content ≡ x
        → Remembers past c
        → (filter_content witness_id filter_func collector x c t).0.next
          ≡ (if is_kept past t then (collector.process c.next t).0 else c.next)
    unfolding filter_content Remembers is_some
    step-next past c t (http_request r) e h = ground arith
    step-next past c t (http_response r) e h = ground (arith, h (witness_id r.stream_id r.seq))
    step-next past c t x e h = ground arith

    -- The case on the content, for one packet.
    step-Remembers_of :
        (past : List Traffic) (c : RequestFilter S) (t : Traffic)
        → Remembers past c
        → Remembers (t ∷ past) ((request_filter witness_id filter_func collector).process c t).0
    unfolding request_filter
    step-Remembers_of past c t h = step-Remembers past c t t.content refl h

    process-next :
        (past : List Traffic) (c : RequestFilter S) (t : Traffic)
        → Remembers past c
        → ((request_filter witness_id filter_func collector).process c t).0.next
          ≡ (if is_kept past t then (collector.process c.next t).0 else c.next)
    unfolding request_filter
    process-next past c t h = step-next past c t t.content refl h

    process_all-if :
        (b : Bool) (s : S) (t : Traffic) (ts : List Traffic)
        → process_all collector (if b then (collector.process s t).0 else s) ts
          ≡ process_all collector s (if b then t ∷ ts else ts)
    unfolding process_all
    process_all-if true s t ts = refl
    process_all-if false s t ts = refl

    process_all-kept :
        (past : List Traffic) (c : RequestFilter S) (ts : List Traffic)
        → Remembers past c
        → (process_all (request_filter witness_id filter_func collector) c ts).next
          ≡ process_all collector c.next (kept past ts)
    unfolding process_all
    process_all-kept past c [] h = refl
    process_all-kept past c (t ∷ ts) h =
        process_all-kept (t ∷ past)
          ((request_filter witness_id filter_func collector).process c t).0 ts
          (step-Remembers_of past c t h)
        ∙ ap (λ s. process_all collector s (kept (t ∷ past) ts)) (process-next past c t h)
        ∙ process_all-if (is_kept past t) c.next t (kept (t ∷ past) ts)

    Remembers-new : (s : S) → Remembers [] (record { filtered_ids = []; next = s })
    unfolding Remembers is_some get
    Remembers-new s id = refl

    -- A new filter, given any traffic, leaves the next collector in the state that this collector
    -- reaches on the kept traffic alone: a request that the predicate accepts, a response with no
    -- rejected request of the same ID before it, and all that is not HTTP.
    pub request_filter-kept :
        (s : S) (ts : List Traffic)
        → (process_all
            (request_filter witness_id filter_func collector)
            (record { filtered_ids = []; next = s })
            ts).next
          ≡ process_all collector s (kept [] ts)
    request_filter-kept s ts = process_all-kept [] _ ts (Remembers-new s)
