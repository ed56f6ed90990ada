-- ===== src/Apispec/Har/Timestamps.antt =====
-- The times that apispec/har.go makes up.
use observability_cli.Prelude.{
  ℕ, ◌+◌, ◌≤◌, ◌≡◌, ◌≢◌, refl, Option, none, some, arith, nat_beq, if◌then◌else◌, if_cases,
}
use observability_cli.Apispec.Har.{
  Milliseconds, CustomTimings, CustomHarEntry, ReconstructedTimestamps, advance_time,
  reconstruct_from_timings, reconstruct, reconstruct_from_har,
}

module _ {F : Type 0} (ms : Milliseconds F) where
  -- How far a timing moves the clock: not at all if it is missing, zero or negative.
  abbrev pub duration : Option F → ℕ
  duration none = 0
  duration (some d) = if ms.at_most_zero d then 0 else ms.nanoseconds d

  pub advance_time-duration : (t : ℕ) (d : Option F) → advance_time ms t d ≡ t + duration d
  unfolding advance_time
  advance_time-duration t none = omega arith
  advance_time-duration t (some d) = ground arith

  -- The time that the server took, by the file.
  abbrev pub wait_of : Option (CustomTimings F) → ℕ
  wait_of none = 0
  wait_of (some timings) = duration timings.wait

  -- What the times have to satisfy, given the start of the entry.
  abbrev pub IsReconstruction : ℕ → Option (CustomTimings F) → ReconstructedTimestamps → Type 0
  IsReconstruction started timings ts =
      (started ≤ ts.request_start)
      × (ts.request_start ≤ ts.request_end)
      × (ts.response_start ≡ ts.request_end + wait_of timings)
      × (ts.response_start ≤ ts.response_end)

  reconstruct-IsReconstruction :
      (started : ℕ) (timings : Option (CustomTimings F))
      → IsReconstruction started timings (reconstruct ms started timings)
  unfolding reconstruct reconstruct_from_timings
  reconstruct-IsReconstruction started none = omega arith
  reconstruct-IsReconstruction started (some t) = omega (arith, advance_time-duration)

  -- Of an entry that has a start, the made-up times are in order from that start on, and the time
  -- from the end of the request to the start of the response is the file's Wait; of an entry without
  -- a start, all four are zero.
  pub reconstruct_from_har-IsReconstruction :
      {Rq Rs : Type 0} (entry : CustomHarEntry F Rq Rs)
      → let ts = reconstruct_from_har ms entry in
        (entry.started_date_time ≢ 0 → IsReconstruction entry.started_date_time entry.timings ts)
        × (entry.started_date_time ≡ 0
            → (ts.request_start ≡ 0)
              × (ts.request_end ≡ 0)
              × (ts.response_start ≡ 0)
              × (ts.response_end ≡ 0))
  unfolding reconstruct_from_har
  reconstruct_from_har-IsReconstruction entry =
      if_cases
        (λ (ts : ReconstructedTimestamps).
          (entry.started_date_time ≢ 0 → IsReconstruction entry.started_date_time entry.timings ts)
          × (entry.started_date_time ≡ 0
              → (ts.request_start ≡ 0)
                × (ts.request_end ≡ 0)
                × (ts.response_start ≡ 0)
                × (ts.response_end ≡ 0)))
        (nat_beq entry.started_date_time 0)
        (λ zero. (λ h. absurd (ground (arith, h, zero)), λ _. (refl, refl, refl, refl)))
        (λ nonzero. (
          λ _. reconstruct-IsReconstruction entry.started_date_time entry.timings,
          λ h. absurd (ground (arith, h, nonzero)),
        ))
