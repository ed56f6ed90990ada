-- ===== src/TcpTracker/Findings.antt =====
-- What a summary of tcp_conn_tracker/tcp_conn_tracker.go must say of the packets that `augmentWith`
-- saw, in whatever order they came.
use observability_cli.Prelude.{
  ℕ, ◌≤◌, ◌≡◌, refl, ◌∙◌, Bool, true, false, ◌&&◌, ◌||◌, List, [], ◌∷◌, ◌++◌, arith, nat_beq,
  if◌then◌else◌, All,
}
use observability_cli.Net.{
  Traffic, TcpPacket, Initiator, EndState, connection_open, connection_closed, connection_reset,
  unknown_initiator, source_initiator, dest_initiator,
}
use observability_cli.TcpTracker.{ConnectionInfo, augment_with}
use observability_cli.TcpTracker.Infer.{is_unknown, is_open}

abbrev pub Packets : Type 0
Packets = List (Traffic × TcpPacket)

abbrev pub augment_all : ConnectionInfo → Packets → ConnectionInfo
augment_all info [] = info
augment_all info ((t, p) ∷ ps) = augment_all (augment_with info t p) ps

abbrev pub any_packet : (TcpPacket → Bool) → Packets → Bool
any_packet f [] = false
any_packet f ((t, p) ∷ ps) = f p || any_packet f ps

abbrev is_reset : EndState → Bool
is_reset connection_reset = true
is_reset _ = false

-- A reset outweighs a FIN, wherever they stand.
abbrev pub final_state : EndState → Packets → EndState
final_state e ps =
    if is_reset e || any_packet (λ p. p.rst) ps
    then connection_reset
    else if is_open e && (if any_packet (λ p. p.fin) ps then false else true)
    then connection_open
    else connection_closed

-- The first SYN tells: it comes from the initiator, and a SYN-ACK goes to the initiator.
abbrev pub initiator_of : ConnectionInfo → Packets → Initiator
initiator_of info [] = unknown_initiator
initiator_of info ((t, p) ∷ ps) =
    let rest = initiator_of info ps in
    let from_source : Bool = nat_beq info.src_ip t.src_ip && nat_beq info.src_port t.src_port in
    if p.syn
    then (if p.ack
        then (if from_source then dest_initiator else source_initiator)
        else (if from_source then source_initiator else dest_initiator))
    else rest

pub record Summarises (info : ConnectionInfo) (ps : Packets) (found : ConnectionInfo) : Type 0 where
  -- The earliest time.
  pub first_bound : found.first_observation_time ≤ info.first_observation_time
  pub first_bounds : All (λ tp. found.first_observation_time ≤ tp.0.observation_time) ps
  pub first_greatest :
      (b : ℕ)
      → b ≤ info.first_observation_time
      → All (λ tp. b ≤ tp.0.observation_time) ps
      → b ≤ found.first_observation_time
  -- The latest time.
  pub last_bound : info.last_observation_time ≤ found.last_observation_time
  pub last_bounds : All (λ tp. tp.0.observation_time ≤ found.last_observation_time) ps
  pub last_least :
      (b : ℕ)
      → info.last_observation_time ≤ b
      → All (λ tp. tp.0.observation_time ≤ b) ps
      → found.last_observation_time ≤ b
  pub ended : found.tcp_metadata.end_state ≡ final_state info.tcp_metadata.end_state ps
  pub initiated : found.tcp_metadata.initiator ≡ (
      if is_unknown info.tcp_metadata.initiator
      then initiator_of info ps
      else info.tcp_metadata.initiator)

pub augment_all-append :
    (info : ConnectionInfo) (ps qs : Packets)
    → augment_all info (ps ++ qs) ≡ augment_all (augment_all info ps) qs
augment_all-append info [] qs = refl
augment_all-append info ((t, p) ∷ ps) qs = augment_all-append (augment_with info t p) ps qs

initiator_of-augment_with :
    (info : ConnectionInfo) (t : Traffic) (p : TcpPacket) (ps : Packets)
    → initiator_of (augment_with info t p) ps ≡ initiator_of info ps
unfolding augment_with
initiator_of-augment_with info t p [] = refl
initiator_of-augment_with info t p ((u, q) ∷ ps) =
    ground (arith, initiator_of-augment_with info t p ps)

pub augment_all-Summarises :
    (info : ConnectionInfo) (ps : Packets) → Summarises info ps (augment_all info ps)
unfolding augment_with
augment_all-Summarises info [] = record {
  first_bound = omega arith;
  first_bounds = tt;
  first_greatest = λ b h _. h;
  last_bound = omega arith;
  last_bounds = tt;
  last_least = λ b h _. h;
  ended = ground arith;
  initiated = ground arith;
}
augment_all-Summarises info ((t, p) ∷ ps) =
    let rest = augment_all-Summarises (augment_with info t p) ps in
    record {
      first_bound = ground (arith, rest.first_bound);
      first_bounds = (ground (arith, rest.first_bound), rest.first_bounds);
      first_greatest = λ b h k. rest.first_greatest b (ground arith) k.1;
      last_bound = ground (arith, rest.last_bound);
      last_bounds = (ground (arith, rest.last_bound), rest.last_bounds);
      last_least = λ b h k. rest.last_least b (ground arith) k.1;
      ended = rest.ended ∙ ground arith;
      initiated = rest.initiated ∙ ground (arith, initiator_of-augment_with info t p ps);
    }
