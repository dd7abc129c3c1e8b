-- ===== src/Tests/Difficulties.antt =====
-- Vardiff, forwarded targets and disconnects at concrete inputs.
use sv2_apps_fork.Prelude.{
  ℕ, ◌+◌, ◌-◌, ◌≤◌, ◌≡◌, ◌≢◌, refl, sym, subst, Bool-cases, true, false, none, some, [], ◌∷◌, arith,
  inl, inr, if◌then◌else◌, ◌==◌, nat_eq, leb,
}
use mathlib.Core.List.{Memᴰ}
use sv2_apps_fork.Prelude.Assoc.{lookup}
use sv2_apps_fork.Translator.Vardiff.{changed, unchanged, Rates, DownstreamData, Sv1Server}
use sv2_apps_fork.Translator.Vardiff.Upstream.{active, aggregated_downstream_snapshot, count_all}
use sv2_apps_fork.Translator.Vardiff.Delivery.{handle_vardiff_updates, handle_set_target_message}
use sv2_apps_fork.Translator.Vardiff.Parking.{IsParked, safe_in}
use sv2_apps_fork.Translator.Vardiff.Advertised.{IsRound, handle_vardiff_updates-IsRound}
use sv2_apps_fork.Translator.Vardiff.Confirmed.{IsConfirmed, handle_set_target_message-IsConfirmed}
use sv2_apps_fork.Translator.Vardiff.Aggregate.{HasTarget, aggregate-lowest}
use sv2_apps_fork.Translator.Forwarding.{handle_set_target_without_vardiff}
use sv2_apps_fork.Translator.Forwarding.Broadcast.{broadcast_reaches}

-- Hashrates are numbers, whose targets are what they are below 1000; a machine asks for its number.
abbrev rates : Rates ℕ ℕ
rates = record {
  zero_rate = 0;
  add = λ a b. a + b;
  hash_rate_to_target = λ h. if leb 1 h then some (1000 - h) else none;
  sv1_advertised_target = λ t. some t;
  build_set_difficulty = λ t. some (1000 - t);
  try_vardiff = λ v h t. (v, if v == h then unchanged else changed v);
}

abbrev miner : ℕ → ℕ → DownstreamData ℕ
miner channel rate = record {
  channel_id = some channel;
  hashrate = some rate;
  pending_hashrate = none;
  target = 1000 - rate;
  pending_target = none;
  upstream_target = some 500;
  stable_hashrate = false;
}

-- The machine of the first miner asks for an easier target, that of the second for a harder one; a
-- target of 300 is parked for the second.
abbrev server : Sv1Server ℕ ℕ
server = record {
  is_aggregated = true;
  vardiff = (1, 200) ∷ (2, 800) ∷ [];
  downstreams = (1, miner 11 400) ∷ (2, miner 12 600) ∷ [];
  channel_id_to_downstream_id = (11, 1) ∷ (12, 2) ∷ [];
  pending_target_updates = (2, 300) ∷ [];
  sv1_server_to_downstream_sender = (1, true) ∷ (2, true) ∷ [];
  channel_manager_open = true;
  events = [];
  upstream = [];
  closed_channels = [];
  request_id_to_downstream_id = (3, 1) ∷ [];
}

parked_is_hard :
    (id target : ℕ)
    → lookup id server.pending_target_updates ≡ some target
    → safe_in id target server.downstreams ≢ some true
unfolding lookup safe_in
parked_is_hard id target found safe = elim (Bool-cases (2 == id)) [
  | inl same ↦
      let named : 2 ≡ id = (nat_eq.agrees_iff 2 id).0 same in
      let it : 300 ≡ target = ground (arith, same, found) in
      let here : safe_in 2 300 server.downstreams ≡ some true =
        subst (λ i. safe_in i 300 server.downstreams ≡ some true) (sym named)
          (subst (λ t. safe_in id t server.downstreams ≡ some true) (sym it) safe) in
      absurd (cc (here))
  | inr other ↦ absurd (ground (arith, other, found))
]

server-IsParked : IsParked server.downstreams server.pending_target_updates
server-IsParked = record { harder = parked_is_hard }

handle_vardiff_updates-IsRound_example :
    IsRound rates server (handle_vardiff_updates rates server).0
handle_vardiff_updates-IsRound_example = handle_vardiff_updates-IsRound rates server server-IsParked

handle_set_target_message-IsConfirmed_example :
    IsConfirmed rates server (handle_set_target_message rates 12 250 server)
handle_set_target_message-IsConfirmed_example =
    handle_set_target_message-IsConfirmed rates 12 250 server server-IsParked

snapshot : aggregated_downstream_snapshot rates server.downstreams ≡ some (active 1000 400)
unfolding aggregated_downstream_snapshot count_all
snapshot = refl

aggregate-lowest_example :
    ((id target : ℕ) (m : DownstreamData ℕ)
      → Memᴰ {A = ℕ × DownstreamData ℕ} (id, m) server.downstreams
      → HasTarget rates m target
      → 400 ≤ target)
    × ((id : ℕ) × (m : DownstreamData ℕ) × Memᴰ {A = ℕ × DownstreamData ℕ}
          (id, m)
          server.downstreams
        × HasTarget rates m 400)
aggregate-lowest_example = aggregate-lowest rates server.downstreams 1000 400 snapshot

-- The second miner's channel is closed; the first is still reached.
abbrev half_closed : Sv1Server ℕ ℕ
half_closed = record server { sv1_server_to_downstream_sender = (2, false) ∷ (1, true) ∷ [] }

broadcast_reaches_example :
    Memᴰ {A = ℕ × ℕ}
      (1, 700)
      (handle_set_target_without_vardiff rates (λ t. some (1000 - t)) 11 300 half_closed).0.events
unfolding lookup
broadcast_reaches_example =
    broadcast_reaches rates (λ t. some (1000 - t)) 11 300 700 half_closed refl refl 1 11
      (miner 11 400) (Memᴰ.head refl) refl refl
