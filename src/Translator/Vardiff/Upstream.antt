-- ===== src/Translator/Vardiff/Upstream.antt =====
-- The updates of vardiff for the upstream: `send_update_channel_messages`, the aggregate, and the
-- update when a miner's channel opens or closes.
use sv2_apps_fork.Prelude.{
  ℕ, ◌-◌, ◌^◌, Bool, true, false, Option, none, some, List, [], ◌∷◌, if◌then◌else◌, nat_eq, leb,
}
use sv2_apps_fork.Prelude.Assoc.{Assoc}
use sv2_apps_fork.Translator.Vardiff.{
  Rates, DownstreamData, UpdateChannel, Result, ok, shutdown, panic, Sv1Server,
}

-- `AggregatedSnapshot`
pub data AggregatedSnapshot (H : Type 0) : Type 0 where
  active : (total_hashrate : H) (min_target : ℕ) → AggregatedSnapshot H
  no_open_channels no_valid_targets : AggregatedSnapshot H

-- The variables of the loop of `aggregated_downstream_snapshot`.
pub record Totals (H : Type 0) : Type 0 where
  pub total_hashrate : H
  pub min_target : Option ℕ
  pub has_open_downstream : Bool

-- `fill([0xFF; 32])`
unfoldable pub largest_target : ℕ
largest_target = 2 ^ 256 - 1

abbrev pub lower : Option ℕ → ℕ → ℕ
lower none target = target
lower (some current) target = if leb current target then current else target

module _ {H : Type 0} where
  abbrev pub snapshot_of : Totals H → AggregatedSnapshot H
  snapshot_of t = elim (t.has_open_downstream) [
    | false ↦ no_open_channels
    | true ↦ elim (t.min_target) [
      | none ↦ no_valid_targets
      | some target ↦ active t.total_hashrate target
    ]
  ]

  abbrev pub snapshot_result : Option (Totals H) → Option (AggregatedSnapshot H)
  snapshot_result none = none
  snapshot_result (some t) = some (snapshot_of t)

  abbrev pub current_rate : Option H → Option H → Option H
  current_rate (some pending) hashrate = some pending
  current_rate none hashrate = hashrate

module _ {H V : Type 0} where
  abbrev pub send_upstream : UpdateChannel H → Sv1Server H V → Sv1Server H V × Result
  send_upstream update s =
      if s.channel_manager_open
      then (record s { upstream = update ∷ s.upstream }, ok)
      else (s, shutdown)

  abbrev pub if_ok :
      Result → Sv1Server H V × Result → Sv1Server H V × Result → Sv1Server H V × Result
  if_ok ok after stopped = after
  if_ok shutdown after stopped = stopped
  if_ok panic after stopped = stopped

  unfoldable pub send_non_aggregated_update_channels :
      List (UpdateChannel H) → Sv1Server H V → Sv1Server H V × Result
  send_non_aggregated_update_channels [] s = (s, ok)
  send_non_aggregated_update_channels (update ∷ updates) s =
      let sent = send_upstream update s in
      let rest = send_non_aggregated_update_channels updates sent.0 in if_ok sent.1 rest sent

  -- The update of the first miner's channel carries the aggregate.
  abbrev pub send_snapshot :
      (channel_id : ℕ) → Option (AggregatedSnapshot H) → Sv1Server H V → Sv1Server H V × Result
  send_snapshot channel_id none s = (s, panic)
  send_snapshot channel_id (some no_open_channels) s = (s, ok)
  send_snapshot channel_id (some no_valid_targets) s = (s, ok)
  send_snapshot channel_id (some (active total_hashrate min_target)) s =
      send_upstream
        (record {
          channel_id = channel_id;
          nominal_hash_rate = total_hashrate;
          max_target = min_target;
        })
        s

  module _ (rates : Rates H V) where
    unfoldable pub count :
        (channel_id : Option ℕ) (current : Option H) → Totals H → Option (Totals H)
    count none current t = some t
    count (some channel_id) none t = none
    count (some channel_id) (some hashrate) t = elim (rates.hash_rate_to_target hashrate) [
      | none ↦ some (record t { has_open_downstream = true })
      | some target ↦ some (record {
        total_hashrate = rates.add t.total_hashrate hashrate;
        min_target = some (lower t.min_target target);
        has_open_downstream = true;
      })
    ]

    -- None when an open miner has no hashrate: a panic.
    unfoldable pub count_all : Assoc ℕ (DownstreamData H) → Totals H → Option (Totals H)
    unfolding count
    count_all [] t = some t
    count_all ((id, m) ∷ ms) t =
        elim (count m.channel_id (current_rate m.pending_hashrate m.hashrate) t) [
          | none ↦ none
          | some t' ↦ count_all ms t'
        ]

    unfoldable pub aggregated_downstream_snapshot :
        Assoc ℕ (DownstreamData H) → Option (AggregatedSnapshot H)
    aggregated_downstream_snapshot downstreams = snapshot_result (
        count_all downstreams (record {
          total_hashrate = rates.zero_rate;
          min_target = none;
          has_open_downstream = false;
        }))

    unfoldable pub send_update_channel_messages :
        List (UpdateChannel H) → Sv1Server H V → Sv1Server H V × Result
    send_update_channel_messages [] s = (s, ok)
    send_update_channel_messages (update ∷ updates) s =
        if s.is_aggregated
        then send_snapshot update.channel_id (aggregated_downstream_snapshot s.downstreams) s
        else send_non_aggregated_update_channels (update ∷ updates) s

    abbrev pub state_change_snapshot :
        Option (AggregatedSnapshot H) → Sv1Server H V → Sv1Server H V × Result
    state_change_snapshot none s = (s, panic)
    state_change_snapshot (some (active total_hashrate min_target)) s =
        send_snapshot 0 (some (active total_hashrate min_target)) s
    state_change_snapshot (some no_open_channels) s =
        send_upstream
          (record {
            channel_id = 0;
            nominal_hash_rate = rates.zero_rate;
            max_target = largest_target;
          })
          s
    state_change_snapshot (some no_valid_targets) s = (s, ok)

    unfoldable pub send_update_channel_on_downstream_state_change :
        Sv1Server H V → Sv1Server H V × Result
    send_update_channel_on_downstream_state_change s =
        if s.is_aggregated
        then state_change_snapshot (aggregated_downstream_snapshot s.downstreams) s
        else (s, ok)
