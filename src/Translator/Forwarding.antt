-- ===== src/Translator/Forwarding.antt =====
-- miner-apps/translator/src/lib/sv1/sv1_server/mod.rs: SetTarget without vardiff, which is forwarded
-- to the miners, and what a disconnected miner leaves behind.
pub mod Broadcast
pub mod Departures
use sv2_apps_fork.Prelude.{
  ℕ, zero, suc, Bool, true, false, not, Option, none, some, List, [], ◌∷◌, ◌++◌, if◌then◌else◌,
  ◌==◌, nat_eq,
}
use sv2_apps_fork.Prelude.Assoc.{Assoc, lookup, without, retain, adjust, map_values}
use sv2_apps_fork.Translator.Vardiff.{
  Rates, DownstreamData, Result, ok, shutdown, panic, Sv1Server, or_given,
}
use sv2_apps_fork.Translator.Vardiff.Upstream.{send_update_channel_on_downstream_state_change}

-- How a SetTarget without vardiff ends.
pub data Forwarded : Type 0 where
  delivered shuts_down : Forwarded
  disconnects : (downstream_id : ℕ) → Forwarded
  logs_not_found : (channel_id : ℕ) → Forwarded

abbrev pub or_derived : {H : Type 0} → Option H → Option H → Option H
or_derived none pending = pending
or_derived (some derived) pending = some derived

-- A miner without a channel or without a connection is not sent to.
abbrev pub task_of : (downstream_id : ℕ) → Option ℕ → Option Bool → List (ℕ × Bool)
task_of id none sender = []
task_of id (some channel_id) none = []
task_of id (some channel_id) (some is_open) = (id, is_open) ∷ []

abbrev pub end_of : Option ℕ → Forwarded
end_of none = delivered
end_of (some id) = disconnects id

abbrev pub or_first : Option ℕ → ℕ → Option ℕ
or_first none id = some id
or_first (some first) id = some first

module _ {H : Type 0} where
  unfoldable pub tasks_of : Assoc ℕ Bool → Assoc ℕ (DownstreamData H) → List (ℕ × Bool)
  tasks_of senders [] = []
  tasks_of senders ((id, m) ∷ ms) =
      task_of id m.channel_id (lookup id senders) ++ tasks_of senders ms

module _ {H V : Type 0} where
  abbrev pub close_channel : (channel_id : ℕ) → Sv1Server H V → Sv1Server H V
  close_channel channel_id s =
      if s.channel_manager_open
      then record s { closed_channels = channel_id ∷ s.closed_channels }
      else s

  -- The state without a miner's vardiff, channel, data and requests.
  abbrev pub forget_vardiff : (downstream_id : ℕ) → Sv1Server H V → Sv1Server H V
  forget_vardiff id s = record s {
    vardiff = without id s.vardiff;
    pending_target_updates = without id s.pending_target_updates;
  }

  abbrev pub forget_downstream : (downstream_id : ℕ) → Sv1Server H V → Sv1Server H V
  forget_downstream id s = record s {
    sv1_server_to_downstream_sender = without id s.sv1_server_to_downstream_sender;
    downstreams = without id s.downstreams;
    request_id_to_downstream_id =
        retain (λ request owner. not (owner == id)) s.request_id_to_downstream_id;
  }

  abbrev pub forget_channel : Option ℕ → Sv1Server H V → Sv1Server H V
  forget_channel none s = s
  forget_channel (some channel_id) s =
      close_channel channel_id (record s {
        channel_id_to_downstream_id = without channel_id s.channel_id_to_downstream_id;
      })

  -- An error of the update is logged; a panic is not caught.
  abbrev pub after_update : Option ℕ → Sv1Server H V × Result → Sv1Server H V × Result
  after_update channel_id (s, ok) = (forget_channel channel_id s, ok)
  after_update channel_id (s, shutdown) = (forget_channel channel_id s, ok)
  after_update channel_id (s, panic) = (s, panic)

  module _ (rates : Rates H V) where
    unfoldable pub forward_target : (target : ℕ) → Option H → DownstreamData H → DownstreamData H
    forward_target target derived data' = record data' {
      upstream_target = some target;
      pending_target = some (or_given (rates.sv1_advertised_target target) target);
      pending_hashrate = or_derived derived data'.pending_hashrate;
    }

    -- A miner without a channel is skipped.
    abbrev pub forward_on : (target : ℕ) → Option H → Option ℕ → DownstreamData H → DownstreamData H
    forward_on target derived none data' = data'
    forward_on target derived (some channel_id) data' = forward_target target derived data'

    -- The whole broadcast, before the first closed channel is reported.
    unfoldable pub send_tasks :
        (target : ℕ)
        → List (ℕ × Bool)
        → (disconnected : Option ℕ) → Sv1Server H V
        → Sv1Server H V × Forwarded
    send_tasks target [] disconnected s = (s, end_of disconnected)
    send_tasks target ((id, is_open) ∷ tasks) disconnected s =
        elim (rates.build_set_difficulty target) [
          | none ↦ (s, shuts_down)
          | some d ↦ elim is_open [
            | true ↦ send_tasks target tasks disconnected (record s { events = (id, d) ∷ s.events })
            | false ↦ send_tasks target tasks (or_first disconnected id) s
          ]
        ]

    unfoldable pub send_set_difficulty_to_all_downstreams :
        (target : ℕ) → Option H → Sv1Server H V → Sv1Server H V × Forwarded
    send_set_difficulty_to_all_downstreams target derived s =
        send_tasks target (tasks_of s.sv1_server_to_downstream_sender s.downstreams) none
          (record s {
            downstreams = map_values (λ m. forward_on target derived m.channel_id m) s.downstreams;
          })

    abbrev pub deliver_difficulty :
        (downstream_id : ℕ) (difficulty : Option ℕ) (sender : Option Bool)
        → Sv1Server H V
        → Sv1Server H V × Forwarded
    deliver_difficulty id none sender s = (s, shuts_down)
    deliver_difficulty id (some d) none s = (s, delivered)
    deliver_difficulty id (some d) (some true) s =
        (record s { events = (id, d) ∷ s.events }, delivered)
    deliver_difficulty id (some d) (some false) s = (s, disconnects id)

    abbrev pub send_to_specific :
        (channel_id target : ℕ) → Option H → Option ℕ → Sv1Server H V → Sv1Server H V × Forwarded
    send_to_specific channel_id target derived none s =
        if s.channel_manager_open
        then (close_channel channel_id s, logs_not_found channel_id)
        else (s, shuts_down)
    send_to_specific channel_id target derived (some id) s = elim (lookup id s.downstreams) [
      | none ↦ (s, delivered)
      | some found ↦
          deliver_difficulty id (rates.build_set_difficulty target)
            (lookup id s.sv1_server_to_downstream_sender)
            (record s { downstreams = adjust id (forward_target target derived) s.downstreams })
    ]

    unfoldable pub send_set_difficulty_to_specific_downstream :
        (channel_id target : ℕ) → Option H → Sv1Server H V → Sv1Server H V × Forwarded
    send_set_difficulty_to_specific_downstream channel_id target derived s =
        send_to_specific channel_id target derived (lookup channel_id s.channel_id_to_downstream_id)
          s

    unfoldable pub handle_set_target_without_vardiff :
        (hash_rate_from_target : ℕ → Option H) (channel_id target : ℕ)
        → Sv1Server H V
        → Sv1Server H V × Forwarded
    handle_set_target_without_vardiff hash_rate_from_target channel_id target s =
        let derived = hash_rate_from_target target in
        if s.is_aggregated
        then send_set_difficulty_to_all_downstreams target derived s
        else send_set_difficulty_to_specific_downstream channel_id target derived s

    unfoldable pub handle_downstream_disconnect :
        (enable_vardiff : Bool) (downstream_id : ℕ) → Sv1Server H V → Sv1Server H V × Result
    handle_downstream_disconnect enable_vardiff id s =
        let left = forget_downstream id (if enable_vardiff then forget_vardiff id s else s) in
        elim (lookup id s.downstreams) [
          | none ↦ (left, ok)
          | some m ↦ after_update m.channel_id (
              if enable_vardiff
              then send_update_channel_on_downstream_state_change rates left
              else (left, ok))
        ]
