-- ===== src/Translator/Vardiff/Quiet.antt =====
-- What the updates for the upstream leave as it was.
use sv2_apps_fork.Prelude.{
  ℕ, ◌≡◌, refl, ◌∙◌, Bool, true, false, Option, none, some, List, [], ◌∷◌, if◌then◌else◌, nat_eq,
}
use sv2_apps_fork.Translator.Vardiff.{Rates, UpdateChannel, Result, ok, shutdown, panic, Sv1Server}
use sv2_apps_fork.Translator.Vardiff.Upstream.{
  AggregatedSnapshot, active, no_open_channels, no_valid_targets, send_upstream, if_ok,
  send_non_aggregated_update_channels, send_snapshot, aggregated_downstream_snapshot,
  send_update_channel_messages,
}

module _ {H V : Type 0} where
  -- What a call leaves as it was: the miners' data, the parked targets and the sent difficulties.
  pub record IsQuiet (s t : Sv1Server H V) : Type 0 where
    pub downstreams : t.downstreams ≡ s.downstreams
    pub pending : t.pending_target_updates ≡ s.pending_target_updates
    pub events : t.events ≡ s.events

  pub IsQuiet-refl : (s : Sv1Server H V) → IsQuiet s s
  IsQuiet-refl s = record { downstreams = refl; pending = refl; events = refl }

  pub if-IsQuiet :
      (b : Bool) (s : Sv1Server H V) (x y : Sv1Server H V × Result)
      → IsQuiet s x.0
      → IsQuiet s y.0
      → IsQuiet s (if b then x else y).0
  if-IsQuiet true s x y p q = p
  if-IsQuiet false s x y p q = q

  pub send_upstream-IsQuiet :
      (u : UpdateChannel H) (s : Sv1Server H V) → IsQuiet s (send_upstream u s).0
  send_upstream-IsQuiet u s =
      if-IsQuiet s.channel_manager_open s (record s { upstream = u ∷ s.upstream }, ok) (s, shutdown)
        (record { downstreams = refl; pending = refl; events = refl }) (IsQuiet-refl s)

  if_ok-IsQuiet :
      (s : Sv1Server H V) (r : Result) (after stopped : Sv1Server H V × Result)
      → IsQuiet s stopped.0
      → IsQuiet stopped.0 after.0
      → IsQuiet s (if_ok r after stopped).0
  if_ok-IsQuiet s ok after stopped a b = record {
    downstreams = b.downstreams ∙ a.downstreams;
    pending = b.pending ∙ a.pending;
    events = b.events ∙ a.events;
  }
  if_ok-IsQuiet s shutdown after stopped a b = a
  if_ok-IsQuiet s panic after stopped a b = a

  send_each-IsQuiet :
      (us : List (UpdateChannel H)) (s : Sv1Server H V)
      → IsQuiet s (send_non_aggregated_update_channels us s).0
  unfolding send_non_aggregated_update_channels
  send_each-IsQuiet [] s = IsQuiet-refl s
  send_each-IsQuiet (u ∷ us) s =
      let sent = send_upstream u s in
      if_ok-IsQuiet s sent.1 (send_non_aggregated_update_channels us sent.0) sent
        (send_upstream-IsQuiet u s) (send_each-IsQuiet us sent.0)

  send_snapshot-IsQuiet :
      (channel_id : ℕ) (snapshot : Option (AggregatedSnapshot H)) (s : Sv1Server H V)
      → IsQuiet s (send_snapshot channel_id snapshot s).0
  send_snapshot-IsQuiet channel_id none s = IsQuiet-refl s
  send_snapshot-IsQuiet channel_id (some no_open_channels) s = IsQuiet-refl s
  send_snapshot-IsQuiet channel_id (some no_valid_targets) s = IsQuiet-refl s
  send_snapshot-IsQuiet channel_id (some (active total_hashrate min_target)) s =
      send_upstream-IsQuiet _ s

  module _ (rates : Rates H V) where
    pub send_update_channel_messages-IsQuiet :
        (us : List (UpdateChannel H)) (s : Sv1Server H V)
        → IsQuiet s (send_update_channel_messages rates us s).0
    unfolding send_update_channel_messages
    send_update_channel_messages-IsQuiet [] s = IsQuiet-refl s
    send_update_channel_messages-IsQuiet (u ∷ us) s =
        let snapshot = aggregated_downstream_snapshot rates s.downstreams in
        if-IsQuiet s.is_aggregated s (send_snapshot u.channel_id snapshot s)
          (send_non_aggregated_update_channels (u ∷ us) s)
          (send_snapshot-IsQuiet u.channel_id snapshot s) (send_each-IsQuiet (u ∷ us) s)
