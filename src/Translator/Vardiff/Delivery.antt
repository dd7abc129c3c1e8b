-- ===== src/Translator/Vardiff/Delivery.antt =====
-- The difficulties that miners are sent: `handle_vardiff_updates`, `handle_set_target_message`, and
-- the targets that wait for an upstream target.
use sv2_apps_fork.Prelude.{
  ℕ, Bool, true, false, not, ◌&&◌, Option, none, some, List, [], ◌∷◌, if◌then◌else◌, ◌==◌, nat_eq,
  leb,
}
use sv2_apps_fork.Prelude.Assoc.{Assoc, lookup, retain, adjust, map_values}
use sv2_apps_fork.Translator.Vardiff.{
  Rates, Result, ok, shutdown, panic, Sv1Server, Round, set_upstream_target, visit_all,
}
use sv2_apps_fork.Translator.Vardiff.Upstream.{send_update_channel_messages}

abbrev pub addressed : Option ℕ → ℕ → Bool
addressed none pending_downstream_id = true
addressed (some downstream_id) pending_downstream_id = pending_downstream_id == downstream_id

unfoldable pub get_pending_difficulty_updates :
    (new_upstream_target : ℕ) (downstream_id : Option ℕ) → Assoc ℕ ℕ → List (ℕ × ℕ)
get_pending_difficulty_updates upstream_target only [] = []
get_pending_difficulty_updates upstream_target only ((id, target) ∷ pending) =
    let rest = get_pending_difficulty_updates upstream_target only pending in
    if addressed only id && leb upstream_target target then (id, target) ∷ rest else rest

-- What `get_pending_difficulty_updates` leaves.
unfoldable pub keep_pending :
    (new_upstream_target : ℕ) (downstream_id : Option ℕ) → Assoc ℕ ℕ → Assoc ℕ ℕ
keep_pending upstream_target only pending =
    retain (λ id target. not (addressed only id && leb upstream_target target)) pending

module _ {H V : Type 0} where
  abbrev pub push_event :
      (downstream_id difficulty : ℕ) → Option Bool → Sv1Server H V → Sv1Server H V
  push_event id difficulty (some true) s = record s { events = (id, difficulty) ∷ s.events }
  push_event id difficulty (some false) s = s
  push_event id difficulty none s = s

  module _ (rates : Rates H V) where
    unfoldable pub send_set_difficulty : (downstream_id target : ℕ) → Sv1Server H V → Sv1Server H V
    send_set_difficulty id target s = elim (rates.build_set_difficulty target) [
      | none ↦ s
      | some difficulty ↦ push_event id difficulty (lookup id s.sv1_server_to_downstream_sender) s
    ]

    -- A message that cannot be built or sent is skipped.
    unfoldable pub send_set_difficulties : List (ℕ × ℕ) → Sv1Server H V → Sv1Server H V
    unfolding send_set_difficulty
    send_set_difficulties [] s = s
    send_set_difficulties ((id, target) ∷ updates) s =
        send_set_difficulties updates (send_set_difficulty id target s)

    abbrev pub send_immediate : List (ℕ × ℕ) → Sv1Server H V × Result → Sv1Server H V × Result
    send_immediate updates (s, ok) = (send_set_difficulties updates s, ok)
    send_immediate updates (s, shutdown) = (s, shutdown)
    send_immediate updates (s, panic) = (s, panic)

    abbrev pub first_round : Sv1Server H V → Round H V
    first_round s = record {
      server = s;
      immediate_updates = [];
      all_updates = [];
      panicked = false;
    }

    abbrev pub finish_round : Round H V → Sv1Server H V × Result
    finish_round r =
        if r.panicked
        then (r.server, panic)
        else send_immediate r.immediate_updates
            (send_update_channel_messages rates r.all_updates r.server)

    unfoldable pub handle_vardiff_updates : Sv1Server H V → Sv1Server H V × Result
    handle_vardiff_updates s = finish_round (visit_all rates s.vardiff (first_round s))

    unfoldable pub send_pending :
        (new_upstream_target : ℕ) (downstream_id : Option ℕ) → Sv1Server H V → Sv1Server H V
    send_pending upstream_target only s =
        send_set_difficulties
          (get_pending_difficulty_updates upstream_target only s.pending_target_updates)
          (record s {
            pending_target_updates = keep_pending upstream_target only s.pending_target_updates;
          })

    unfoldable pub handle_aggregated_set_target :
        (new_upstream_target : ℕ) → Sv1Server H V → Sv1Server H V
    handle_aggregated_set_target upstream_target s =
        send_pending upstream_target none (record s {
          downstreams = map_values (set_upstream_target upstream_target) s.downstreams;
        })

    abbrev pub set_target_of : (new_upstream_target : ℕ) → Option ℕ → Sv1Server H V → Sv1Server H V
    set_target_of upstream_target none s = s
    set_target_of upstream_target (some id) s = elim (lookup id s.downstreams) [
      | none ↦ s
      | some found ↦
          send_pending upstream_target (some id) (record s {
            downstreams = adjust id (set_upstream_target upstream_target) s.downstreams;
          })
    ]

    unfoldable pub handle_non_aggregated_set_target :
        (channel_id new_upstream_target : ℕ) → Sv1Server H V → Sv1Server H V
    handle_non_aggregated_set_target channel_id upstream_target s =
        set_target_of upstream_target (lookup channel_id s.channel_id_to_downstream_id) s

    unfoldable pub handle_set_target_message :
        (channel_id target : ℕ) → Sv1Server H V → Sv1Server H V
    handle_set_target_message channel_id upstream_target s =
        if s.is_aggregated
        then handle_aggregated_set_target upstream_target s
        else handle_non_aggregated_set_target channel_id upstream_target s
