-- ===== src/Translator/Forwarding/Departures.antt =====
-- What is left of a miner that disconnected.
use sv2_apps_fork.Prelude.{
  ℕ, ◌≡◌, refl, ap, sym, ◌∙◌, inl, inr, Bool, true, false, Option, none, some, ◌∷◌, if◌then◌else◌,
  nat_eq, ◌==◌, Bool-cases, Option-cases,
}
use sv2_apps_fork.Prelude.Assoc.{Assoc, lookup, without, lookup-without, lookup_of_without}
use sv2_apps_fork.Translator.Vardiff.{Rates, Result, ok, shutdown, panic, Sv1Server}
use sv2_apps_fork.Translator.Vardiff.Upstream.{
  AggregatedSnapshot, active, no_open_channels, no_valid_targets, state_change_snapshot,
  aggregated_downstream_snapshot, send_update_channel_on_downstream_state_change,
}
use sv2_apps_fork.Translator.Vardiff.Quiet.{
  IsQuiet, IsQuiet-refl, if-IsQuiet, send_upstream-IsQuiet,
}
use sv2_apps_fork.Translator.Vardiff.Parking.{IsParked, safe_of, safe_in}
use sv2_apps_fork.Translator.Forwarding.{
  forget_vardiff, forget_downstream, forget_channel, after_update, handle_downstream_disconnect,
}

module _ {H V : Type 0} (rates : Rates H V) where
  state_change-IsQuiet :
      (snapshot : Option (AggregatedSnapshot H)) (s : Sv1Server H V)
      → IsQuiet s (state_change_snapshot rates snapshot s).0
  state_change-IsQuiet none s = IsQuiet-refl s
  state_change-IsQuiet (some (active total_hashrate min_target)) s = send_upstream-IsQuiet _ s
  state_change-IsQuiet (some no_open_channels) s = send_upstream-IsQuiet _ s
  state_change-IsQuiet (some no_valid_targets) s = IsQuiet-refl s

  update-IsQuiet :
      (s : Sv1Server H V) → IsQuiet s (send_update_channel_on_downstream_state_change rates s).0
  unfolding send_update_channel_on_downstream_state_change
  update-IsQuiet s =
      let snapshot = aggregated_downstream_snapshot rates s.downstreams in
      if-IsQuiet s.is_aggregated s (state_change_snapshot rates snapshot s) (s, ok)
        (state_change-IsQuiet snapshot s) (IsQuiet-refl s)

  either :
      (b : Bool) (s x y : Sv1Server H V)
      → IsQuiet s x
      → IsQuiet s y
      → IsQuiet s (if b then x else y)
  either true s x y p q = p
  either false s x y p q = q

  forget_channel-IsQuiet :
      (o : Option ℕ) (s t : Sv1Server H V) → IsQuiet s t → IsQuiet s (forget_channel o t)
  forget_channel-IsQuiet none s t q = q
  forget_channel-IsQuiet (some c) s t q =
      let u = record t { channel_id_to_downstream_id = without c t.channel_id_to_downstream_id } in
      either t.channel_manager_open s (record u { closed_channels = c ∷ u.closed_channels }) u
        (record { downstreams = q.downstreams; pending = q.pending; events = q.events })
        (record { downstreams = q.downstreams; pending = q.pending; events = q.events })

  after_update-IsQuiet :
      (o : Option ℕ) (s : Sv1Server H V) (r : Sv1Server H V × Result)
      → IsQuiet s r.0
      → IsQuiet s (after_update o r).0
  after_update-IsQuiet o s (t, ok) q = forget_channel-IsQuiet o s t q
  after_update-IsQuiet o s (t, shutdown) q = forget_channel-IsQuiet o s t q
  after_update-IsQuiet o s (t, panic) q = q

  -- The state before the upstream is told.
  abbrev forgotten : Bool → ℕ → Sv1Server H V → Sv1Server H V
  forgotten enable_vardiff id s =
      forget_downstream id (if enable_vardiff then forget_vardiff id s else s)

  left-IsQuiet :
      (enable_vardiff : Bool) (id : ℕ) (s : Sv1Server H V)
      → IsQuiet
          (forgotten enable_vardiff id s)
          (handle_downstream_disconnect rates enable_vardiff id s).0
  unfolding handle_downstream_disconnect
  left-IsQuiet enable_vardiff id s =
      let left = forgotten enable_vardiff id s in
      elim (Option-cases (lookup id s.downstreams)) [
        | inl nobody ↦ rw (nobody, handle_downstream_disconnect) (IsQuiet-refl left)
        | inr (m, found) ↦
            rw (found, handle_downstream_disconnect)
              (after_update-IsQuiet m.channel_id left
                (if enable_vardiff
                  then send_update_channel_on_downstream_state_change rates left
                  else (left, ok))
                (if-IsQuiet enable_vardiff left
                  (send_update_channel_on_downstream_state_change rates left) (left, ok)
                  (update-IsQuiet left) (IsQuiet-refl left)))
      ]

  forgotten-downstreams :
      (enable_vardiff : Bool) (id : ℕ) (s : Sv1Server H V)
      → (forgotten enable_vardiff id s).downstreams ≡ without id s.downstreams
  forgotten-downstreams true id s = refl
  forgotten-downstreams false id s = refl

  forgotten-pending :
      (enable_vardiff : Bool) (id : ℕ) (s : Sv1Server H V)
      → (forgotten enable_vardiff id s).pending_target_updates
        ≡ (if enable_vardiff then without id s.pending_target_updates else s.pending_target_updates)
  forgotten-pending true id s = refl
  forgotten-pending false id s = refl

  left_without :
      (id : ℕ) (s : Sv1Server H V) (pending : Assoc ℕ ℕ)
      → ((j target : ℕ)
          → lookup j pending ≡ some target
          → lookup j s.pending_target_updates ≡ some target)
      → IsParked s.downstreams s.pending_target_updates
      → IsParked (without id s.downstreams) pending
  unfolding safe_in
  left_without id s pending older p = record {
    harder = λ j target found safe. elim (Bool-cases (id == j)) [
      | inl same ↦
          let gone : lookup j (without id s.downstreams) ≡ none =
            lookup-without id j s.downstreams ∙ rw (same) refl in
          absurd (cc (rw (gone) at safe))
      | inr other ↦
          let kept : lookup j (without id s.downstreams) ≡ lookup j s.downstreams =
            lookup-without id j s.downstreams ∙ rw (other) refl in
          p.harder j target (older j target found) (ap (safe_of target) (sym kept) ∙ safe)
    ];
  }

  pending_older :
      (enable_vardiff : Bool) (id : ℕ) (s : Sv1Server H V) (j target : ℕ)
      → lookup j
          (if enable_vardiff then without id s.pending_target_updates else s.pending_target_updates)
        ≡ some target
      → lookup j s.pending_target_updates ≡ some target
  pending_older true id s j target found =
      lookup_of_without id j target s.pending_target_updates found
  pending_older false id s j target found = found

  -- A disconnected miner is no longer registered and, with vardiff, has no parked target; the other
  -- miners keep their data and targets; and parked targets stay harder than the upstream targets of
  -- their miners when they were.
  pub disconnect-IsParked :
      (enable_vardiff : Bool) (id : ℕ) (s : Sv1Server H V)
      → IsParked s.downstreams s.pending_target_updates
      → let t = (handle_downstream_disconnect rates enable_vardiff id s).0 in
        (t.downstreams ≡ without id s.downstreams)
        × (t.pending_target_updates ≡ (
            if enable_vardiff
            then without id s.pending_target_updates
            else s.pending_target_updates))
        × IsParked t.downstreams t.pending_target_updates
  disconnect-IsParked enable_vardiff id s p =
      let q = left-IsQuiet enable_vardiff id s in
      let ds = q.downstreams ∙ forgotten-downstreams enable_vardiff id s in
      let ps = q.pending ∙ forgotten-pending enable_vardiff id s in
      (
        ds,
        ps,
        rw (ds, ps)
            (left_without id s
              (if enable_vardiff
                then without id s.pending_target_updates
                else s.pending_target_updates)
              (pending_older enable_vardiff id s) p),
      )
