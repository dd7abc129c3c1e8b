-- ===== src/Translator/Vardiff/Confirmed.antt =====
-- `handle_set_target_message`, and what waited for an upstream target.
use sv2_apps_fork.Prelude.{
  ℕ, ◌≡◌, ◌≢◌, refl, sym, ap, ◌∙◌, ◌⊎◌, inl, inr, Bool, true, false, not, ◌&&◌, Option, none, some,
  List, [], ◌∷◌, ◌++◌, if◌then◌else◌, nat_eq, leb, arith, Bool-cases, Option-cases,
}
use sv2_apps_fork.Prelude.Assoc.{Assoc, lookup, adjust, map_values, lookup_of_retain}
use mathlib.Core.List.{Memᴰ}
use sv2_apps_fork.Translator.Vardiff.{Rates, DownstreamData, Sv1Server, set_upstream_target}
use sv2_apps_fork.Translator.Vardiff.Delivery.{
  addressed, get_pending_difficulty_updates, keep_pending, send_pending,
  handle_aggregated_set_target, set_target_of, handle_non_aggregated_set_target,
  handle_set_target_message,
}
use sv2_apps_fork.Translator.Vardiff.Parking.{Every, safe_in, IsParked}
use sv2_apps_fork.Translator.Vardiff.Sending.{IsSafeEvent, send_set_difficulties-SendsSafely}
use sv2_apps_fork.Translator.Vardiff.Retargeting.{
  get_pending-Every, kept_or_taken, both, IsRetargeted, map_values-IsRetargeted,
  adjust-IsRetargeted,
}

module _ {H V : Type 0} (rates : Rates H V) where
  -- A server after an upstream target was set for the miners that it addresses.
  pub record IsConfirmed (s t : Sv1Server H V) : Type 0 where
    pub parked : IsParked t.downstreams t.pending_target_updates
    pub added : List (ℕ × ℕ)
    pub sent : t.events ≡ added ++ s.events
    pub safe : Every (IsSafeEvent rates t.downstreams) added
    pub parked_or_sent :
        (id target difficulty : ℕ)
        → lookup id s.pending_target_updates ≡ some target
        → rates.build_set_difficulty target ≡ some difficulty
        → lookup id s.sv1_server_to_downstream_sender ≡ some true
        → (lookup id t.pending_target_updates ≡ some target) ⊎ Memᴰ (id, difficulty) added

  taken_safe :
      (up : ℕ) (only : Option ℕ) (before after : Assoc ℕ (DownstreamData H))
      → IsRetargeted only up before after
      → (updates : List (ℕ × ℕ)) → Every (λ x. (addressed only x.0 && leb up x.1) ≡ true) updates
      → Every (λ x. safe_in x.0 x.1 after ≢ some false) updates
  taken_safe up only before after set [] a = tt
  taken_safe up only before after set ((id, t) ∷ us) (goes, a) =
      let (named, easy) = both (addressed only id) (leb up t) goes in
      (
        λ unsafe. set.set id t named (unsafe ∙ ap (λ b. some (not b)) (sym easy)),
        taken_safe up only before after set us a,
      )

  kept-IsParked :
      (up : ℕ) (only : Option ℕ) (before after : Assoc ℕ (DownstreamData H)) (pending : Assoc ℕ ℕ)
      → IsRetargeted only up before after
      → IsParked before pending
      → IsParked after (keep_pending up only pending)
  unfolding keep_pending
  kept-IsParked up only before after pending set p = record {
    harder = λ id t found safe.
        let (old, stays) =
          lookup_of_retain (λ i u. not (addressed only i && leb up u)) id t pending found in
        elim (Bool-cases (addressed only id)) [
          | inl named ↦
              let hard : leb up t ≡ false = ground (arith, named, stays) in
              set.set id t named (safe ∙ ap (λ b. some (not b)) (sym hard))
          | inr other ↦ p.harder id t old (sym (set.other id t other) ∙ safe)
        ];
  }

  send_pending-IsConfirmed :
      (up : ℕ) (only : Option ℕ) (before : Assoc ℕ (DownstreamData H)) (s : Sv1Server H V)
      → IsParked before s.pending_target_updates
      → IsRetargeted only up before s.downstreams
      → IsConfirmed s (send_pending rates up only s)
  unfolding send_pending
  send_pending-IsConfirmed up only before s p set =
      let kept = keep_pending up only s.pending_target_updates in
      let taken = get_pending_difficulty_updates up only s.pending_target_updates in
      let quiet = record s { pending_target_updates = kept } in
      let sends = send_set_difficulties-SendsSafely rates s.downstreams taken quiet (
        taken_safe up only before s.downstreams set taken
          (get_pending-Every up only s.pending_target_updates)) in
      record {
        parked =
            rw (sends.kept_downstreams, sends.kept_pending)
              (kept-IsParked up only before s.downstreams s.pending_target_updates set p);
        added = sends.added;
        sent = sends.sent;
        safe = rw (sends.kept_downstreams) sends.safe;
        parked_or_sent = λ id t d found built reach.
            elim (kept_or_taken up only id t s.pending_target_updates found) [
              | inl kept_it ↦ inl (ap (lookup id) sends.kept_pending ∙ kept_it)
              | inr went ↦ inr (sends.reached id t d went built reach)
            ];
      }

  -- Setting upstream targets in the miners' data alone changes nothing else.
  registered-IsConfirmed :
      (s : Sv1Server H V) (ds : Assoc ℕ (DownstreamData H)) (t : Sv1Server H V)
      → IsConfirmed (record s { downstreams = ds }) t
      → IsConfirmed s t
  registered-IsConfirmed s ds t c = record {
    parked = c.parked;
    added = c.added;
    sent = c.sent;
    safe = c.safe;
    parked_or_sent = c.parked_or_sent;
  }

  same-IsConfirmed :
      (s : Sv1Server H V) → IsParked s.downstreams s.pending_target_updates → IsConfirmed s s
  same-IsConfirmed s p = record {
    parked = p;
    added = [];
    sent = refl;
    safe = tt;
    parked_or_sent = λ id t d found built reach. inl found;
  }

  set_target_of-IsConfirmed :
      (up : ℕ) (o : Option ℕ) (s : Sv1Server H V)
      → IsParked s.downstreams s.pending_target_updates
      → IsConfirmed s (set_target_of rates up o s)
  set_target_of-IsConfirmed up none s p = same-IsConfirmed s p
  set_target_of-IsConfirmed up (some id) s p =
      let ds = adjust id (set_upstream_target up) s.downstreams in
      elim (Option-cases (lookup id s.downstreams)) [
        | inl nobody ↦ rw (nobody, set_target_of) (same-IsConfirmed s p)
        | inr (m, it) ↦
            rw (it, set_target_of)
              (registered-IsConfirmed s ds _ (
                send_pending-IsConfirmed up (some id) s.downstreams (record s { downstreams = ds })
                  p (adjust-IsRetargeted id up s.downstreams)))
      ]

  if-IsConfirmed :
      (b : Bool) (s x y : Sv1Server H V)
      → IsConfirmed s x
      → IsConfirmed s y
      → IsConfirmed s (if b then x else y)
  if-IsConfirmed true s x y p q = p
  if-IsConfirmed false s x y p q = q

  -- When every parked target is harder than the upstream target of its miner, then after a SetTarget
  -- it still is, each difficulty that was sent comes from a target that is not harder than the
  -- miner's upstream target, and a parked target stays parked or is sent, when its difficulty can be
  -- built and the miner's channel is open.
  pub handle_set_target_message-IsConfirmed :
      (channel_id target : ℕ) (s : Sv1Server H V)
      → IsParked s.downstreams s.pending_target_updates
      → IsConfirmed s (handle_set_target_message rates channel_id target s)
  unfolding handle_set_target_message handle_aggregated_set_target handle_non_aggregated_set_target
  handle_set_target_message-IsConfirmed channel_id up s p =
      let ds = map_values (set_upstream_target up) s.downstreams in
      let all = send_pending rates up none (record s { downstreams = ds }) in
      let one = lookup channel_id s.channel_id_to_downstream_id in
      if-IsConfirmed s.is_aggregated s all (set_target_of rates up one s)
        (registered-IsConfirmed s ds all (
          send_pending-IsConfirmed up none s.downstreams (record s { downstreams = ds }) p
            (map_values-IsRetargeted up s.downstreams)))
        (set_target_of-IsConfirmed up one s p)
