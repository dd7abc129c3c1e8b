-- ===== src/Translator/Vardiff/Advertised.antt =====
-- `handle_vardiff_updates` and the difficulties that it sends.
use sv2_apps_fork.Prelude.{ℕ, ◌≡◌, refl, ap, ◌∙◌, inl, inr, List, [], ◌++◌, nat_eq, Bool-cases}
use sv2_apps_fork.Translator.Vardiff.{
  Rates, Result, ok, shutdown, panic, Sv1Server, Round, visit_all,
}
use sv2_apps_fork.Translator.Vardiff.Upstream.{send_update_channel_messages}
use sv2_apps_fork.Translator.Vardiff.Delivery.{send_immediate, first_round, handle_vardiff_updates}
use sv2_apps_fork.Translator.Vardiff.Parking.{
  Every, safe_in, IsParked, IsVisited, visit_all-IsVisited,
}
use sv2_apps_fork.Translator.Vardiff.Quiet.{IsQuiet, send_update_channel_messages-IsQuiet}
use sv2_apps_fork.Translator.Vardiff.Sending.{IsSafeEvent, send_set_difficulties-SendsSafely}

module _ {H V : Type 0} (rates : Rates H V) where
  -- A round over `s` that ended in `t`.
  pub record IsRound (s t : Sv1Server H V) : Type 0 where
    pub parked : IsParked t.downstreams t.pending_target_updates
    pub same : (id target : ℕ) → safe_in id target t.downstreams ≡ safe_in id target s.downstreams
    pub added : List (ℕ × ℕ)
    pub sent : t.events ≡ added ++ s.events
    pub safe : Every (IsSafeEvent rates s.downstreams) added

  quiet-IsRound :
      (s : Sv1Server H V) (r : Round H V) (t : Sv1Server H V)
      → IsVisited s r
      → IsQuiet r.server t
      → IsRound s t
  quiet-IsRound s r t i q = record {
    parked = rw (q.downstreams, q.pending) i.parked;
    same = λ id target. rw (q.downstreams) (i.same id target);
    added = [];
    sent = q.events ∙ i.events;
    safe = tt;
  }

  immediate-IsRound :
      (s : Sv1Server H V) (r : Round H V) (sending : Sv1Server H V × Result)
      → IsVisited s r
      → IsQuiet r.server sending.0
      → IsRound s (send_immediate rates r.immediate_updates sending).0
  immediate-IsRound s r (t, shutdown) i q = quiet-IsRound s r t i q
  immediate-IsRound s r (t, panic) i q = quiet-IsRound s r t i q
  immediate-IsRound s r (t, ok) i q =
      let sends =
        send_set_difficulties-SendsSafely rates s.downstreams r.immediate_updates t i.immediate in
      let same = sends.kept_downstreams ∙ q.downstreams in
      record {
        parked = rw (same, sends.kept_pending ∙ q.pending) i.parked;
        same = λ id target. rw (same) (i.same id target);
        added = sends.added;
        sent = sends.sent ∙ ap (λ l. sends.added ++ l) (q.events ∙ i.events);
        safe = sends.safe;
      }

  -- When every parked target is harder than the upstream target of its miner, then after a round it
  -- still is, the upstream targets are unchanged, and each difficulty that the round sends comes from
  -- a target that is not harder than the upstream target of the miner that gets it.
  pub handle_vardiff_updates-IsRound :
      (s : Sv1Server H V)
      → IsParked s.downstreams s.pending_target_updates
      → IsRound s (handle_vardiff_updates rates s).0
  unfolding handle_vardiff_updates
  handle_vardiff_updates-IsRound s p =
      let r = visit_all rates s.vardiff (first_round rates s) in
      let i =
        visit_all-IsVisited rates s s.vardiff (first_round rates s)
          (record { parked = p; same = λ id t. refl; events = refl; immediate = tt }) in
      elim (Bool-cases r.panicked) [
        | inl panics ↦ rw (panics) (
            quiet-IsRound s r r.server i
              (record { downstreams = refl; pending = refl; events = refl }))
        | inr goes ↦ rw (goes) (
            immediate-IsRound s r (send_update_channel_messages rates r.all_updates r.server) i
              (send_update_channel_messages-IsQuiet rates r.all_updates r.server))
      ]
