-- ===== src/Translator/Downstream/Difficulty.antt =====
-- A pending target that changes while a difficulty is queued.
use sv2_apps_fork.Prelude.{ℕ, suc, ◌≡◌, refl, none, ◌∷◌}
use sv2_apps_fork.Translator.Downstream.{
  ready, Notify, set_difficulty, notify, job, difficulty, Downstream, ok, set_pending_target,
  record_job_validation_context,
}
use sv2_apps_fork.Translator.Downstream.Delivery.{send_all, send_job, handle_sv1_server_message}

-- A ready miner, for which no extranonce waits and whose channel takes two messages, is sent an easy
-- difficulty while the easy target is pending; vardiff then parks a
-- harder target, which makes it the pending one without a message; the next job goes out with the
-- easy difficulty, and the harder target becomes the one that the miner's shares are checked with.
pub stale_difficulty :
    (now easy hard easy_difficulty room : ℕ) (n : Notify) (d : Downstream)
    → d.downstream_data.session_state ≡ ready
    → d.downstream_data.cached_set_extranonce ≡ none
    → let pending = record d {
      room = suc (suc room);
      downstream_data = set_pending_target easy d.downstream_data;
    } in
      let (told, r) = handle_sv1_server_message now (difficulty easy_difficulty) pending in
      let harder = record told { downstream_data = set_pending_target hard told.downstream_data } in
      let (after, r') = handle_sv1_server_message now (job n) harder in
      (r' ≡ ok)
      × (after.sent ≡ notify n ∷ set_difficulty easy_difficulty ∷ d.sent)
      × (after.downstream_data.target ≡ hard)
unfolding handle_sv1_server_message send_job send_all set_pending_target
    record_job_validation_context
stale_difficulty now easy hard easy_difficulty room n d is quiet = rw (is, quiet) (refl, refl, refl)
