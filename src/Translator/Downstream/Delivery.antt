-- ===== src/Translator/Downstream/Delivery.antt =====
-- `handle_sv1_server_message`, `enable_notification_forwarding` and `send_job`.
use sv2_apps_fork.Prelude.{
  ℕ, zero, suc, ◌-◌, true, not, ◌&&◌, ◌||◌, Option, none, some, List, [], ◌∷◌, ◌++◌, is_some,
  if◌then◌else◌,
}
use sv2_apps_fork.Translator.Downstream.{
  ready, is_ready, setup_complete, Extranonce, Notify, Message, set_difficulty, set_extranonce,
  notify, Sv1ServerEvent, job, difficulty, extranonce, complete, DownstreamData, Downstream, Result,
  ok, channel_error, record_job_validation_context,
}

-- The loop over what is to be sent; a message that the channel refuses ends it.
unfoldable pub send_all : List Message → Downstream → Downstream × Result
send_all [] d = (d, ok)
send_all (m ∷ ms) d = elim (d.room) [
  | zero ↦ (d, channel_error)
  | suc n ↦ send_all ms (record d { room = n; sent = m ∷ d.sent })
]

abbrev pub or_current : Option ℕ → ℕ → ℕ
or_current none current = current
or_current (some pending) current = pending

-- The pending target becomes the miner's with the difficulty that is sent.
abbrev pub take_difficulty : DownstreamData → DownstreamData
take_difficulty data' = record data' {
  cached_set_difficulty = none;
  target =
      if is_some data'.cached_set_difficulty
      then or_current data'.pending_target data'.target
      else data'.target;
  pending_target = if is_some data'.cached_set_difficulty then none else data'.pending_target;
}

abbrev pub difficulty_message : Option ℕ → List Message
difficulty_message none = []
difficulty_message (some d) = set_difficulty d ∷ []

abbrev pub extranonce_message : Option Extranonce → List Message
extranonce_message none = []
extranonce_message (some e) = set_extranonce e ∷ []

unfoldable pub send_job : ℕ → Notify → Downstream → Downstream × Result
unfolding send_all
send_job now n d =
    let data' = d.downstream_data in
    let after =
      record_job_validation_context now n
        (record (take_difficulty data') { cached_set_extranonce = none }) in
    let sending =
      send_all
        (difficulty_message data'.cached_set_difficulty
          ++ (extranonce_message data'.cached_set_extranonce ++ (notify n ∷ [])))
        (record d { downstream_data = after }) in
    if is_some data'.cached_set_extranonce && not data'.supports_set_extranonce
    then (record d { disconnected = true }, ok)
    else sending

abbrev pub become_ready : Downstream × Result → Downstream × Result
become_ready (d, ok) =
    (record d { downstream_data = record d.downstream_data { session_state = ready } }, ok)
become_ready (d, channel_error) = (d, channel_error)

abbrev pub release : ℕ → Option Notify → Downstream → Downstream × Result
release now none d = (d, ok)
release now (some n) d = send_job now n d

unfoldable pub enable_notification_forwarding : ℕ → Downstream → Downstream × Result
enable_notification_forwarding now d =
    let data' = d.downstream_data in
    let released =
      release now data'.cached_notify
        (record d { downstream_data = record data' { cached_notify = none } }) in
    if is_ready data'.session_state || not (setup_complete data'.session_state)
    then (d, ok)
    else become_ready released

abbrev pub with_data : Downstream → DownstreamData → Downstream × Result
with_data d data' = (record d { downstream_data = data' }, ok)

unfoldable pub handle_sv1_server_message : ℕ → Sv1ServerEvent → Downstream → Downstream × Result
handle_sv1_server_message now complete d = enable_notification_forwarding now d
handle_sv1_server_message now (difficulty message) d =
    with_data d (record d.downstream_data { cached_set_difficulty = some message })
handle_sv1_server_message now (job n) d =
    let sending = send_job now n d in
    if is_ready d.downstream_data.session_state
    then sending
    else with_data d (record d.downstream_data { cached_notify = some n })
handle_sv1_server_message now (extranonce message notify_miner) d =
    let data' = d.downstream_data in
    with_data d (record data' {
      pending_set_extranonce_notifications = data'.pending_set_extranonce_notifications - 1;
      extranonce = if notify_miner then message else data'.extranonce;
      cached_set_extranonce = if notify_miner then some message else data'.cached_set_extranonce;
      cached_notify = none;
    })
