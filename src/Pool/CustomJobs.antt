-- ===== src/Pool/CustomJobs.antt =====
-- channel_manager/mining_message_handler.rs: `handle_set_custom_mining_job`, which asks the embedded
-- job declarator. While the declarator is awaited, connections may end.
pub mod Kept
pub mod Once
use sv2_apps_fork.Prelude.{
  ℕ, String, Bool, true, false, ◌&&◌, Option, none, some, List, [], ◌∷◌, if◌then◌else◌, nat_eq,
  is_some,
}
use sv2_apps_fork.Prelude.Assoc.{Assoc, lookup, adjust, adjusted}
use sv2_apps_fork.JdServer.Messages.{
  SetCustomMiningJob, SetCustomMiningJobResponse, accepted, refused,
}
use sv2_apps_fork.JdServer.Declarator.{JobDeclarator}
use sv2_apps_fork.JdServer.Declarator.Lifecycle
use sv2_apps_fork.Pool.Messages.{
  Mining, set_custom_mining_job_success, set_custom_mining_job_refused,
  set_custom_mining_job_jd_not_supported, set_custom_mining_job_invalid_channel_id, downstream,
  channels, channel_error_sender, downstream_not_found, Result, ok, err, panicked,
}
use sv2_apps_fork.Pool.Library.{Try, success, failure, ChannelOps, Library}
use sv2_apps_fork.Pool.Manager.{
  Downstream, ChannelManager, disconnecting, Guarded, with_registered_downstream, forward,
  remove_downstream, put_extended,
}

module _ (lib : Library) (client : ℕ) (msg : SetCustomMiningJob) where
  -- The only message; a send that fails disconnects. `closed`: nobody receives at the other end.
  abbrev pub answer_job :
      Bool → Mining → ChannelManager lib → ChannelManager lib × Result (Unit {0})
  answer_job closed message cm =
      if closed && is_some (lookup client cm.downstream_sender)
      then (cm, err (disconnecting client channel_error_sender))
      else (forward lib (downstream client message) cm, ok tt)

  abbrev pub answer_result :
      Bool → ChannelManager lib × Result Mining → ChannelManager lib × Result (Unit {0})
  answer_result closed (cm, ok message) = answer_job closed message cm
  answer_result closed (cm, err e) = (cm, err e)
  answer_result closed (cm, panicked) = (cm, panicked)

  abbrev pub identity_of : Option lib.ExtendedChannel → Option String
  identity_of none = none
  identity_of (some channel) = some (lib.extended.get_user_identity channel)

  -- The connections that end while the declarator is awaited.
  unfoldable pub remove_all : List ℕ → ChannelManager lib → ChannelManager lib
  remove_all [] cm = cm
  remove_all (downstream_id ∷ gone) cm = remove_all gone (remove_downstream lib downstream_id cm)

  abbrev pub set_on :
      Downstream lib
      → ChannelManager lib
      → lib.ExtendedChannel × Try ℕ ℕ
      → ChannelManager lib × Downstream lib × Result Mining
  set_on d cm (channel, success job_id) = (
    cm,
    put_extended lib msg.channel_id d channel,
    ok (set_custom_mining_job_success msg.channel_id msg.request_id job_id),
  )
  set_on d cm (channel, failure e) =
      (cm, put_extended lib msg.channel_id d channel, err (disconnecting client (channels e)))

  abbrev pub set_at : Option lib.ExtendedChannel → Guarded lib Mining
  set_at none cm d =
      (cm, d, ok (set_custom_mining_job_invalid_channel_id msg.request_id msg.channel_id))
  set_at (some channel) cm d = set_on d cm (lib.on_set_custom_mining_job channel msg)

  -- The declarator has accepted the job: the channel, if it is still there, takes it.
  unfoldable pub commit_custom_job : Guarded lib Mining
  commit_custom_job cm d = set_at (lookup msg.channel_id d.extended_channels) cm d

  abbrev pub with_declarator : JobDeclarator lib.Validator → ChannelManager lib → ChannelManager lib
  with_declarator jd cm = record cm { job_declarator = some jd }

  unfoldable pub after_declarator :
      Bool
      → List ℕ
      → JobDeclarator lib.Validator × SetCustomMiningJobResponse
      → ChannelManager lib
      → ChannelManager lib × Result (Unit {0})
  after_declarator closed gone (jd, refused request_id channel_id code) cm =
      answer_job closed (set_custom_mining_job_refused (refused request_id channel_id code))
        (remove_all gone (with_declarator jd cm))
  after_declarator closed gone (jd, accepted channel_id request_id job_id) cm =
      answer_result closed (
        with_registered_downstream lib client commit_custom_job
          (remove_all gone (with_declarator jd cm)))

  abbrev pub job_for :
      Bool
      → List ℕ
      → Option String
      → Option (JobDeclarator lib.Validator)
      → ChannelManager lib
      → ChannelManager lib × Result (Unit {0})
  job_for closed gone user none cm =
      answer_job closed (set_custom_mining_job_jd_not_supported msg.request_id msg.channel_id) cm
  job_for closed gone none (some jd) cm =
      answer_job closed (set_custom_mining_job_invalid_channel_id msg.request_id msg.channel_id) cm
  job_for closed gone (some user) (some jd) cm =
      after_declarator closed gone (Lifecycle.handle_set_custom_mining_job lib.engine msg user jd)
        cm

  abbrev pub job_of :
      Bool
      → List ℕ
      → Option (Downstream lib)
      → ChannelManager lib
      → ChannelManager lib × Result (Unit {0})
  job_of closed gone none cm = (cm, err (disconnecting client (downstream_not_found client)))
  job_of closed gone (some d) cm =
      job_for closed gone (identity_of (lookup msg.channel_id d.extended_channels))
        cm.job_declarator cm

  unfoldable pub handle_set_custom_mining_job :
      Bool → List ℕ → ChannelManager lib → ChannelManager lib × Result (Unit {0})
  handle_set_custom_mining_job closed gone cm = job_of closed gone (lookup client cm.downstreams) cm
