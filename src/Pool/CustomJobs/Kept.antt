-- ===== src/Pool/CustomJobs/Kept.antt =====
-- Which steps of a custom job leave the embedded job declarator as it was.
use sv2_apps_fork.Prelude.{
  ℕ, ◌≡◌, refl, ◌∙◌, Bool, true, false, ◌&&◌, Option, none, some, List, [], ◌∷◌, if◌then◌else◌,
  is_some, Option-cases, inl, inr, nat_eq,
}
use sv2_apps_fork.Prelude.Assoc.{lookup}
use sv2_apps_fork.JdServer.Messages.{
  SetCustomMiningJob, SetCustomMiningJobResponse, accepted, refused,
}
use sv2_apps_fork.JdServer.Declarator.{JobDeclarator}
use sv2_apps_fork.Pool.Messages.{
  Mining, downstream, channel_error_sender, Result, ok, err, panicked,
}
use sv2_apps_fork.Pool.Library.{Library, Try, success, failure}
use sv2_apps_fork.Pool.Manager.{
  Downstream, ChannelManager, with_registered_downstream, forward, write_back, remove_downstream,
  disconnecting,
}
use sv2_apps_fork.Pool.CustomJobs.{
  after_declarator, answer_job, answer_result, remove_all, commit_custom_job, set_at, set_on,
  with_declarator,
}

module _ (lib : Library) (client : ℕ) (msg : SetCustomMiningJob) where
  sent_or_not :
      (cm : ChannelManager lib) (b : Bool) (x y : ChannelManager lib × Result (Unit {0}))
      → x.0.job_declarator ≡ cm.job_declarator
      → y.0.job_declarator ≡ cm.job_declarator
      → (if◌then◌else◌ {A = ChannelManager lib × Result (Unit {0})} b x y).0.job_declarator
        ≡ cm.job_declarator
  sent_or_not cm true x y p q = p
  sent_or_not cm false x y p q = q

  pub sent_declarator :
      (cm : ChannelManager lib) (closed : Bool) (message : Mining)
      → (answer_job lib client msg closed message cm).0.job_declarator ≡ cm.job_declarator
  unfolding forward
  sent_declarator cm closed message =
      sent_or_not cm (closed && is_some (lookup client cm.downstream_sender))
        (cm, err (disconnecting client channel_error_sender))
        (forward lib (downstream client message) cm, ok tt) refl refl

  pub remove_all_declarator :
      (gone : List ℕ) (cm : ChannelManager lib)
      → (remove_all lib client msg gone cm).job_declarator ≡ cm.job_declarator
  unfolding remove_all remove_downstream
  remove_all_declarator [] cm = refl
  remove_all_declarator (g ∷ gone) cm = remove_all_declarator gone (remove_downstream lib g cm)

  result_declarator :
      (cm : ChannelManager lib) (closed : Bool) (r : Result Mining)
      → (answer_result lib client msg closed (cm, r)).0.job_declarator ≡ cm.job_declarator
  result_declarator cm closed (ok message) = sent_declarator cm closed message
  result_declarator cm closed (err e) = refl
  result_declarator cm closed panicked = refl

  set_on_declarator :
      (cm : ChannelManager lib) (d : Downstream lib) (x : lib.ExtendedChannel × Try ℕ ℕ)
      → (set_on lib client msg d cm x).0.job_declarator ≡ cm.job_declarator
  set_on_declarator cm d (channel, success job_id) = refl
  set_on_declarator cm d (channel, failure e) = refl

  set_at_declarator :
      (cm : ChannelManager lib) (d : Downstream lib) (o : Option lib.ExtendedChannel)
      → (set_at lib client msg o cm d).0.job_declarator ≡ cm.job_declarator
  set_at_declarator cm d none = refl
  set_at_declarator cm d (some channel) =
      set_on_declarator cm d (lib.on_set_custom_mining_job channel msg)

  commit_declarator :
      (cm : ChannelManager lib) (closed : Bool)
      → (answer_result lib client msg closed (
          with_registered_downstream lib client
            (commit_custom_job lib client msg)
            cm)).0.job_declarator
        ≡ cm.job_declarator
  unfolding with_registered_downstream commit_custom_job
  commit_declarator cm closed = elim (Option-cases (lookup client cm.downstreams)) [
    | inl gone ↦ rw gone refl
    | inr (d, found) ↦
        let x = set_at lib client msg (lookup msg.channel_id d.extended_channels) cm d in
        rw found (
          result_declarator (write_back lib client x).0 closed x.2
          ∙ set_at_declarator cm d (lookup msg.channel_id d.extended_channels))
  ]

  pub after_declarator_lem :
      (cm : ChannelManager lib) (closed : Bool) (gone : List ℕ)
      (x : JobDeclarator lib.Validator × SetCustomMiningJobResponse)
      → (after_declarator lib client msg closed gone x cm).0.job_declarator ≡ some x.0
  unfolding after_declarator
  after_declarator_lem cm closed gone (jd, refused r c code) =
      sent_declarator (remove_all lib client msg gone (with_declarator lib client msg jd cm)) closed
        _
      ∙ remove_all_declarator gone (with_declarator lib client msg jd cm)
  after_declarator_lem cm closed gone (jd, accepted c r job) =
      commit_declarator (remove_all lib client msg gone (with_declarator lib client msg jd cm))
        closed
      ∙ remove_all_declarator gone (with_declarator lib client msg jd cm)
