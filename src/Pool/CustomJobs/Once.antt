-- ===== src/Pool/CustomJobs/Once.antt =====
-- Custom jobs at the pool and tokens at its job declarator: what an accepted job leaves behind.
use sv2_apps_fork.Prelude.{
  ℕ, ◌≡◌, refl, ap, ◌∙◌, sym, subst, Bool, Option, none, some, List, [], ◌∷◌, String, nat_eq,
}
use sv2_apps_fork.Prelude.Assoc.{lookup}
use sv2_apps_fork.JdServer.Messages.{
  SetCustomMiningJob, accepted, refused, invalid_mining_job_token,
}
use sv2_apps_fork.JdServer.Declarator.{JobDeclarator}
use sv2_apps_fork.JdServer.Declarator.Lifecycle
use sv2_apps_fork.Pool.Messages.{set_custom_mining_job_refused, Result}
use sv2_apps_fork.Pool.Library.{Library}
use sv2_apps_fork.Pool.Manager.{Downstream, ChannelManager}
use sv2_apps_fork.Pool.CustomJobs.{
  handle_set_custom_mining_job, after_declarator, answer_job, remove_all, with_declarator,
}
use sv2_apps_fork.JdServer.Declarator.Spent.{
  IsSpent, accepted-IsSpent, handle_set_custom_mining_job-IsSpent, spent_refused,
}
use sv2_apps_fork.Pool.CustomJobs.{identity_of, job_for, job_of}
use sv2_apps_fork.Pool.CustomJobs.Kept.{sent_declarator, after_declarator_lem}

module _ (lib : Library) (client : ℕ) (msg : SetCustomMiningJob) where
  -- The client is registered and has the extended channel, under a user identity.
  pub record Ready (cm : ChannelManager lib) (user : String) : Type 0 where
    pub entry : Downstream lib
    pub channel : lib.ExtendedChannel
    pub registered : lookup client cm.downstreams ≡ some entry
    pub holds : lookup msg.channel_id entry.extended_channels ≡ some channel
    pub identity : lib.extended.get_user_identity channel ≡ user

  ready_lem :
      (cm : ChannelManager lib) (jd : JobDeclarator lib.Validator) (user : String) (closed : Bool)
      (gone : List ℕ)
      → Ready cm user
      → cm.job_declarator ≡ some jd
      → handle_set_custom_mining_job lib client msg closed gone cm
        ≡ after_declarator lib client msg closed gone
            (Lifecycle.handle_set_custom_mining_job lib.engine msg user jd)
            cm
  unfolding handle_set_custom_mining_job
  ready_lem cm jd user closed gone r declares =
      rw (r.registered, r.holds, declares, r.identity) refl

  same_declarator :
      (cm : ChannelManager lib) (jd : JobDeclarator lib.Validator)
      → cm.job_declarator ≡ some jd
      → with_declarator lib client msg jd cm ≡ cm
  same_declarator cm jd e = ap (λ o. record cm { job_declarator = o }) (sym e)

-- A custom job that a client sends: whether nobody receives the answer, and which connections end
-- while the declarator is awaited.
pub record CustomJob : Type 0 where
  pub client : ℕ
  pub message : SetCustomMiningJob
  pub closed : Bool
  pub gone : List ℕ

module _ (lib : Library) where
  abbrev pub handle : CustomJob → ChannelManager lib → ChannelManager lib
  handle j cm = (handle_set_custom_mining_job lib j.client j.message j.closed j.gone cm).0

  -- Custom jobs one after the other.
  unfoldable pub handle_all : List CustomJob → ChannelManager lib → ChannelManager lib
  handle_all [] cm = cm
  handle_all (j ∷ jobs) cm = handle_all jobs (handle j cm)

  -- The pool's job declarator does not take the token.
  abbrev SpentAt : List ℕ → ChannelManager lib → Type 0
  SpentAt bytes cm =
      (jd : JobDeclarator lib.Validator) × (cm.job_declarator ≡ some jd)
      × IsSpent lib.engine bytes jd

  job_for-SpentAt :
      (j : CustomJob) (bytes : List ℕ) (user : Option String) (cm : ChannelManager lib)
      → SpentAt bytes cm
      → SpentAt bytes (job_for lib j.client j.message j.closed j.gone user cm.job_declarator cm).0
  job_for-SpentAt j bytes none cm (jd, declares, spent) =
      subst (λ o. SpentAt bytes (job_for lib j.client j.message j.closed j.gone none o cm).0)
        (sym declares) (jd, sent_declarator lib j.client j.message cm j.closed _ ∙ declares, spent)
  job_for-SpentAt j bytes (some user) cm (jd, declares, spent) =
      let x = Lifecycle.handle_set_custom_mining_job lib.engine j.message user jd in
      subst (λ o. SpentAt bytes (job_for lib j.client j.message j.closed j.gone (some user) o cm).0)
        (sym declares)
        (
          x.0,
          after_declarator_lem lib j.client j.message cm j.closed j.gone x,
          handle_set_custom_mining_job-IsSpent lib.engine bytes j.message user jd spent,
        )

  job_of-SpentAt :
      (j : CustomJob) (bytes : List ℕ) (o : Option (Downstream lib)) (cm : ChannelManager lib)
      → SpentAt bytes cm
      → SpentAt bytes (job_of lib j.client j.message j.closed j.gone o cm).0
  job_of-SpentAt j bytes none cm spent = spent
  job_of-SpentAt j bytes (some d) cm spent =
      job_for-SpentAt j bytes
        (identity_of lib j.client j.message (lookup j.message.channel_id d.extended_channels)) cm
        spent

  handle-SpentAt :
      (j : CustomJob) (bytes : List ℕ) (cm : ChannelManager lib)
      → SpentAt bytes cm
      → SpentAt bytes (handle j cm)
  unfolding handle_set_custom_mining_job
  handle-SpentAt j bytes cm spent = job_of-SpentAt j bytes (lookup j.client cm.downstreams) cm spent

  handle_all-SpentAt :
      (jobs : List CustomJob) (bytes : List ℕ) (cm : ChannelManager lib)
      → SpentAt bytes cm
      → SpentAt bytes (handle_all jobs cm)
  unfolding handle_all
  handle_all-SpentAt [] bytes cm spent = spent
  handle_all-SpentAt (j ∷ jobs) bytes cm spent =
      handle_all-SpentAt jobs bytes (handle j cm) (handle-SpentAt j bytes cm spent)

  used-SpentAt :
      (j : CustomJob) (cm : ChannelManager lib) (jd : JobDeclarator lib.Validator) (user : String)
      (channel request job : ℕ)
      → Ready lib j.client j.message cm user
      → cm.job_declarator ≡ some jd
      → (Lifecycle.handle_set_custom_mining_job lib.engine j.message user jd).1
        ≡ accepted channel request job
      → SpentAt j.message.token (handle j cm)
  used-SpentAt j cm jd user channel request job ready declares won =
      let x = Lifecycle.handle_set_custom_mining_job lib.engine j.message user jd in
      (
        x.0,
        ap (λ (r : ChannelManager lib × Result (Unit {0})). r.0.job_declarator)
              (ready_lem lib j.client j.message cm jd user j.closed j.gone ready declares)
            ∙ after_declarator_lem lib j.client j.message cm j.closed j.gone x,
        accepted-IsSpent lib.engine j.message user jd channel request job won,
      )

  SpentAt-refused :
      (j : CustomJob) (cm : ChannelManager lib) (user : String)
      → SpentAt j.message.token cm
      → Ready lib j.client j.message cm user
      → handle_set_custom_mining_job lib j.client j.message j.closed j.gone cm
        ≡ answer_job lib j.client j.message j.closed
            (set_custom_mining_job_refused
              (refused j.message.request_id j.message.channel_id invalid_mining_job_token))
            (remove_all lib j.client j.message j.gone cm)
  unfolding after_declarator
  SpentAt-refused j cm user (jd, declares, spent) ready =
      ready_lem lib j.client j.message cm jd user j.closed j.gone ready declares
      ∙ ap (λ y. after_declarator lib j.client j.message j.closed j.gone y cm)
          (spent_refused lib.engine j.message user jd spent)
      ∙ ap
          (λ m.
            answer_job lib j.client j.message j.closed
              (set_custom_mining_job_refused
                (refused j.message.request_id j.message.channel_id invalid_mining_job_token))
              (remove_all lib j.client j.message j.gone m))
          (same_declarator lib j.client j.message cm jd declares)

  -- The pool declares jobs, a registered client has the extended channel of a custom job, and the job
  -- declarator accepts the job. After any further custom jobs, of any clients and for any tokens, and
  -- nothing else, a registered client that has the extended channel of another custom job presents the
  -- same token. That job is refused for its token, and besides the connections that end meanwhile and
  -- the sending of the refusal nothing changes.
  pub custom_job_at_most_once :
      (first again : CustomJob) (between : List CustomJob) (cm : ChannelManager lib)
      (jd : JobDeclarator lib.Validator) (user user' : String) (channel request job : ℕ)
      → Ready lib first.client first.message cm user
      → cm.job_declarator ≡ some jd
      → (Lifecycle.handle_set_custom_mining_job lib.engine first.message user jd).1
        ≡ accepted channel request job
      → again.message.token ≡ first.message.token
      → Ready lib again.client again.message (handle_all between (handle first cm)) user'
      → handle_set_custom_mining_job lib again.client again.message again.closed again.gone
          (handle_all between (handle first cm))
        ≡ answer_job lib again.client again.message again.closed
            (set_custom_mining_job_refused
              (refused again.message.request_id again.message.channel_id invalid_mining_job_token))
            (remove_all lib again.client again.message again.gone
              (handle_all between (handle first cm)))
  custom_job_at_most_once first again between cm jd user user' channel request job ready declares
        won same ready' =
      let after = handle_all between (handle first cm) in
      let spent : SpentAt first.message.token after =
        handle_all-SpentAt between first.message.token (handle first cm)
          (used-SpentAt first cm jd user channel request job ready declares won) in
      SpentAt-refused again after user' (subst (λ t. SpentAt t after) (sym same) spent) ready'
