-- ===== src/Pool/Refinement/Jobs.antt =====
-- A custom job, with the connections that end meanwhile.
use sv2_apps_fork.Prelude.{
  ℕ, ◌≡◌, refl, ap, subst, Bool, true, false, ◌||◌, ◌&&◌, Option, none, some, List, [], ◌∷◌, nat_eq,
  if◌then◌else◌, is_some, arith, Option-cases, inl, inr, contains, String,
}
use sv2_apps_fork.Prelude.Assoc.{lookup}
use sv2_apps_fork.JdServer.Messages.{
  SetCustomMiningJob, SetCustomMiningJobResponse, accepted, refused,
}
use sv2_apps_fork.JdServer.Declarator.{JobDeclarator}
use sv2_apps_fork.JdServer.Declarator.Lifecycle
use sv2_apps_fork.Pool.Messages.{
  Mining, downstream, disconnect, channel_error_sender, downstream_not_found,
  set_custom_mining_job_refused, set_custom_mining_job_jd_not_supported,
  set_custom_mining_job_invalid_channel_id, Result, ok, err, panicked,
}
use sv2_apps_fork.Pool.Library.{Try, success, failure, Library}
use sv2_apps_fork.Pool.Manager.{
  Downstream, ChannelManager, with_registered_downstream, forward, write_back, remove_downstream,
  put_extended, disconnecting, forward_all,
}
use sv2_apps_fork.Pool.CustomJobs.{
  handle_set_custom_mining_job, after_declarator, answer_job, answer_result, remove_all,
  commit_custom_job, set_at, set_on, with_declarator, job_for, identity_of,
}
use sv2_apps_fork.Pool.System.{settle}
use sv2_apps_fork.Pool.Views.{Move, drops}
use sv2_apps_fork.Pool.Refinement.{
  Explained, Blames, Local, some-inj, quiet-Explained, then-Explained, removed-Explained,
  error-Explained, forwarded-Explained, written-Explained,
}
use sv2_apps_fork.Pool.Refinement.Handlers.{same-Local}
use sv2_apps_fork.Pool.Refinement.Channels.{is_some-adjust}

module _ (lib : Library) (client : ℕ) (msg : SetCustomMiningJob) (may : Move → Bool)
    (own : may (drops client) ≡ true) where
  sent-Explained :
      (base cm after : ChannelManager lib) (closed : Bool) (message : Mining) (b : Bool)
      → Explained lib may base cm
      → settle lib (
          if b
          then (cm, err (disconnecting client channel_error_sender))
          else (forward lib (downstream client message) cm, ok tt))
        ≡ some after
      → Explained lib may base after
  unfolding forward_all
  sent-Explained base cm after closed message true p h =
      then-Explained lib may base cm after p (
        error-Explained lib may client channel_error_sender (disconnect client) cm after own refl h)
  sent-Explained base cm after closed message false p h =
      subst (Explained lib may base) (some-inj h) (
        then-Explained lib may base cm _ p
          (forwarded-Explained lib may (downstream client message ∷ []) cm))

  answered-Explained :
      (base cm after : ChannelManager lib) (closed : Bool) (message : Mining)
      → Explained lib may base cm
      → settle lib (answer_job lib client msg closed message cm) ≡ some after
      → Explained lib may base after
  answered-Explained base cm after closed message p h =
      sent-Explained base cm after closed message
        (closed && is_some (lookup client cm.downstream_sender)) p h

  result-Explained :
      (base cm after : ChannelManager lib) (closed : Bool) (r : Result Mining)
      → Explained lib may base cm
      → Blames client r
      → settle lib (answer_result lib client msg closed (cm, r)) ≡ some after
      → Explained lib may base after
  result-Explained base cm after closed (ok message) p b h =
      answered-Explained base cm after closed message p h
  result-Explained base cm after closed (err e) p b h =
      then-Explained lib may base cm after p
        (error-Explained lib may client e.kind e.action cm after own b h)
  result-Explained base cm after closed panicked p b h = absurd (cc)

  remove_all-Explained :
      (gone : List ℕ) (cm : ChannelManager lib)
      → ((c : ℕ) → contains c gone ≡ true → may (drops c) ≡ true)
      → Explained lib may cm (remove_all lib client msg gone cm)
  unfolding remove_all
  remove_all-Explained [] cm theirs = quiet-Explained lib may cm cm (λ c k. refl) (λ c k. refl)
  remove_all-Explained (g ∷ gone) cm theirs =
      then-Explained lib may cm (remove_downstream lib g cm) _
        (removed-Explained lib may g cm (theirs g (ground (arith, nat_eq.agrees_iff g g))))
        (remove_all-Explained gone (remove_downstream lib g cm)
          (λ c h. theirs c (ground (arith, h))))

  module _ (cm : ChannelManager lib) (d : Downstream lib)
      (found : lookup client cm.downstreams ≡ some d) where
    set_extended :
        (channel : lib.ExtendedChannel) (r : Result Mining)
        → Local lib may client cm d (cm, put_extended lib msg.channel_id d channel, r)
    set_extended channel r =
        same-Local lib may client cm d found (cm, put_extended lib msg.channel_id d channel, r) refl
          (λ k.
            ap (λ b. is_some (lookup k d.standard_channels) || b)
              (is_some-adjust msg.channel_id k (λ _. channel) d.extended_channels))
          (λ c k. refl)

    set_on-Local :
        (x : lib.ExtendedChannel × Try ℕ ℕ)
        → Local lib may client cm d (set_on lib client msg d cm x)
          × Blames client (set_on lib client msg d cm x).2
    set_on-Local (channel, success job_id) = (set_extended channel _, tt)
    set_on-Local (channel, failure e) = (set_extended channel _, refl)

    set_at-Local :
        (o : Option lib.ExtendedChannel)
        → Local lib may client cm d (set_at lib client msg o cm d)
          × Blames client (set_at lib client msg o cm d).2
    set_at-Local none = (same-Local lib may client cm d found _ refl (λ k. refl) (λ c k. refl), tt)
    set_at-Local (some channel) = set_on-Local (lib.on_set_custom_mining_job channel msg)

  commit-Explained :
      (base cm after : ChannelManager lib) (closed : Bool)
      → Explained lib may base cm
      → settle lib (
          answer_result lib client msg closed
            (with_registered_downstream lib client (commit_custom_job lib client msg) cm))
        ≡ some after
      → Explained lib may base after
  unfolding with_registered_downstream commit_custom_job
  commit-Explained base cm after closed p h = elim (Option-cases (lookup client cm.downstreams)) [
    | inl gone ↦
        result-Explained base cm after closed
          (err (disconnecting client (downstream_not_found client))) p refl (rw (gone) at h)
    | inr (d, found) ↦
        let x = set_at lib client msg (lookup msg.channel_id d.extended_channels) cm d in
        let l = set_at-Local cm d found (lookup msg.channel_id d.extended_channels) in
        result-Explained base (write_back lib client x).0 after closed x.2
          (then-Explained lib may base cm _ p (written-Explained lib may client cm d x found l.0))
          l.1 (rw (found) at h)
  ]

  module _ (gone : List ℕ) (theirs : (c : ℕ) → contains c gone ≡ true → may (drops c) ≡ true) where
    declared-Explained :
        (cm : ChannelManager lib) (jd : JobDeclarator lib.Validator)
        → Explained lib may cm
            (remove_all lib client msg gone (with_declarator lib client msg jd cm))
    declared-Explained cm jd =
        then-Explained lib may cm (with_declarator lib client msg jd cm) _
          (quiet-Explained lib may cm _ (λ c k. refl) (λ c k. refl))
          (remove_all-Explained gone (with_declarator lib client msg jd cm) theirs)

    after-Explained :
        (cm after : ChannelManager lib) (closed : Bool)
        (x : JobDeclarator lib.Validator × SetCustomMiningJobResponse)
        → settle lib (after_declarator lib client msg closed gone x cm) ≡ some after
        → Explained lib may cm after
    unfolding after_declarator
    after-Explained cm after closed (jd, refused r c code) h =
        answered-Explained cm
          (remove_all lib client msg gone (with_declarator lib client msg jd cm)) after closed
          (set_custom_mining_job_refused (refused r c code)) (declared-Explained cm jd) h
    after-Explained cm after closed (jd, accepted c r job) h =
        commit-Explained cm (remove_all lib client msg gone (with_declarator lib client msg jd cm))
          after closed (declared-Explained cm jd) h

    job_for-Explained :
        (cm after : ChannelManager lib) (closed : Bool) (user : Option String)
        (jd : Option (JobDeclarator lib.Validator))
        → settle lib (job_for lib client msg closed gone user jd cm) ≡ some after
        → Explained lib may cm after
    job_for-Explained cm after closed user none h =
        answered-Explained cm cm after closed
          (set_custom_mining_job_jd_not_supported msg.request_id msg.channel_id)
          (quiet-Explained lib may cm cm (λ c k. refl) (λ c k. refl)) h
    job_for-Explained cm after closed none (some jd) h =
        answered-Explained cm cm after closed
          (set_custom_mining_job_invalid_channel_id msg.request_id msg.channel_id)
          (quiet-Explained lib may cm cm (λ c k. refl) (λ c k. refl)) h
    job_for-Explained cm after closed (some user) (some jd) h =
        after-Explained cm after closed
          (Lifecycle.handle_set_custom_mining_job lib.engine msg user jd) h

    pub custom_job-Explained :
        (cm after : ChannelManager lib) (closed : Bool)
        → settle lib (handle_set_custom_mining_job lib client msg closed gone cm) ≡ some after
        → Explained lib may cm after
    unfolding handle_set_custom_mining_job
    custom_job-Explained cm after closed h = elim (Option-cases (lookup client cm.downstreams)) [
      | inl out ↦
          error-Explained lib may client (downstream_not_found client) (disconnect client) cm after
            own refl (rw (out) at h)
      | inr (d, found) ↦
          job_for-Explained cm after closed
            (identity_of lib client msg (lookup msg.channel_id d.extended_channels))
            cm.job_declarator (rw (found) at h)
    ]
