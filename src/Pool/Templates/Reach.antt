-- ===== src/Pool/Templates/Reach.antt =====
-- Which messages a new template comes to, and which jobs they carry.
use mathlib.Core.List.{append-nil}
use sv2_apps_fork.Prelude.{
  ℕ, ◌≡◌, refl, sym, ap, ◌∙◌, subst, Bool, true, false, not, ◌&&◌, Option, none, some, List, [],
  ◌∷◌, ◌++◌, if◌then◌else◌, Option-cases, inl, inr,
}
use sv2_apps_fork.Prelude.Assoc.{Assoc}
use sv2_apps_fork.JdServer.Messages.{TxOut}
use sv2_apps_fork.Pool.Messages.{
  NewTemplate, RouteMessageTo, downstream, new_mining_job, new_extended_mining_job, ok, err,
  panicked,
}
use sv2_apps_fork.Pool.Library.{Job, Library}
use sv2_apps_fork.Pool.Manager.{Downstream}
use sv2_apps_fork.Pool.Opening.{future_job}
use sv2_apps_fork.Pool.Templates.{
  Messages, also, silent, try_each, template_to_downstream, template_to_rest, template_to_channels,
  template_to_group, template_to_standard, template_to_extended, sent_job, standard_job, group_job,
  group_future_job, job_part, group_message, outputs_for,
}
use sv2_apps_fork.Pool.Templates.Sends.{
  Sends, Each, IsJob, also-Sends, followed-Sends, try_each-Sends, Each-silent,
}

module _ (lib : Library) (client : ℕ) (msg : NewTemplate) where
  -- The job that a group channel has of the template.
  abbrev pub IsGroupJob : lib.GroupChannel → Job → Type 0
  IsGroupJob g =
      IsJob msg.future_template (lib.group.get_future_job_id_from_template_id g msg.template_id)
        (lib.group.get_future_job g) (lib.group.get_active_job g)

  abbrev pub IsOwnJob : lib.StandardChannel → Job → Type 0
  IsOwnJob c =
      IsJob msg.future_template (lib.standard.get_future_job_id_from_template_id c msg.template_id)
        (lib.standard.get_future_job c) (lib.standard.get_active_job c)

  -- A standard channel is sent the job that it has itself once it has taken the template.
  abbrev pub Own : List TxOut → ℕ → lib.StandardChannel → List RouteMessageTo → Type 0
  Own outputs channel_id channel messages =
      (job : Job) × IsOwnJob (lib.standard.on_new_template channel msg outputs).0 job
      × (messages ≡ downstream client (new_mining_job job.get_job_message) ∷ [])

  -- What a connection is due: nothing with custom work, for each standard channel its own job where
  -- standard jobs are required, and else the job of its group, unless that is empty.
  abbrev pub Due :
      (custom_work standard_jobs group_empty : Bool)
      → List TxOut
      → lib.GroupChannel
      → Assoc ℕ lib.StandardChannel
      → List RouteMessageTo
      → Type 0
  Due true standard_jobs group_empty outputs g m messages = messages ≡ []
  Due false true group_empty outputs g m messages = Each (Own outputs) m messages
  Due false false true outputs g m messages = messages ≡ []
  Due false false false outputs g m messages =
      (job : Job) × IsGroupJob g job
      × (messages ≡ downstream client (new_extended_mining_job job.get_job_message) ∷ [])

  group_IsJob :
      (b : Bool) (g : lib.GroupChannel) (o active : Option Job) (id : Option ℕ) (job : Job)
      → o ≡ group_future_job lib msg g id
      → (if b then o else active) ≡ some job
      → IsJob b id (lib.group.get_future_job g) active job
  group_IsJob true g o active none job e h = absurd (cc (e, h))
  group_IsJob true g o active (some id) job e h = (id, refl, sym e ∙ h)
  group_IsJob false g o active id job e h = h

  part_of :
      (id : ℕ) (job : Job) (o : Option Job)
      → job_part lib msg (elim o [ none ↦ none | some found ↦ some (id, found) ]) ≡ some job
      → o ≡ some job
  part_of id job none e = absurd (cc (e))
  part_of id job (some found) e = e

  future_own :
      (c : lib.StandardChannel) (job : Job)
      → job_part lib msg (future_job lib.standard c msg.template_id) ≡ some job
      → IsJob true
          (lib.standard.get_future_job_id_from_template_id c msg.template_id)
          (lib.standard.get_future_job c)
          (lib.standard.get_active_job c)
          job
  unfolding future_job
  future_own c job e =
      elim (Option-cases (lib.standard.get_future_job_id_from_template_id c msg.template_id)) [
        | inl nothing ↦ absurd (cc (rw (nothing, future_job) at e))
        | inr (id, known) ↦ (
          id,
          known,
          part_of id job (lib.standard.get_future_job c id) (rw (known, future_job) at e),
        )
      ]

  own_IsJob :
      (b : Bool) (c : lib.StandardChannel) (job : Job)
      → (if b
          then job_part lib msg (future_job lib.standard c msg.template_id)
          else lib.standard.get_active_job c)
        ≡ some job
      → IsJob b
          (lib.standard.get_future_job_id_from_template_id c msg.template_id)
          (lib.standard.get_future_job c)
          (lib.standard.get_active_job c)
          job
  own_IsJob true c job e = future_own c job e
  own_IsJob false c job e = e

  module _ (outputs : List TxOut) where
    sent_job-Sends :
        (channel : lib.StandardChannel) (k : ℕ) (o : Option Job)
        → standard_job lib msg (lib.standard.on_new_template channel msg outputs).0 ≡ o
        → Sends
            (Own outputs k channel)
            (sent_job lib msg client (lib.standard.on_new_template channel msg outputs).0 o).1
    sent_job-Sends channel k none e = tt
    sent_job-Sends channel k (some job) e = (job, own_IsJob msg.future_template _ job e, refl)

    -- What a standard channel is sent, with or without standard jobs.
    abbrev OwnIf : Bool → ℕ → lib.StandardChannel → List RouteMessageTo → Type 0
    OwnIf true = Own outputs
    OwnIf false = λ k c sent. sent ≡ []

    standard-Sends :
        (standard_jobs : Bool) (job : Job) (k : ℕ) (c : lib.StandardChannel)
        → Sends
            (OwnIf standard_jobs k c)
            (template_to_standard lib msg client standard_jobs outputs job k c).1
    unfolding template_to_standard
    standard-Sends true job k c =
        followed-Sends (Own outputs k c) (λ x. sent_job lib msg client x (standard_job lib msg x))
          (lib.standard.on_new_template c msg outputs) (sent_job-Sends c k _ refl)
    standard-Sends false job k c =
        followed-Sends (λ sent. sent ≡ []) silent (lib.standard.on_group_channel_job c job) refl

    Due-of :
        (standard_jobs group_empty : Bool) (g : lib.GroupChannel) (m : Assoc ℕ lib.StandardChannel)
        (job : Job) (messages : List RouteMessageTo)
        → IsGroupJob g job
        → Each (OwnIf standard_jobs) m messages
        → Due false standard_jobs group_empty outputs g m (
            (if not standard_jobs && not group_empty
              then downstream client (new_extended_mining_job job.get_job_message) ∷ []
              else [])
            ++ messages)
    Due-of true group_empty g m job messages j e = e
    Due-of false true g m job messages j e = Each-silent m messages e
    Due-of false false g m job messages j e = (
      job,
      j,
      ap (λ l. downstream client (new_extended_mining_job job.get_job_message) ∷ l)
          (Each-silent m messages e),
    )

  extended-Sends :
      (job : Job) (m : Assoc ℕ lib.ExtendedChannel)
      → Sends (λ sent. sent ≡ []) (try_each (template_to_extended lib msg job) m).1
  unfolding template_to_extended
  extended-Sends job m = silent_all (try_each (template_to_extended lib msg job) m).1 (
      try_each-Sends (λ k c sent. sent ≡ []) (template_to_extended lib msg job)
        (λ k c.
          followed-Sends (λ sent. sent ≡ []) silent (lib.extended.on_group_channel_job c job) refl)
        m)
    where
      silent_all :
          (r : Messages) → Sends (Each (λ k c sent. sent ≡ []) m) r → Sends (λ sent. sent ≡ []) r
      silent_all (ok messages) e = Each-silent m messages e
      silent_all (err e) s = tt
      silent_all panicked s = tt

  rest-Sends :
      (Q P : List RouteMessageTo → Type 0) (job : Job) (sent : List RouteMessageTo)
      (d : Downstream lib) (x : Assoc ℕ lib.StandardChannel × Messages)
      → ((messages : List RouteMessageTo) → Q messages → P (sent ++ messages))
      → Sends Q x.1
      → Sends P (template_to_rest lib msg job sent d x).1
  rest-Sends Q P job sent d (s, ok messages) f q =
      let r = (try_each (template_to_extended lib msg job) d.extended_channels).1 in
      also-Sends (λ ys. ys ≡ messages) P sent (also messages r) (λ ys e. rw (e) (f messages q))
        (also-Sends (λ ys. ys ≡ []) (λ ys. ys ≡ messages) messages r
          (λ ys e. rw (e) (append-nil messages)) (extended-Sends job d.extended_channels))
  rest-Sends Q P job sent d (s, err e) f q = tt
  rest-Sends Q P job sent d (s, panicked) f q = tt

  module _ (outputs : List TxOut) where
    abbrev DueTo : Downstream lib → List RouteMessageTo → Type 0
    DueTo d =
        Due false d.requires_standard_jobs (lib.group.is_empty d.group_channel) outputs
          d.group_channel d.standard_channels

    channels-Sends :
        (o : Option Job) (d : Downstream lib)
        → group_job lib msg d.group_channel ≡ o
        → Sends (DueTo d) (template_to_channels lib msg client outputs o d).1
    channels-Sends none d e = tt
    channels-Sends (some job) d e =
        let sj = d.requires_standard_jobs in
        rest-Sends (Each (OwnIf outputs sj) d.standard_channels) (DueTo d) job
          (group_message lib msg client sj d.group_channel job) d
          (try_each (template_to_standard lib msg client sj outputs job) d.standard_channels)
          (λ messages each.
            Due-of outputs sj (lib.group.is_empty d.group_channel) d.group_channel
              d.standard_channels job messages
              (group_IsJob msg.future_template d.group_channel _ _ _ job refl e) each)
          (try_each-Sends (OwnIf outputs sj) (template_to_standard lib msg client sj outputs job)
            (standard-Sends outputs sj job) d.standard_channels)

    group-Sends :
        (x : lib.GroupChannel × Option ℕ) (d : Downstream lib)
        → Sends
            (DueTo (record d { group_channel = x.0 }))
            (template_to_group lib msg client outputs x d).1
    group-Sends (g, some e) d = tt
    group-Sends (g, none) d =
        channels-Sends (group_job lib msg g) (record d { group_channel = g }) refl

  module _ (pool_outputs : List TxOut) (d : Downstream lib) where
    -- The outputs that the connection's payout mode has of the template.
    abbrev pub outputs : List TxOut
    outputs = outputs_for lib msg pool_outputs d.payout_mode

    -- The group channel after it has taken the template.
    abbrev pub group_after : lib.GroupChannel
    group_after = (lib.group.on_new_template d.group_channel msg outputs).0

    template_if :
        (b : Bool)
        → Sends
            (Due b d.requires_standard_jobs
              (lib.group.is_empty group_after)
              outputs
              group_after
              d.standard_channels)
            (if b
              then (d, ok [])
              else template_to_group lib msg client outputs
                  (lib.group.on_new_template d.group_channel msg outputs)
                  d).1
    template_if true = refl
    template_if false =
        group-Sends outputs (lib.group.on_new_template d.group_channel msg outputs) d

    -- When a connection takes a new template without an error, its messages are those that it is due:
    -- none with custom work; where standard jobs are required, one for each standard channel, in order,
    -- with the job that this channel has of the template; and else one with the job that the group
    -- channel has of it, or none when the group is empty. The job of a future template is the future
    -- job under the template's identifier, and of another the active one.
    pub template_reaches :
        (messages : List RouteMessageTo)
        → (template_to_downstream lib msg pool_outputs client d).1 ≡ ok messages
        → Due d.requires_custom_work d.requires_standard_jobs
            (lib.group.is_empty group_after)
            outputs
            group_after
            d.standard_channels
            messages
    unfolding template_to_downstream
    template_reaches messages h =
        subst
          (Sends (
            Due d.requires_custom_work d.requires_standard_jobs (lib.group.is_empty group_after)
              outputs group_after d.standard_channels))
          h (template_if d.requires_custom_work)
