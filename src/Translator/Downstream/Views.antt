-- ===== src/Translator/Downstream/Views.antt =====
-- The extranonce that a miner works with, as the messages told it, against the validation contexts.
use sv2_apps_fork.Prelude.{
  ℕ, zero, suc, ◌≡◌, ◌⊎◌, refl, sym, subst, ◌∙◌, inl, inr, Bool, true, false, not, ◌&&◌, Option,
  none, some, List, [], ◌∷◌, ◌++◌, String, is_some, if◌then◌else◌, ◌==◌, string_eq, length, arith,
  Bool-cases, Option-cases,
}
use sv2_apps_fork.Translator.JobStore
use sv2_apps_fork.Translator.JobStore.{Sv1JobStore}
use sv2_apps_fork.Translator.JobStore.Invariant.{IsWellFormed}
use sv2_apps_fork.Translator.JobStore.Activation.{activate-IsWellFormed}
use sv2_apps_fork.Translator.Downstream.{
  Extranonce, Notify, Message, set_difficulty, set_extranonce, notify, Sv1JobValidationContext,
  DownstreamData, Downstream, ok, activate_job, record_job_validation_context,
  job_validation_context,
}
use sv2_apps_fork.Translator.Downstream.Delivery.{
  send_all, take_difficulty, difficulty_message, extranonce_message, send_job,
}

-- The extranonce after the messages, from the one in the subscribe response.
unfoldable pub told_extranonce : Extranonce → List Message → Extranonce
told_extranonce first [] = first
told_extranonce first (set_extranonce e ∷ ms) = e
told_extranonce first (set_difficulty d ∷ ms) = told_extranonce first ms
told_extranonce first (notify n ∷ ms) = told_extranonce first ms

-- The extranonce that goes with the newest job of an id.
unfoldable pub told_job : Extranonce → String → List Message → Option Extranonce
told_job first job_id [] = none
told_job first job_id (set_extranonce e ∷ ms) = told_job first job_id ms
told_job first job_id (set_difficulty d ∷ ms) = told_job first job_id ms
told_job first job_id (notify n ∷ ms) =
    let older = told_job first job_id ms in
    if n.job_id == job_id then some (told_extranonce first ms) else older

module _ {T : Type 0} where
  -- A store after `activate_job`.
  pub record IsActivated (job_id : String) (context : T) (s t : Sv1JobStore T) : Type 0 where
    pub well_formed : IsWellFormed t
    pub found : JobStore.get job_id t ≡ some context
    pub newest : JobStore.active t ≡ some context
    pub origin :
        (k : String) (c : T)
        → JobStore.get k t ≡ some c
        → ((k ≡ job_id) × (c ≡ context)) ⊎ (JobStore.get k s ≡ some c)

  activate-active :
      (fuel : ℕ) (job_id : String) (context : T) (clean_jobs : Bool) (s t : Sv1JobStore T)
      → JobStore.activate fuel job_id context clean_jobs s ≡ some t
      → JobStore.active t ≡ some context
  unfolding JobStore.activate JobStore.active
  activate-active fuel job_id context true s t e =
      let same : JobStore.install job_id context (JobStore.clear s) ≡ t = cc (e) in rw (← same) refl
  activate-active fuel job_id context false s t e =
      elim (Option-cases
        (JobStore.evict fuel (JobStore.retire job_id (JobStore.remove_past job_id s)))) [
          | inl stuck ↦ absurd (cc (rw (stuck) at e))
          | inr (u, trimmed) ↦
              let same : some (JobStore.install job_id context u) ≡ some t = rw (trimmed) at e in
              let it : JobStore.install job_id context u ≡ t = cc (same) in rw (← it) refl
        ]

  pub activate_job-IsActivated :
      (job_id : String) (context : T) (clean_jobs : Bool) (s : Sv1JobStore T)
      → IsWellFormed s
      → IsActivated job_id context s (activate_job job_id context clean_jobs s)
  unfolding activate_job
  activate_job-IsActivated job_id context clean_jobs s w =
      let (t, e, w', found, same, origin) =
        activate-IsWellFormed (suc (suc (length s.past_job_order))) job_id context clean_jobs s w
          (omega arith) in
      rw (e) (record {
        well_formed = w';
        found = found;
        newest =
            activate-active (suc (suc (length s.past_job_order))) job_id context clean_jobs s t e;
        origin = origin;
      })

abbrev push_all : List Message → List Message → List Message
push_all [] sent = sent
push_all (m ∷ ms) sent = push_all ms (m ∷ sent)

push_all-append :
    (ms ns sent : List Message) → push_all (ms ++ ns) sent ≡ push_all ns (push_all ms sent)
push_all-append [] ns sent = refl
push_all-append (m ∷ ms) ns sent = push_all-append ms ns (m ∷ sent)

send_all-sent :
    (ms sent : List Message) (data' : DownstreamData) (room : ℕ) (gone : Bool)
    → let d : Downstream = record {
      downstream_data = data';
      sent = sent;
      room = room;
      disconnected = gone;
    } in
      (send_all ms d).1 ≡ ok
      → ((send_all ms d).0.sent ≡ push_all ms sent) × ((send_all ms d).0.downstream_data ≡ data')
unfolding send_all
send_all-sent [] sent data' room gone e = (refl, refl)
send_all-sent (m ∷ ms) sent data' zero gone e = absurd (cc)
send_all-sent (m ∷ ms) sent data' (suc n) gone e = send_all-sent ms (m ∷ sent) data' n gone e

module _ (first : Extranonce) where
  -- The extranonce of the state is the miner's, or that of the message that waits for a job.
  abbrev pub Current : Extranonce → Option Extranonce → List Message → Type 0
  Current e none sent = e ≡ told_extranonce first sent
  Current e (some waiting) sent = e ≡ waiting

  abbrev pub JobsAgree : DownstreamData → List Message → Type 0
  JobsAgree data' sent =
      (job_id : String) (c : Sv1JobValidationContext)
      → job_validation_context job_id data' ≡ some c
      → told_job first job_id sent ≡ some c.extranonce

  pub record Agrees (data' : DownstreamData) (sent : List Message) : Type 0 where
    pub stored : IsWellFormed data'.job_validation_contexts
    pub current : Current data'.extranonce data'.cached_set_extranonce sent
    pub jobs : JobsAgree data' sent

  -- What is sent before a job brings the miner to the extranonce of the state, and no job.
  before_job :
      (d : Option ℕ) (waiting : Option Extranonce) (e : Extranonce) (sent : List Message)
      → Current e waiting sent
      → let sent' = push_all (extranonce_message waiting) (push_all (difficulty_message d) sent) in
        (told_extranonce first sent' ≡ e)
        × ((job_id : String) → told_job first job_id sent' ≡ told_job first job_id sent)
  unfolding told_extranonce told_job
  before_job none none e sent c = (sym c, λ k. refl)
  before_job none (some w) e sent c = (sym c, λ k. refl)
  before_job (some d) none e sent c = (sym c, λ k. refl)
  before_job (some d) (some w) e sent c = (sym c, λ k. refl)

  recorded-Agrees :
      (now : ℕ) (n : Notify) (data' : DownstreamData) (sent : List Message)
      → IsWellFormed data'.job_validation_contexts
      → data'.cached_set_extranonce ≡ none
      → told_extranonce first sent ≡ data'.extranonce
      → JobsAgree data' sent
      → Agrees (record_job_validation_context now n data') (notify n ∷ sent)
  unfolding record_job_validation_context told_job told_extranonce job_validation_context
  recorded-Agrees now n data' sent w clear told jobs =
      let context : Sv1JobValidationContext = record {
        extranonce = data'.extranonce;
        target = data'.target;
      } in
      let act =
        activate_job-IsActivated n.job_id context n.clean_jobs data'.job_validation_contexts w in
      record {
        stored = act.well_formed;
        current = subst (λ o. Current data'.extranonce o (notify n ∷ sent)) (sym clear) (sym told);
        jobs = λ k c e. elim (Bool-cases (n.job_id == k)) [
          | inl same ↦
              let named : n.job_id ≡ k = (string_eq.agrees_iff n.job_id k).0 same in
              let it : some context ≡ some c =
                sym (
                  subst
                    (λ j.
                      JobStore.get j
                        (activate_job n.job_id context n.clean_jobs data'.job_validation_contexts)
                      ≡ some context)
                    named act.found)
                ∙ e in
              rw (same) (ground (arith, told, it))
          | inr other ↦ rw (other) (elim (act.origin k c e) [
            | inl (named, it) ↦
                absurd (ground (arith, other, named, string_eq.agrees_iff n.job_id k))
            | inr old ↦ jobs k c old
          ])
        ];
      }

  sending-Agrees :
      (now : ℕ) (n : Notify) (data' : DownstreamData) (sent : List Message) (room : ℕ) (gone : Bool)
      → let after =
          record_job_validation_context now n
            (record (take_difficulty data') { cached_set_extranonce = none }) in
        let messages =
          difficulty_message data'.cached_set_difficulty
          ++ (extranonce_message data'.cached_set_extranonce ++ (notify n ∷ [])) in
        let d : Downstream = record {
          downstream_data = after;
          sent = sent;
          room = room;
          disconnected = gone;
        } in
        (send_all messages d).1 ≡ ok
        → Agrees data' sent
        → Agrees (send_all messages d).0.downstream_data (send_all messages d).0.sent
  unfolding job_validation_context
  sending-Agrees now n data' sent room gone e a =
      let quiet = record (take_difficulty data') { cached_set_extranonce = none } in
      let after = record_job_validation_context now n quiet in
      let diff = difficulty_message data'.cached_set_difficulty in
      let ext = extranonce_message data'.cached_set_extranonce in
      let (pushed, same) =
        send_all-sent (diff ++ (ext ++ (notify n ∷ []))) sent after room gone e in
      let order : push_all (diff ++ (ext ++ (notify n ∷ []))) sent
          ≡ notify n ∷ push_all ext (push_all diff sent) =
        push_all-append diff (ext ++ (notify n ∷ [])) sent
        ∙ push_all-append ext (notify n ∷ []) (push_all diff sent) in
      let (told, kept) =
        before_job data'.cached_set_difficulty data'.cached_set_extranonce data'.extranonce sent
          a.current in
      rw (pushed, same, order)
        (recorded-Agrees now n quiet (push_all ext (push_all diff sent)) a.stored refl told
          (λ k c f. kept k ∙ a.jobs k c f))

  pub send_job-Agrees :
      (now : ℕ) (n : Notify) (d : Downstream)
      → (send_job now n d).1 ≡ ok
      → Agrees d.downstream_data d.sent
      → Agrees (send_job now n d).0.downstream_data (send_job now n d).0.sent
  unfolding send_job
  send_job-Agrees now n d e a =
      let data' = d.downstream_data in
      elim (Bool-cases (is_some data'.cached_set_extranonce && not data'.supports_set_extranonce)) [
        | inl unsupported ↦ rw (unsupported) a
        | inr supported ↦ rw (supported) (
            sending-Agrees now n data' d.sent d.room d.disconnected (ground (arith, supported, e))
              a)
      ]
