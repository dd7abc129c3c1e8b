-- ===== src/StratumApps/Fallback/Wakeup.antt =====
-- Whether `trigger_fallback_and_wait` returns, and when.
use sv2_apps_fork.Prelude.{
  ◌≡◌, refl, ◌∙◌, ap, subst, ◌⊎◌, inl, inr, Bool, true, Option, some, List, [], ◌∷◌, nat_eq,
  is_some, contains, arith, Option-cases,
}
use sv2_apps_fork.StratumApps.Fallback.{
  awaiting, returned, Move, register, fetch_sub, acknowledge, cancel, load, wake, Coordinator, pick,
  new, register_handler, leave, alert, alert_at, start_trigger, load_pending, wake_trigger, step,
  run,
}
use sv2_apps_fork.StratumApps.Fallback.Soundness.{
  Leaves, Alerted, IsSound, shared, run-IsSound, new-IsSound,
}

module _ {Token Notify : Type 0} (cancel_token : Token → Token) (is_cancelled : Token → Bool)
    (notify_one : Notify → Notify) (notified : Notify → Option Notify)
    (cancels : (k : Token) → is_cancelled (cancel_token k) ≡ true)
    (stores_permit : (n : Notify) → is_some (notified (notify_one n)) ≡ true) where
  permitted :
      (s : (Coordinator Token Notify))
      → s.trigger ≡ awaiting
      → is_some (notified s.notify) ≡ true
      → (n : Notify) × (step cancel_token is_cancelled notify_one notified wake s
          ≡ some (record s { notify = n; trigger = returned }))
  unfolding wake_trigger
  permitted s waits permit = elim (Option-cases (notified s.notify)) [
    | inl nothing ↦ absurd (ground (arith, nothing, permit))
    | inr (n, e) ↦ (n, rw (waits, e) refl)
  ]

  -- No wake-up is lost: after any moves from a fresh coordinator, once the trigger is at its await,
  -- every handler has called `done` and every such call has run to its end, the await returns.
  pub run-wakes :
      (signal : Token) (notify : Notify) (ms : List Move) (s : (Coordinator Token Notify))
      → run cancel_token is_cancelled notify_one notified ms
          (new cancel_token is_cancelled notify_one notified signal notify)
        ≡ some s
      → s.trigger ≡ awaiting
      → s.handlers ≡ 0
      → s.finishing ≡ []
      → (n : Notify) × (step cancel_token is_cancelled notify_one notified wake s
          ≡ some (record s { notify = n; trigger = returned }))
  run-wakes signal notify ms s ran waits gone ended =
      let i : Leaves (IsSound cancel_token is_cancelled notify_one notified cancels stores_permit)
          (some s) =
        subst
          (λ o.
            Leaves (IsSound cancel_token is_cancelled notify_one notified cancels stores_permit) o)
          ran
          (run-IsSound cancel_token is_cancelled notify_one notified cancels stores_permit ms
            (new cancel_token is_cancelled notify_one notified signal notify)
            (new-IsSound cancel_token is_cancelled notify_one notified cancels stores_permit signal
              notify)) in
      let a : s.pending_tasks ≡ 0
          → (contains 1 s.finishing ≡ true) ⊎ (is_some (notified s.notify) ≡ true) =
        subst
          (λ t.
            Alerted cancel_token is_cancelled notify_one notified cancels stores_permit t
              s.pending_tasks s.finishing s.notify)
          waits i.2 in
      elim (a (i.0 ∙ gone)) [
        | inl owed ↦ absurd (ground (arith, owed, ended))
        | inr permit ↦ permitted s waits permit
      ]

  alert-last :
      (s : (Coordinator Token Notify))
      → is_cancelled s.signal ≡ true
      → alert cancel_token is_cancelled notify_one notified 1 s
        ≡ record s { notify = notify_one s.notify }
  unfolding alert
  alert-last s set = rw (set) refl

  wake-once :
      (s : (Coordinator Token Notify)) (n : Notify)
      → s.trigger ≡ awaiting
      → notified s.notify ≡ some n
      → run cancel_token is_cancelled notify_one notified (wake ∷ []) s
        ≡ some (record s { notify = n; trigger = returned })
  unfolding run wake_trigger
  wake-once s n waits e = rw (waits, e, run) refl

  -- The trigger can come back before a component is done. One handler is dropped to 0 by its
  -- `fetch_sub`; another component registers; the trigger sets the signal and loads 1; the first
  -- handler then finds the signal set with a previous count of 1, and notifies: the await returns
  -- with the second handler still at work.
  pub early_return :
      (signal : Token) (notify : Notify)
      → (s : (Coordinator Token Notify)) × (run cancel_token is_cancelled notify_one notified
            (register ∷ fetch_sub ∷ register ∷ cancel ∷ load ∷ acknowledge 0 ∷ wake ∷ [])
            (new cancel_token is_cancelled notify_one notified signal notify)
          ≡ some s)
        × (s.trigger ≡ returned)
        × (s.handlers ≡ 1)
  unfolding run new register_handler leave start_trigger load_pending alert_at pick
  early_return signal notify =
      let before =
        shared cancel_token is_cancelled notify_one notified cancels stores_permit
          (cancel_token signal) 1 notify 1 [] awaiting in
      elim (Option-cases (notified (notify_one notify))) [
        | inl nothing ↦ absurd (ground (arith, nothing, stores_permit notify))
        | inr (n, e) ↦ (
          shared cancel_token is_cancelled notify_one notified cancels stores_permit
              (cancel_token signal) 1 n 1 [] returned,
          ap (run cancel_token is_cancelled notify_one notified (wake ∷ []))
                (alert-last before (cancels signal))
              ∙ wake-once (record before { notify = notify_one notify }) n refl e,
          refl,
          refl,
        )
      ]
