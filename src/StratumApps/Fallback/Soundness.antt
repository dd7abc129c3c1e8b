-- ===== src/StratumApps/Fallback/Soundness.antt =====
-- What holds of the shared state after any moves.
use sv2_apps_fork.Prelude.{
  ℕ, zero, suc, ◌+◌, ◌-◌, ◌≡◌, refl, ◌⊎◌, inl, inr, Bool, true, false, ◌&&◌, Option, none, some,
  List, [], ◌∷◌, if◌then◌else◌, ◌==◌, nat_eq, is_some, contains, arith, Bool-cases,
}
use sv2_apps_fork.StratumApps.Fallback.{
  Trigger, idle, cancelled, awaiting, returned, Move, register, fetch_sub, acknowledge, cancel,
  load, wake, Coordinator, pick, new, register_handler, leave, alert, alert_at, start_trigger,
  load_pending, woken, wake_trigger, step, run,
}

-- A property of what a move leaves, if the move can be made.
abbrev pub Leaves {ℓ κ} : {A : Type ℓ} → (A → Type κ) → Option A → Type κ
Leaves P none = Unit
Leaves P (some a) = P a

pick-later :
    (k p : ℕ) (ps : List ℕ) (o : Option (ℕ × List ℕ))
    → Leaves (λ (r : ℕ × List ℕ). contains k ps ≡ (if r.0 == k then true else contains k r.1)) o
    → Leaves
        (λ (r : ℕ × List ℕ). contains k (p ∷ ps) ≡ (if r.0 == k then true else contains k r.1))
        (elim o [ none ↦ none | some r ↦ some (r.0, p ∷ r.1) ])
pick-later k p ps none h = tt
pick-later k p ps (some r) h = ground (arith, h)

pick-contains :
    (i k : ℕ) (ps : List ℕ)
    → Leaves
        (λ (r : ℕ × List ℕ). contains k ps ≡ (if r.0 == k then true else contains k r.1))
        (pick i ps)
unfolding pick
pick-contains i k [] = tt
pick-contains zero k (p ∷ ps) = refl
pick-contains (suc i) k (p ∷ ps) = pick-later k p ps (pick i ps) (pick-contains i k ps)

module _ {Token Notify : Type 0} (cancel_token : Token → Token) (is_cancelled : Token → Bool)
    (notify_one : Notify → Notify) (notified : Notify → Option Notify)
    (cancels : (k : Token) → is_cancelled (cancel_token k) ≡ true)
    (stores_permit : (n : Notify) → is_some (notified (notify_one n)) ≡ true) where
  abbrev pub Shared : Type 0
  Shared = Coordinator Token Notify

  abbrev pub Signalled : Trigger → Token → Type 0
  Signalled idle signal = Unit
  Signalled cancelled signal = is_cancelled signal ≡ true
  Signalled awaiting signal = is_cancelled signal ≡ true
  Signalled returned signal = is_cancelled signal ≡ true

  abbrev pub Alerted : Trigger → ℕ → List ℕ → Notify → Type 0
  Alerted idle pending finishing notify = Unit
  Alerted cancelled pending finishing notify = Unit
  Alerted awaiting pending finishing notify =
      pending ≡ 0 → (contains 1 finishing ≡ true) ⊎ (is_some (notified notify) ≡ true)
  Alerted returned pending finishing notify = Unit

  -- Past `cancel`, the signal is set; at the await with no task pending, a handler that saw the
  -- count reach 0 is yet to notify, or a permit is there.
  abbrev pub IsSound : Shared → Type 0
  IsSound s =
      (s.pending_tasks ≡ s.handlers)
      × Signalled s.trigger s.signal
      × Alerted s.trigger s.pending_tasks s.finishing s.notify

  register-Alerted :
      (trigger : Trigger) (pending : ℕ) (finishing : List ℕ) (notify : Notify)
      → Alerted trigger (pending + 1) finishing notify
  register-Alerted idle pending finishing notify = tt
  register-Alerted cancelled pending finishing notify = tt
  register-Alerted awaiting pending finishing notify = λ e. absurd (omega arith)
  register-Alerted returned pending finishing notify = tt

  leave-Alerted :
      (trigger : Trigger) (pending n : ℕ) (finishing : List ℕ) (notify : Notify)
      → pending ≡ suc n
      → Alerted trigger (pending - 1) (pending ∷ finishing) notify
  leave-Alerted idle pending n finishing notify e = tt
  leave-Alerted cancelled pending n finishing notify e = tt
  leave-Alerted awaiting pending n finishing notify e = λ z. inl (ground arith)
  leave-Alerted returned pending n finishing notify e = tt

  register-IsSound :
      (s : Shared)
      → IsSound s
      → IsSound (register_handler cancel_token is_cancelled notify_one notified s)
  unfolding register_handler
  register-IsSound s i =
      (omega (arith, i.0), i.1, register-Alerted s.trigger s.pending_tasks s.finishing s.notify)

  abbrev pub shared : Token → ℕ → Notify → ℕ → List ℕ → Trigger → Shared
  shared signal pending notify handlers finishing trigger = record {
    signal = signal;
    pending_tasks = pending;
    notify = notify;
    handlers = handlers;
    finishing = finishing;
    trigger = trigger;
  }

  leave-IsSound :
      (signal : Token) (pending : ℕ) (notify : Notify) (handlers : ℕ) (finishing : List ℕ)
      (trigger : Trigger)
      → let s = shared signal pending notify handlers finishing trigger in
        IsSound s → Leaves IsSound (leave cancel_token is_cancelled notify_one notified s)
  unfolding leave
  leave-IsSound signal pending notify zero finishing trigger i = tt
  leave-IsSound signal pending notify (suc n) finishing trigger i =
      (omega (arith, i.0), i.1, leave-Alerted trigger pending n finishing notify i.0)

  start-IsSound :
      (signal : Token) (pending : ℕ) (notify : Notify) (handlers : ℕ) (finishing : List ℕ)
      (trigger : Trigger)
      → let s = shared signal pending notify handlers finishing trigger in
        IsSound s → Leaves IsSound (start_trigger cancel_token is_cancelled notify_one notified s)
  unfolding start_trigger
  start-IsSound signal pending notify handlers finishing idle i = (i.0, cancels signal, tt)
  start-IsSound signal pending notify handlers finishing cancelled i = tt
  start-IsSound signal pending notify handlers finishing awaiting i = tt
  start-IsSound signal pending notify handlers finishing returned i = tt

  load-IsSound :
      (signal : Token) (pending : ℕ) (notify : Notify) (handlers : ℕ) (finishing : List ℕ)
      (trigger : Trigger)
      → let s = shared signal pending notify handlers finishing trigger in
        IsSound s → Leaves IsSound (load_pending cancel_token is_cancelled notify_one notified s)
  unfolding load_pending
  load-IsSound signal pending notify handlers finishing idle i = tt
  load-IsSound signal pending notify handlers finishing cancelled i =
      elim (Bool-cases (pending == 0)) [
        | inl zero_left ↦ rw (zero_left) (i.0, i.1, tt)
        | inr some_left ↦ rw (some_left) (i.0, i.1, λ e. absurd (ground (arith, some_left)))
      ]
  load-IsSound signal pending notify handlers finishing awaiting i = tt
  load-IsSound signal pending notify handlers finishing returned i = tt

  woken-IsSound :
      (s : Shared) (o : Option Notify)
      → (s.pending_tasks ≡ s.handlers)
      → is_cancelled s.signal ≡ true
      → Leaves IsSound (woken cancel_token is_cancelled notify_one notified s o)
  woken-IsSound s none counted set = tt
  woken-IsSound s (some n) counted set = (counted, set, tt)

  wake-IsSound :
      (signal : Token) (pending : ℕ) (notify : Notify) (handlers : ℕ) (finishing : List ℕ)
      (trigger : Trigger)
      → let s = shared signal pending notify handlers finishing trigger in
        IsSound s → Leaves IsSound (wake_trigger cancel_token is_cancelled notify_one notified s)
  unfolding wake_trigger
  wake-IsSound signal pending notify handlers finishing idle i = tt
  wake-IsSound signal pending notify handlers finishing cancelled i = tt
  wake-IsSound signal pending notify handlers finishing awaiting i =
      woken-IsSound (shared signal pending notify handlers finishing awaiting) (notified notify) i.0
        i.1
  wake-IsSound signal pending notify handlers finishing returned i = tt

  alert-Alerted :
      (trigger : Trigger) (signal : Token) (pending prev : ℕ) (notify : Notify)
      (finishing rest : List ℕ)
      → Signalled trigger signal
      → Alerted trigger pending finishing notify
      → contains 1 finishing ≡ (if prev == 1 then true else contains 1 rest)
      → Alerted trigger pending rest
          (if is_cancelled signal && prev == 1 then notify_one notify else notify)
  alert-Alerted idle signal pending prev notify finishing rest set a c = tt
  alert-Alerted cancelled signal pending prev notify finishing rest set a c = tt
  alert-Alerted awaiting signal pending prev notify finishing rest set a c =
      rw (set) (elim (Bool-cases (prev == 1)) [
        | inl last ↦ rw (last) (λ z. inr (stores_permit notify))
        | inr other ↦ rw (other) (λ z. elim (a z) [
          | inl owed ↦ inl (ground (arith, c, other, owed))
          | inr there ↦ inr there
        ])
      ])
  alert-Alerted returned signal pending prev notify finishing rest set a c = tt

  alerting :
      (b : Bool) (s : Shared)
      → (s.pending_tasks ≡ s.handlers)
      → Signalled s.trigger s.signal
      → Alerted s.trigger s.pending_tasks s.finishing (if b then notify_one s.notify else s.notify)
      → IsSound (if b then (record s { notify = notify_one s.notify }) else s)
  alerting true s counted set a = (counted, set, a)
  alerting false s counted set a = (counted, set, a)

  picked-IsSound :
      (s : Shared) (o : Option (ℕ × List ℕ))
      → IsSound s
      → Leaves
          (λ (r : ℕ × List ℕ). contains 1 s.finishing ≡ (if r.0 == 1 then true else contains 1 r.1))
          o
      → Leaves IsSound (elim o [
        | none ↦ none
        | some r ↦
            some (
              alert cancel_token is_cancelled notify_one notified r.0
                (record s { finishing = r.1 }))
      ])
  unfolding alert
  picked-IsSound s none i c = tt
  picked-IsSound s (some r) i c =
      alerting (is_cancelled s.signal && r.0 == 1) (record s { finishing = r.1 }) i.0 i.1
        (alert-Alerted s.trigger s.signal s.pending_tasks r.0 s.notify s.finishing r.1 i.1 i.2 c)

  step-IsSound :
      (m : Move) (s : Shared)
      → IsSound s
      → Leaves IsSound (step cancel_token is_cancelled notify_one notified m s)
  unfolding alert_at
  step-IsSound register s i = register-IsSound s i
  step-IsSound fetch_sub s i =
      leave-IsSound s.signal s.pending_tasks s.notify s.handlers s.finishing s.trigger i
  step-IsSound (acknowledge n) s i =
      picked-IsSound s (pick n s.finishing) i (pick-contains n 1 s.finishing)
  step-IsSound cancel s i =
      start-IsSound s.signal s.pending_tasks s.notify s.handlers s.finishing s.trigger i
  step-IsSound load s i =
      load-IsSound s.signal s.pending_tasks s.notify s.handlers s.finishing s.trigger i
  step-IsSound wake s i =
      wake-IsSound s.signal s.pending_tasks s.notify s.handlers s.finishing s.trigger i

  run_on-IsSound :
      (ms : List Move) (o : Option Shared)
      → ((t : Shared)
          → IsSound t
          → Leaves IsSound (run cancel_token is_cancelled notify_one notified ms t))
      → Leaves IsSound o
      → Leaves IsSound
          (elim o [ none ↦ none | some t ↦ run cancel_token is_cancelled notify_one notified ms t ])
  run_on-IsSound ms none rest i = tt
  run_on-IsSound ms (some t) rest i = rest t i

  pub run-IsSound :
      (ms : List Move) (s : Shared)
      → IsSound s
      → Leaves IsSound (run cancel_token is_cancelled notify_one notified ms s)
  unfolding run
  run-IsSound [] s i = i
  run-IsSound (m ∷ ms) s i =
      run_on-IsSound ms (step cancel_token is_cancelled notify_one notified m s)
        (λ t j. run-IsSound ms t j) (step-IsSound m s i)

  pub new-IsSound :
      (signal : Token) (notify : Notify)
      → IsSound (new cancel_token is_cancelled notify_one notified signal notify)
  unfolding new
  new-IsSound signal notify = (refl, tt, tt)
