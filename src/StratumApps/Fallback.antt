-- ===== src/StratumApps/Fallback.antt =====
-- stratum-apps/src/fallback_coordinator.rs: one trigger of a fallback, among components that
-- register and finish. A move is one access to a shared object, in any order that the tasks allow.
-- `CancellationToken` and `Notify` are parameters: `notified n` is what `notified().await` leaves,
-- none where it goes on waiting.
pub mod Soundness
pub mod Wakeup
use sv2_apps_fork.Prelude.{
  ℕ, zero, suc, ◌+◌, ◌-◌, Bool, true, false, ◌&&◌, Option, none, some, List, [], ◌∷◌, if◌then◌else◌,
  ◌==◌, nat_eq,
}

-- Where `trigger_fallback_and_wait` stands: before `cancel`, before the load, at the await, or back.
pub data Trigger : Type 0 where
  idle : Trigger
  cancelled : Trigger
  awaiting : Trigger
  returned : Trigger

pub data Move : Type 0 where
  register : Move
  fetch_sub : Move
  acknowledge : ℕ → Move
  cancel : Move
  load : Move
  wake : Move

-- `handlers` are the `FallbackHandler`s that nobody has called `done` on; `finishing` has what
-- `fetch_sub` returned to each call of `done` that has yet to look at the signal.
pub record Coordinator (Token Notify : Type 0) : Type 0 where
  pub signal : Token
  pub pending_tasks : ℕ
  pub notify : Notify
  pub handlers : ℕ
  pub finishing : List ℕ
  pub trigger : Trigger

unfoldable pub pick : ℕ → List ℕ → Option (ℕ × List ℕ)
pick i [] = none
pick zero (p ∷ ps) = some (p, ps)
pick (suc i) (p ∷ ps) = elim (pick i ps) [ none ↦ none | some r ↦ some (r.0, p ∷ r.1) ]

module _ {Token Notify : Type 0} (cancel_token : Token → Token) (is_cancelled : Token → Bool)
    (notify_one : Notify → Notify) (notified : Notify → Option Notify) where
  abbrev pub State : Type 0
  State = Coordinator Token Notify

  unfoldable pub new : Token → Notify → State
  new signal notify = record {
    signal = signal;
    pending_tasks = 0;
    notify = notify;
    handlers = 0;
    finishing = [];
    trigger = idle;
  }

  unfoldable pub register_handler : State → State
  register_handler s = record s { pending_tasks = s.pending_tasks + 1; handlers = s.handlers + 1 }

  -- The first half of `done`; there is no such move without a handler.
  unfoldable pub leave : State → Option State
  leave s = elim (s.handlers) [
    | zero ↦ none
    | suc n ↦ some (record s {
      pending_tasks = s.pending_tasks - 1;
      handlers = n;
      finishing = s.pending_tasks ∷ s.finishing;
    })
  ]

  -- The second half.
  unfoldable pub alert : ℕ → State → State
  alert prev s =
      if is_cancelled s.signal && prev == 1 then (record s { notify = notify_one s.notify }) else s

  unfoldable pub alert_at : ℕ → State → Option State
  alert_at i s = elim (pick i s.finishing) [
    | none ↦ none
    | some r ↦ some (alert r.0 (record s { finishing = r.1 }))
  ]

  unfoldable pub start_trigger : State → Option State
  start_trigger s = elim (s.trigger) [
    | idle ↦ some (record s { signal = cancel_token s.signal; trigger = cancelled })
    | cancelled ↦ none
    | awaiting ↦ none
    | returned ↦ none
  ]

  unfoldable pub load_pending : State → Option State
  load_pending s = elim (s.trigger) [
    | idle ↦ none
    | cancelled ↦ some (record s { trigger = if s.pending_tasks == 0 then returned else awaiting })
    | awaiting ↦ none
    | returned ↦ none
  ]

  abbrev pub woken : State → Option Notify → Option State
  woken s none = none
  woken s (some n) = some (record s { notify = n; trigger = returned })

  unfoldable pub wake_trigger : State → Option State
  wake_trigger s = elim (s.trigger) [
    | idle ↦ none
    | cancelled ↦ none
    | awaiting ↦ woken s (notified s.notify)
    | returned ↦ none
  ]

  abbrev pub step : Move → State → Option State
  step register s = some (register_handler s)
  step fetch_sub s = leave s
  step (acknowledge i) s = alert_at i s
  step cancel s = start_trigger s
  step load s = load_pending s
  step wake s = wake_trigger s

  unfoldable pub run : List Move → State → Option State
  run [] s = some s
  run (m ∷ ms) s = elim (step m s) [ none ↦ none | some t ↦ run ms t ]
