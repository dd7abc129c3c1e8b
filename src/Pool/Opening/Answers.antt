-- ===== src/Pool/Opening/Answers.antt =====
-- What opening a channel comes to: one answer to the request, and what becomes of the channels.
use sv2_apps_fork.Prelude.{
  ℕ, ◌≡◌, refl, ap, ◌⊎◌, Bool, true, false, Option, none, some, List, [], ◌∷◌, ◌++◌, if◌then◌else◌,
  nat_eq, arith,
}
use sv2_apps_fork.Prelude.Tests.{pair_eq}
use sv2_apps_fork.Prelude.Assoc.{insert}
use sv2_apps_fork.Pool.Messages.{
  ErrorCode, channel_capacity_exhausted, min_extranonce_size_too_large, Mining,
  open_mining_channel_error, open_standard_mining_channel_success,
  open_extended_mining_channel_success, RouteMessageTo, downstream, template_provider, Action,
  shutdown, PoolErrorKind, Result, ok, err, panicked,
}
use sv2_apps_fork.Pool.Library.{
  AllocatorError, capacity_exhausted, invalid_rollable_size, other_allocator_error, Try, success,
  failure, Library,
}
use sv2_apps_fork.StratumApps.Payout.{PayoutMode}
use sv2_apps_fork.Pool.Manager.{payout_is_compatible, Downstream, ChannelManager, disconnecting}
use sv2_apps_fork.Pool.Opening.{
  Answer, with_vardiff, refuse_allocation, extranonce_allocation_error_code,
}

-- The request that a message answers, with the channel that it says is open.
abbrev pub answer_of : Mining → List (ℕ × Option ℕ)
answer_of (open_mining_channel_error request_id code) = (request_id, none) ∷ []
answer_of (open_standard_mining_channel_success request_id channel_id target prefix group) =
    (request_id, some channel_id) ∷ []
answer_of (open_extended_mining_channel_success request_id channel_id target prefix size group) =
    (request_id, some channel_id) ∷ []
answer_of _ = []

abbrev pub answers : ℕ → List RouteMessageTo → List (ℕ × Option ℕ)
answers client [] = []
answers client (template_provider solution ∷ messages) = answers client messages
answers client (downstream to message ∷ messages) =
    let rest = answers client messages in
    if nat_eq.agrees to client then answer_of message ++ rest else rest

abbrev pub stops : Action → Bool
stops shutdown = true
stops _ = false

-- The result ends the message loop.
abbrev pub halts {ℓ} : {A : Type ℓ} → Result A → Bool
halts (ok a) = false
halts (err e) = stops e.action
halts panicked = true

module _ (lib : Library) (client request_id : ℕ) (cm : ChannelManager lib)
    (d : Downstream lib) where
  -- The channels, the vardiffs and the payout mode are those of before.
  abbrev pub Kept : ChannelManager lib → Downstream lib → Type 0
  Kept cm' d' =
      (cm'.downstreams ≡ cm.downstreams)
      × (cm'.vardiff ≡ cm.vardiff)
      × (d'.standard_channels ≡ d.standard_channels)
      × (d'.extended_channels ≡ d.extended_channels)
      × (d'.payout_mode ≡ d.payout_mode)

  -- The payout mode is set to one that the payout mode of before is compatible with.
  abbrev pub Paid : Downstream lib → Type 0
  Paid d' =
      (mode : PayoutMode) × (d'.payout_mode ≡ some mode)
      × (payout_is_compatible lib d mode lib.coinbase_reward_script ≡ true)

  -- One of the two maps has a new channel.
  abbrev pub Grown : Downstream lib → Type 0
  Grown d' =
      ((channel : lib.StandardChannel) × (d'.standard_channels
          ≡ insert d.channel_id_factory channel d.standard_channels)
        × (d'.extended_channels ≡ d.extended_channels))
      ⊎ ((channel : lib.ExtendedChannel) × (d'.standard_channels ≡ d.standard_channels)
          × (d'.extended_channels ≡ insert d.channel_id_factory channel d.extended_channels))

  abbrev pub Added : ChannelManager lib → Downstream lib → Type 0
  Added cm' d' =
      (cm'.downstreams ≡ cm.downstreams)
      × ((v : lib.VardiffState) × (cm'.vardiff
            ≡ insert (client, d.channel_id_factory) v cm.vardiff))
      × Grown d'
      × Paid d'

  -- The ends of a request to open a channel, which the connection's state `d` had.
  pub data Opens (answer : Answer lib) : Type 0 where
    halted : halts answer.2 ≡ true → Opens answer
    dropped :
        (kind : PoolErrorKind)
        → answer.2 ≡ err (disconnecting client kind)
        → Kept answer.0 answer.1
        → Opens answer
    refused :
        (messages : List RouteMessageTo)
        → answer.2 ≡ ok messages
        → answers client messages ≡ (request_id, none) ∷ []
        → Kept answer.0 answer.1
        → Opens answer
    opened :
        (messages : List RouteMessageTo)
        → answer.2 ≡ ok messages
        → answers client messages ≡ (request_id, some d.channel_id_factory) ∷ []
        → Added answer.0 answer.1
        → Opens answer

  answers_one : (m : Mining) → answers client (downstream client m ∷ []) ≡ answer_of m ++ []
  answers_one m = ground arith

  pub refuse-Opens :
      (code : ErrorCode) (cm' : ChannelManager lib) (d' : Downstream lib)
      → Kept cm' d'
      → Opens (cm', d', ok (downstream client (open_mining_channel_error request_id code) ∷ []))
  refuse-Opens code cm' d' k =
      refused (downstream client (open_mining_channel_error request_id code) ∷ []) refl
        (answers_one (open_mining_channel_error request_id code)) k

  pub allocation-Opens :
      (e : AllocatorError) (cm' : ChannelManager lib) (d' : Downstream lib)
      → Kept cm' d'
      → Opens (refuse_allocation lib client request_id (extranonce_allocation_error_code e) cm' d')
  allocation-Opens capacity_exhausted cm' d' k = refuse-Opens channel_capacity_exhausted cm' d' k
  allocation-Opens invalid_rollable_size cm' d' k =
      refuse-Opens min_extranonce_size_too_large cm' d' k
  allocation-Opens (other_allocator_error e) cm' d' k = halted refl

  pub vardiff-Opens :
      (t : Try lib.VardiffState ℕ) (messages : List RouteMessageTo) (cm' : ChannelManager lib)
      (d' : Downstream lib)
      → answers client messages ≡ (request_id, some d.channel_id_factory) ∷ []
      → cm'.downstreams ≡ cm.downstreams
      → cm'.vardiff ≡ cm.vardiff
      → Grown d'
      → Paid d'
      → Opens (with_vardiff lib client d.channel_id_factory messages t cm' d')
  vardiff-Opens (failure e) messages cm' d' a s v g p = halted refl
  vardiff-Opens (success new) messages cm' d' a s v g p =
      opened messages refl a (s, (new, ap (insert (client, d.channel_id_factory) new) v), g, p)

  pub answers_opened :
      (won first second : Mining)
      → answer_of won ≡ (request_id, some d.channel_id_factory) ∷ []
      → answer_of first ≡ []
      → answer_of second ≡ []
      → answers client
          (downstream client won ∷ downstream client first ∷ downstream client second ∷ [])
        ≡ (request_id, some d.channel_id_factory) ∷ []
  answers_opened won first second a b c = ground (arith, nat_eq.agrees_iff client client)

  pub answers_alone :
      (won : Mining)
      → answer_of won ≡ (request_id, some d.channel_id_factory) ∷ []
      → answers client (downstream client won ∷ []) ≡ (request_id, some d.channel_id_factory) ∷ []
  answers_alone won a = ground (arith, nat_eq.agrees_iff client client)

  pub guard-Opens :
      (b : Bool) (x y : Answer lib) → (b ≡ true → Opens x) → Opens y → Opens (if b then x else y)
  guard-Opens true x y p q = p refl
  guard-Opens false x y p q = q

  pub if-Opens : (b : Bool) (x y : Answer lib) → Opens x → Opens y → Opens (if b then x else y)
  if-Opens true x y p q = p
  if-Opens false x y p q = q
