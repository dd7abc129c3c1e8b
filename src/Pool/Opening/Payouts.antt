-- ===== src/Pool/Opening/Payouts.antt =====
-- What opening a channel means for the coinbase outputs of its connection.
use sv2_apps_fork.Prelude.{ap, ◌≡◌, ◌∙◌, sym, ℕ, true, false, some}
use sv2_apps_fork.StratumApps.Payout.{PayoutMode, coinbase_outputs, has_same_coinbase_outputs_as}
use sv2_apps_fork.StratumApps.Payout.Percentages.{IsByte, has_same_coinbase_outputs_as_iff}
use sv2_apps_fork.Pool.Messages.{OpenStandardMiningChannel, OpenExtendedMiningChannel}
use sv2_apps_fork.Pool.Library.{Library}
use sv2_apps_fork.Pool.Manager.{Downstream, ChannelManager, payout_is_compatible}
use sv2_apps_fork.Pool.Opening.{Answer}
use sv2_apps_fork.Pool.Opening.Answers.{halts, Opens, halted, dropped, refused, opened}
use sv2_apps_fork.Pool.Opening.StandardOutcomes.{open_standard-Opens}
use sv2_apps_fork.Pool.Opening.ExtendedOutcomes.{open_extended-Opens}
use sv2_apps_fork.Pool.Opening.Standard.{open_standard}
use sv2_apps_fork.Pool.Opening.Extended.{open_extended}

module _ (lib : Library) (client request_id : ℕ) (cm : ChannelManager lib) (d : Downstream lib)
    (current mode : PayoutMode) (total : ℕ) (before : d.payout_mode ≡ some current)
    (b : IsByte current) (b' : IsByte mode) where
  same_outputs :
      (d' : Downstream lib)
      → d'.payout_mode ≡ d.payout_mode
      → d'.payout_mode ≡ some mode
      → coinbase_outputs current total lib.coinbase_reward_script
        ≡ coinbase_outputs mode total lib.coinbase_reward_script
  same_outputs d' same after =
      let e : current ≡ mode = cc (same, before, after) in
      ap (λ m. coinbase_outputs m total lib.coinbase_reward_script) e

  compatible_outputs :
      (set : PayoutMode)
      → payout_is_compatible lib d set lib.coinbase_reward_script ≡ true
      → set ≡ mode
      → coinbase_outputs current total lib.coinbase_reward_script
        ≡ coinbase_outputs mode total lib.coinbase_reward_script
  unfolding payout_is_compatible
  compatible_outputs set fits e =
      let compatible : has_same_coinbase_outputs_as current mode lib.coinbase_reward_script ≡ true =
        ap (λ m. has_same_coinbase_outputs_as current m lib.coinbase_reward_script) (sym e)
        ∙ (rw (before) at fits) in
      (has_same_coinbase_outputs_as_iff current mode lib.coinbase_reward_script b b').0 compatible
        total

  -- However the request ends, unless it halts the loop.
  Opens-outputs :
      (answer : Answer lib)
      → Opens lib client request_id cm d answer
      → halts answer.2 ≡ false
      → answer.1.payout_mode ≡ some mode
      → coinbase_outputs current total lib.coinbase_reward_script
        ≡ coinbase_outputs mode total lib.coinbase_reward_script
  Opens-outputs answer (halted h) goes_on after = absurd (cc (h, goes_on))
  Opens-outputs answer (dropped kind e k) goes_on after = same_outputs answer.1 k.4 after
  Opens-outputs answer (refused messages e a k) goes_on after = same_outputs answer.1 k.4 after
  Opens-outputs answer (opened messages e a (downs, v, grown, (set, is_set, fits))) goes_on after =
      compatible_outputs set fits (cc (is_set, after))

-- A request for a standard channel that does not halt the message loop keeps the coinbase outputs of
-- its connection, at every value, when the connection has a payout mode before and after, with
-- percentages below 256.
pub open_standard_payout :
    (lib : Library) (client : ℕ) (msg : OpenStandardMiningChannel) (cm : ChannelManager lib)
    (d : Downstream lib) (current mode : PayoutMode) (total : ℕ)
    → d.payout_mode ≡ some current
    → IsByte current
    → IsByte mode
    → halts (open_standard lib client msg cm d).2 ≡ false
    → (open_standard lib client msg cm d).1.payout_mode ≡ some mode
    → coinbase_outputs current total lib.coinbase_reward_script
      ≡ coinbase_outputs mode total lib.coinbase_reward_script
open_standard_payout lib client msg cm d current mode total before b b' goes_on after =
    Opens-outputs lib client msg.request_id cm d current mode total before b b'
      (open_standard lib client msg cm d) (open_standard-Opens lib client msg cm d) goes_on after

-- A request for an extended channel that does not halt the message loop keeps the coinbase outputs of
-- its connection, at every value, when the connection has a payout mode before and after, with
-- percentages below 256.
pub open_extended_payout :
    (lib : Library) (client : ℕ) (msg : OpenExtendedMiningChannel) (cm : ChannelManager lib)
    (d : Downstream lib) (current mode : PayoutMode) (total : ℕ)
    → d.payout_mode ≡ some current
    → IsByte current
    → IsByte mode
    → halts (open_extended lib client msg cm d).2 ≡ false
    → (open_extended lib client msg cm d).1.payout_mode ≡ some mode
    → coinbase_outputs current total lib.coinbase_reward_script
      ≡ coinbase_outputs mode total lib.coinbase_reward_script
open_extended_payout lib client msg cm d current mode total before b b' goes_on after =
    Opens-outputs lib client msg.request_id cm d current mode total before b b'
      (open_extended lib client msg cm d) (open_extended-Opens lib client msg cm d) goes_on after
