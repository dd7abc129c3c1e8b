-- ===== src/Tests/Payouts.antt =====
-- Payout modes at concrete inputs.
use sv2_apps_fork.Prelude.{
  ℕ, ◌≡◌, ◌↔◌, refl, Bool, true, false, Option, none, some, [], ◌∷◌, codes, arith, inl, inr,
  Bool-cases, ◌==◌, nat_eq, list_eq, if◌then◌else◌,
}
use sv2_apps_fork.Prelude.Equality.{list_agrees}
use sv2_apps_fork.StratumApps.Payout.{
  Script, Text, PayoutMode, legacy_solo, donate, valid, payout_mismatch, coinbase_outputs,
  has_same_coinbase_outputs_as, spendable_sats, validate_coinbase_outputs,
}
use sv2_apps_fork.StratumApps.Payout.Percentages.{
  has_same_coinbase_outputs_as_iff, self_donation-refused,
}
use sv2_apps_fork.StratumApps.Payout.Parse.{ok, before, try_from}
use sv2_apps_fork.StratumApps.Payout.Identities.{parsed_outputs-valid}
use sv2_apps_fork.StratumApps.Payout.RoundTrip.{identity, Readable, try_from-identity}

-- Scripts are 1, 7 for the pool and 2, 9 for a miner; an OP_RETURN starts with 106.
abbrev pool_script : Script
pool_script = 1 ∷ 7 ∷ []

abbrev miner_script : Script
miner_script = 2 ∷ 9 ∷ []

abbrev address : Text
address = codes "tb1q"

abbrev is_op_return : Script → Bool
is_op_return [] = false
is_op_return (x ∷ xs) = x == 106

-- One address is known.
abbrev script_from_address : Text → Option Script
script_from_address text = if text == address then some miner_script else none

abbrev donor : PayoutMode
donor = donate 10 address miner_script

has_same_coinbase_outputs_as_iff_example :
    (has_same_coinbase_outputs_as donor (donate 11 address miner_script) pool_script ≡ true) ↔ (
      (total : ℕ)
      → coinbase_outputs donor total pool_script
        ≡ coinbase_outputs (donate 11 address miner_script) total pool_script)
has_same_coinbase_outputs_as_iff_example =
    has_same_coinbase_outputs_as_iff donor (donate 11 address miner_script) pool_script
      (omega arith) (omega arith)

-- A donor with a worker's name.
abbrev text : Text
text = identity donor (some (codes "rig"))

read_donor : try_from script_from_address text ≡ ok donor
unfolding identity Readable list_agrees before
read_donor =
    try_from-identity script_from_address donor (some (codes "rig")) (omega arith, omega arith) refl
      (refl, refl)

miner_spendable : (a : Text) (s : Script) → script_from_address a ≡ some s → is_op_return s ≡ false
miner_spendable a s e = elim (Bool-cases (a == address)) [
  | inl known ↦
      let same : some miner_script ≡ some s = rw (known) at e in
      let it : miner_script ≡ s = cc (same) in rw (← it) refl
  | inr other ↦ absurd (cc (rw (other) at e))
]

parsed_outputs-valid_example :
    (validate_coinbase_outputs is_op_return donor (coinbase_outputs donor 5000 pool_script) ≡ valid)
    × (spendable_sats is_op_return (λ s. true) (coinbase_outputs donor 5000 pool_script) ≡ 5000)
parsed_outputs-valid_example =
    parsed_outputs-valid script_from_address is_op_return miner_spendable text donor 5000
      pool_script read_donor refl (λ e. ground (arith, e)) (omega arith) (omega arith)

-- A bare address.
read_bare : try_from script_from_address address ≡ ok (legacy_solo address miner_script)
unfolding identity Readable list_agrees before
read_bare =
    try_from-identity script_from_address (legacy_solo address miner_script) none tt refl
      (refl, λ e. absurd (cc (e)))

try_from-identity_example :
    try_from script_from_address (identity donor (some (codes "rig"))) ≡ ok donor
unfolding identity Readable list_agrees before
try_from-identity_example =
    try_from-identity script_from_address donor (some (codes "rig")) (omega arith, omega arith) refl
      (refl, refl)

self_donation-refused_example :
    validate_coinbase_outputs is_op_return
      (donate 10 address pool_script)
      (coinbase_outputs (donate 10 address pool_script) 5000 pool_script)
    ≡ payout_mismatch address 4500 90 5000 5000
self_donation-refused_example =
    self_donation-refused is_op_return 10 5000 address pool_script (omega arith) refl (omega arith)
      (omega arith)
