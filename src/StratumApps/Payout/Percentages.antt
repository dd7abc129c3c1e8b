-- ===== src/StratumApps/Payout/Percentages.antt =====
-- The outputs that a pool builds, against the check of them.
use sv2_apps_fork.Prelude.{
  ℕ, ◌-◌, ◌*◌, ◌≤◌, ◌<◌, ◌≡◌, ◌≢◌, ◌↔◌, refl, Bool, true, false, List, [], ◌∷◌, ◌==◌, nat_eq,
  list_eq, arith,
}
use sv2_apps_fork.Prelude.Equality.{list_agrees_iff}
use sv2_apps_fork.JdServer.Messages.{TxOut}
use sv2_apps_fork.StratumApps.Payout.{
  Script, PayoutMode, solo, legacy_solo, donate, full_donation, valid, payout_mismatch, u64_mod,
  tx_out, pool_sats, coinbase_outputs, has_same_coinbase_outputs_as, validate_coinbase_outputs,
  tx_out_eq, scripts_iff, spendable_sats,
}

-- A mode that the parser gives: the pool's part is from 1 to 99 percent.
abbrev pub IsRange : PayoutMode → Type 0
IsRange (donate percentage address script) = (1 ≤ percentage) × (percentage ≤ 99)
IsRange (solo address script) = Unit {0}
IsRange (legacy_solo address script) = Unit {0}
IsRange full_donation = Unit {0}

-- The scripts of a mode are spendable, and a donor's is not the pool's.
abbrev pub PaysApart : (Script → Bool) → Script → PayoutMode → Type 0
PaysApart is_op_return pool_script (solo address script) = is_op_return script ≡ false
PaysApart is_op_return pool_script (legacy_solo address script) = is_op_return script ≡ false
PaysApart is_op_return pool_script (donate percentage address script) =
    (is_op_return script ≡ false) × (is_op_return pool_script ≡ false) × (pool_script ≢ script)
PaysApart is_op_return pool_script full_donation = is_op_return pool_script ≡ false

-- A percentage is a byte.
abbrev pub IsByte : PayoutMode → Type 0
IsByte (solo address script) = Unit {0}
IsByte (legacy_solo address script) = Unit {0}
IsByte (donate percentage address script) = percentage < 256
IsByte full_donation = Unit {0}

pool_sats-reference : (p : ℕ) → p < 256 → pool_sats 100 p ≡ p
pool_sats-reference p h = omega arith

donations :
    (p q : ℕ) (s s' pool_script : Script) (total : ℕ)
    → p < 256
    → q < 256
    → tx_out (pool_sats 100 p) pool_script ∷ tx_out (100 - pool_sats 100 p) s ∷ []
      ≡ tx_out (pool_sats 100 q) pool_script ∷ tx_out (100 - pool_sats 100 q) s' ∷ []
    → tx_out (pool_sats total p) pool_script ∷ tx_out (total - pool_sats total p) s ∷ []
      ≡ tx_out (pool_sats total q) pool_script ∷ tx_out (total - pool_sats total q) s' ∷ []
donations p q s s' pool_script total b b' e =
    let parts : (pool_sats 100 p ≡ pool_sats 100 q) × (s ≡ s') = (ground arith, ground arith) in
    let same : p ≡ q = omega (arith, pool_sats-reference p b, pool_sats-reference q b', parts.0) in
    rw (same, parts.1) refl

same_everywhere :
    (mode other : PayoutMode) (pool_script : Script)
    → IsByte mode
    → IsByte other
    → coinbase_outputs mode 100 pool_script ≡ coinbase_outputs other 100 pool_script
    → (total : ℕ)
    → coinbase_outputs mode total pool_script ≡ coinbase_outputs other total pool_script
unfolding coinbase_outputs
same_everywhere (solo a s) (solo a' s') pool_script b b' e total = ground arith
same_everywhere (solo a s) (legacy_solo a' s') pool_script b b' e total = ground arith
same_everywhere (solo a s) (donate q a' s') pool_script b b' e total = ground arith
same_everywhere (solo a s) full_donation pool_script b b' e total = ground arith
same_everywhere (legacy_solo a s) (solo a' s') pool_script b b' e total = ground arith
same_everywhere (legacy_solo a s) (legacy_solo a' s') pool_script b b' e total = ground arith
same_everywhere (legacy_solo a s) (donate q a' s') pool_script b b' e total = ground arith
same_everywhere (legacy_solo a s) full_donation pool_script b b' e total = ground arith
same_everywhere (donate p a s) (solo a' s') pool_script b b' e total = ground arith
same_everywhere (donate p a s) (legacy_solo a' s') pool_script b b' e total = ground arith
same_everywhere (donate p a s) (donate q a' s') pool_script b b' e total =
    donations p q s s' pool_script total b b' e
same_everywhere (donate p a s) full_donation pool_script b b' e total = ground arith
same_everywhere full_donation (solo a' s') pool_script b b' e total = ground arith
same_everywhere full_donation (legacy_solo a' s') pool_script b b' e total = ground arith
same_everywhere full_donation (donate q a' s') pool_script b b' e total = ground arith
same_everywhere full_donation full_donation pool_script b b' e total = ground arith

outputs_iff : (xs ys : List TxOut) → (xs == ys ≡ true) ↔ (xs ≡ ys)
outputs_iff xs ys = list_agrees_iff xs ys

-- Two modes, with percentages that are bytes, have the same outputs at the reference value exactly
-- when they have at every value.
pub has_same_coinbase_outputs_as_iff :
    (mode other : PayoutMode) (pool_script : Script)
    → IsByte mode
    → IsByte other
    → (has_same_coinbase_outputs_as mode other pool_script ≡ true) ↔ (
        (total : ℕ)
        → coinbase_outputs mode total pool_script ≡ coinbase_outputs other total pool_script)
unfolding has_same_coinbase_outputs_as
has_same_coinbase_outputs_as_iff mode other pool_script b b' =
    let decided =
      outputs_iff (coinbase_outputs mode 100 pool_script)
        (coinbase_outputs other 100 pool_script) in
    (λ h. same_everywhere mode other pool_script b b' (decided.0 h), λ h. decided.1 (h 100))

pool_sats-le : (total p : ℕ) → p ≤ 99 → total * 100 < u64_mod → pool_sats total p ≤ total
pool_sats-le total p h small = grind arith

donate-valid :
    (is_op_return : Script → Bool) (p total : ℕ) (a s : Script) (outputs : List TxOut)
    → 0 < total
    → spendable_sats is_op_return (λ s. true) outputs ≡ total
    → spendable_sats is_op_return (λ t. t == s) outputs ≡ total - pool_sats total p
    → validate_coinbase_outputs is_op_return (donate p a s) outputs ≡ valid
unfolding validate_coinbase_outputs
donate-valid is_op_return p total a s outputs positive all miner = ground arith

-- The sums over the two outputs of a donation.
donate-sums :
    (is_op_return : Script → Bool) (total value : ℕ) (s pool_script : Script)
    → (is_op_return s ≡ false) × (is_op_return pool_script ≡ false) × (pool_script ≢ s)
    → value ≤ total
    → total < u64_mod
    → let outputs = tx_out value pool_script ∷ tx_out (total - value) s ∷ [] in
      (spendable_sats is_op_return (λ s. true) outputs ≡ total)
      × (spendable_sats is_op_return (λ t. t == s) outputs ≡ total - value)
donate-sums is_op_return total value s pool_script apart h small =
    rw (apart.0, apart.1) (ground (arith, scripts_iff s s, scripts_iff pool_script s))

-- The outputs that the pool builds for a mode pass the check of it and add up to the whole value,
-- when the value is positive and 100 times it does not wrap, no script is an OP_RETURN, and a donor
-- does not pay the pool's own script.
pub coinbase_outputs-valid :
    (is_op_return : Script → Bool) (mode : PayoutMode) (total : ℕ) (pool_script : Script)
    → IsRange mode
    → PaysApart is_op_return pool_script mode
    → 0 < total
    → total * 100 < u64_mod
    → (validate_coinbase_outputs is_op_return mode (coinbase_outputs mode total pool_script)
        ≡ valid)
      × (spendable_sats is_op_return (λ s. true) (coinbase_outputs mode total pool_script) ≡ total)
unfolding validate_coinbase_outputs coinbase_outputs
coinbase_outputs-valid is_op_return (solo a s) total pool_script r apart positive small =
    ground (arith, scripts_iff s s)
coinbase_outputs-valid is_op_return (legacy_solo a s) total pool_script r apart positive small =
    ground (arith, scripts_iff s s)
coinbase_outputs-valid is_op_return (donate p a s) total pool_script r apart positive small =
    let (all, miner) =
      donate-sums is_op_return total (pool_sats total p) s pool_script apart
        (pool_sats-le total p r.1 small) (omega arith) in
    (
      donate-valid is_op_return p total a s (coinbase_outputs (donate p a s) total pool_script)
          positive all miner,
      all,
    )
coinbase_outputs-valid is_op_return full_donation total pool_script r apart positive small =
    ground arith

self-sums :
    (is_op_return : Script → Bool) (total value : ℕ) (s : Script)
    → is_op_return s ≡ false
    → value ≤ total
    → total < u64_mod
    → let outputs = tx_out value s ∷ tx_out (total - value) s ∷ [] in
      (spendable_sats is_op_return (λ s. true) outputs ≡ total)
      × (spendable_sats is_op_return (λ t. t == s) outputs ≡ total)
self-sums is_op_return total value s spendable h small =
    rw (spendable) (ground (arith, scripts_iff s s))

donate-mismatch :
    (is_op_return : Script → Bool) (p total : ℕ) (a s : List ℕ) (outputs : List TxOut)
    → 0 < pool_sats total p
    → pool_sats total p ≤ total
    → spendable_sats is_op_return (λ s. true) outputs ≡ total
    → spendable_sats is_op_return (λ t. t == s) outputs ≡ total
    → validate_coinbase_outputs is_op_return (donate p a s) outputs
      ≡ payout_mismatch a (total - pool_sats total p) (100 - p) total total
unfolding validate_coinbase_outputs
donate-mismatch is_op_return p total a s outputs paid below all miner =
    rw (all, miner) (ground arith)

-- The pool's own outputs for a donor whose script is the pool's are refused as a payout mismatch, since
-- both count as the miner's, when the percentage is at most 99, the script is no OP_RETURN, the pool's
-- part is positive, and 100 times the value does not wrap.
pub self_donation-refused :
    (is_op_return : Script → Bool) (p total : ℕ) (a s : List ℕ)
    → p ≤ 99
    → is_op_return s ≡ false
    → 0 < pool_sats total p
    → total * 100 < u64_mod
    → validate_coinbase_outputs is_op_return
        (donate p a s)
        (coinbase_outputs (donate p a s) total s)
      ≡ payout_mismatch a (total - pool_sats total p) (100 - p) total total
unfolding validate_coinbase_outputs coinbase_outputs
self_donation-refused is_op_return p total a s within spendable paid small =
    let below = pool_sats-le total p within small in
    let (all, miner) =
      self-sums is_op_return total (pool_sats total p) s spendable below (omega arith) in
    donate-mismatch is_op_return p total a s (coinbase_outputs (donate p a s) total s) paid below
      all miner
