-- ===== src/Translator/Submission/Versions.antt =====
-- The version of a share, bit by bit.
use sv2_apps_fork.Prelude.{
  ℕ, zero, suc, ◌+◌, ◌*◌, ◌/◌, ◌%◌, ◌<◌, ◌≡◌, ap, ◌∙◌, Bool, true, false, Option, if◌then◌else◌,
  ◌==◌, nat_eq, arith,
}
use sv2_apps_fork.Translator.Downstream.{Notify, Submit}
use sv2_apps_fork.Translator.Submission.{merge_bits, or_version, share_version}

-- A bit of a number, the lowest is the zeroth.
unfoldable pub bit : ℕ → ℕ → ℕ
bit zero n = n % 2
bit (suc i) n = bit i (n / 2)

low-bit : (x rest : ℕ) → x < 2 → (x + 2 * rest) % 2 ≡ x
low-bit x rest h = omega arith

high-bits : (x rest : ℕ) → x < 2 → (x + 2 * rest) / 2 ≡ rest
high-bits x rest h = omega arith

chosen_is_bit : (b : Bool) (m n : ℕ) → (if b then m % 2 else n % 2) < 2
chosen_is_bit true m n = omega arith
chosen_is_bit false m n = omega arith

merge_bits-bit :
    (bits i mask job share : ℕ)
    → i < bits
    → bit i (merge_bits bits mask job share) ≡ (if bit i mask == 1 then bit i share else bit i job)
unfolding merge_bits bit
merge_bits-bit zero i mask job share h = absurd (omega arith)
merge_bits-bit (suc bits) zero mask job share h =
    low-bit (if mask % 2 == 1 then share % 2 else job % 2)
      (merge_bits bits (mask / 2) (job / 2) (share / 2)) (chosen_is_bit (mask % 2 == 1) share job)
merge_bits-bit (suc bits) (suc i) mask job share h =
    ap (bit i) (
      high-bits (if mask % 2 == 1 then share % 2 else job % 2)
        (merge_bits bits (mask / 2) (job / 2) (share / 2))
        (chosen_is_bit (mask % 2 == 1) share job))
    ∙ merge_bits-bit bits i (mask / 2) (job / 2) (share / 2) (omega arith)

-- Each of the 32 bits of a share's version is the miner's where the mask has a one, and the job's
-- where it has a zero or where the miner gives no version; without a negotiated mask the default
-- mask counts.
pub share_version-bit :
    (default_mask i : ℕ) (share : Submit) (version_rolling_mask : Option ℕ) (job : Notify)
    → i < 32
    → bit i (share_version default_mask share version_rolling_mask job) ≡ (
        if bit i (or_version version_rolling_mask default_mask) == 1
        then bit i (or_version share.version_bits job.version)
        else bit i job.version)
unfolding share_version
share_version-bit default_mask i share mask job h =
    merge_bits-bit 32 i (or_version mask default_mask) job.version
      (or_version share.version_bits job.version) h
