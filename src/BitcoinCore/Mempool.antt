-- ===== src/BitcoinCore/Mempool.antt =====
-- bitcoin-core-sv2/src/unix_capnp/v31x/job_declaration_protocol/mempool.rs (v30x has the same code):
-- the mirror of Bitcoin Core's transactions. A transaction's type, identifier and weight are
-- parameters, and weights do not reach 2 ^ 64. A `HashMap` is walked in an order of its own, here
-- that of the list.
pub mod Bounds
pub mod Resolution
use sv2_apps_fork.Prelude.{
  ℕ, zero, suc, ◌+◌, ◌*◌, Bool, true, false, not, ◌&&◌, ◌||◌, Option, none, some, List, [], ◌∷◌,
  ◌++◌, is_some, ltb, leb, if◌then◌else◌, ◌==◌, nat_eq,
}
use sv2_apps_fork.Prelude.Assoc.{Assoc, lookup, insert, without}

-- `Weight::MAX_BLOCK`
abbrev pub max_block : ℕ
max_block = 4000000

abbrev pub max_mirror_carry_over_weight : ℕ
max_mirror_carry_over_weight = 4 * max_block

abbrev pub max_mirror_weight : ℕ
max_mirror_weight = max_block + max_mirror_carry_over_weight

pub record MempoolMirror (T : Type 0) : Type 0 where
  pub txdata : Assoc ℕ T
  pub current_prev_hash : Option ℕ
  pub current_nbits : Option ℕ
  pub current_ntime : Option ℕ

pub record Block (T : Type 0) : Type 0 where
  pub prev_blockhash : ℕ
  pub bits : ℕ
  pub time : ℕ
  pub txdata : List T

pub data Resolved (T : Type 0) : Type 0 where
  resolved : List T → Resolved T
  missing : List ℕ → Resolved T
  too_heavy : Resolved T

abbrev pub same_tip : Option ℕ → ℕ → Bool
same_tip none prev_hash = false
same_tip (some current) prev_hash = current == prev_hash

-- `skip(1)`
abbrev pub skip_coinbase {ℓ} : {A : Type ℓ} → List A → List A
skip_coinbase [] = []
skip_coinbase (x ∷ xs) = xs

abbrev pub or_else {ℓ} : {A : Type ℓ} → Option A → Option A → Option A
or_else none other = other
or_else (some a) other = some a

unfoldable pub new : {T : Type 0} → MempoolMirror T
new = record { txdata = []; current_prev_hash = none; current_nbits = none; current_ntime = none }

module _ {T : Type 0} (compute_wtxid weight : T → ℕ) where
  -- The weight of all that a map holds.
  unfoldable pub total : Assoc ℕ T → ℕ
  total [] = 0
  total ((k, tx) ∷ m) = weight tx + total m

  -- `collect` into a map, a later entry over an earlier one.
  unfoldable pub collect : List T → Assoc ℕ T → Assoc ℕ T
  collect [] m = m
  collect (tx ∷ txs) m = collect txs (insert (compute_wtxid tx) tx m)

  -- `retain` with its running count, which grows at a dropped entry too.
  unfoldable pub trim : Assoc ℕ T → ℕ → Assoc ℕ T → Assoc ℕ T
  trim template carried [] = []
  trim template carried ((k, tx) ∷ m) =
      let inside = is_some (lookup k template) in
      let carried' = if inside then carried else carried + weight tx in
      let rest = trim template carried' m in
      if inside || leb carried' max_mirror_carry_over_weight then (k, tx) ∷ rest else without k rest

  -- `entry(wtxid).or_insert_with(..)` for each entry of the template.
  unfoldable pub or_insert_all : Assoc ℕ T → Assoc ℕ T → Assoc ℕ T
  or_insert_all [] m = m
  or_insert_all ((k, tx) ∷ template) m =
      or_insert_all template (if is_some (lookup k m) then m else insert k tx m)

  abbrev pub template_of : Block T → Assoc ℕ T
  template_of block = collect (skip_coinbase block.txdata) []

  unfoldable pub update : Block T → MempoolMirror T → MempoolMirror T
  update block mirror =
      let held =
        if same_tip mirror.current_prev_hash block.prev_blockhash then mirror.txdata else [] in
      record {
        txdata = or_insert_all (template_of block) (trim (template_of block) 0 held);
        current_prev_hash = some block.prev_blockhash;
        current_nbits = some block.bits;
        current_ntime = some block.time;
      }

  -- The loop of `add_transactions`; a transaction that does not fit ends it.
  unfoldable pub commit : ℕ → List T → Assoc ℕ T → Assoc ℕ T
  commit mirror_weight [] m = m
  commit mirror_weight (tx ∷ txs) m =
      let skipped = commit mirror_weight txs m in
      let taken = commit (mirror_weight + weight tx) txs (insert (compute_wtxid tx) tx m) in
      if is_some (lookup (compute_wtxid tx) m)
      then skipped
      else (if ltb max_mirror_weight (mirror_weight + weight tx) then m else taken)

  unfoldable pub add_transactions : List T → MempoolMirror T → MempoolMirror T
  unfolding total
  add_transactions transactions mirror = record mirror {
    txdata = commit (total mirror.txdata) transactions mirror.txdata;
  }

  abbrev pub finish : List T → List ℕ → Resolved T
  finish txdata [] = resolved txdata
  finish txdata (w ∷ ws) = missing (w ∷ ws)

  abbrev pub find : Assoc ℕ T → MempoolMirror T → ℕ → Option T
  find staged mirror wtxid = or_else (lookup wtxid staged) (lookup wtxid mirror.txdata)

  -- The loop of `resolve_txdata`, on what it has pushed so far.
  unfoldable pub resolve_loop : (ℕ → Option T) → ℕ → ℕ → List T → List ℕ → List ℕ → Resolved T
  resolve_loop find_tx weight_budget sum txdata lacking [] = finish txdata lacking
  resolve_loop find_tx weight_budget sum txdata lacking (w ∷ ws) = elim (find_tx w) [
    | none ↦ resolve_loop find_tx weight_budget sum txdata (lacking ++ (w ∷ [])) ws
    | some tx ↦
        let rest =
          resolve_loop find_tx weight_budget (sum + weight tx) (txdata ++ (tx ∷ [])) lacking ws in
        if ltb weight_budget (sum + weight tx) then too_heavy else rest
  ]

  unfoldable pub resolve_txdata : List ℕ → Assoc ℕ T → ℕ → MempoolMirror T → Resolved T
  unfolding resolve_loop
  resolve_txdata wtxids staged weight_budget mirror =
      resolve_loop (find staged mirror) weight_budget 0 [] [] wtxids
