-- ===== src/BitcoinCore/Mempool/Bounds.antt =====
-- What the mirror holds, and how much of it.
use sv2_apps_fork.Prelude.{
  ℕ, ◌+◌, ◌-◌, ◌≤◌, ◌≡◌, inl, inr, true, List, [], ◌∷◌, is_some, if◌then◌else◌, nat_eq, arith,
  Bool-cases, Option-cases,
}
use sv2_apps_fork.Prelude.Assoc.{Assoc, lookup, insert, without}
use sv2_apps_fork.BitcoinCore.Mempool.{
  MempoolMirror, Block, max_mirror_carry_over_weight, max_mirror_weight, same_tip, total, trim,
  or_insert_all, template_of, update, commit, add_transactions,
}

module _ {T : Type 0} (compute_wtxid weight : T → ℕ) where
  -- The weight of the entries that a template does not have.
  pub outside : Assoc ℕ T → Assoc ℕ T → ℕ
  outside template [] = 0
  outside template ((k, tx) ∷ m) =
      (if is_some (lookup k template) then 0 else weight tx) + outside template m

  outside-without-le :
      (template : Assoc ℕ T) (k : ℕ) (m : Assoc ℕ T)
      → outside template (without k m) ≤ outside template m
  unfolding outside without
  outside-without-le template k [] = omega arith
  outside-without-le template k ((j, tx) ∷ m) = ground (arith, outside-without-le template k m)

  outside-trim-le :
      (template : Assoc ℕ T) (carried : ℕ) (m : Assoc ℕ T)
      → outside template (trim compute_wtxid weight template carried m)
        ≤ max_mirror_carry_over_weight - carried
  unfolding outside trim
  outside-trim-le template carried [] = omega arith
  outside-trim-le template carried ((k, tx) ∷ m) = elim (Option-cases (lookup k template)) [
    | inl away ↦
        let kept = trim compute_wtxid weight template (carried + weight tx) m in
        rw (away) (
          ground (
            arith,
            outside-trim-le template (carried + weight tx) m,
            outside-without-le template k kept,
            away,
          ))
    | inr (t, there) ↦ rw (there) (ground (arith, outside-trim-le template carried m, there))
  ]

  total-without-le :
      (k : ℕ) (m : Assoc ℕ T)
      → total compute_wtxid weight (without k m) ≤ total compute_wtxid weight m
  unfolding total without
  total-without-le k [] = omega arith
  total-without-le k ((j, tx) ∷ m) = ground (arith, total-without-le k m)

  total-insert-le :
      (k : ℕ) (tx : T) (m : Assoc ℕ T)
      → total compute_wtxid weight (insert k tx m) ≤ weight tx + total compute_wtxid weight m
  unfolding total insert
  total-insert-le k tx m = omega (arith, total-without-le k m)

  total-commit-le :
      (mirror_weight : ℕ) (txs : List T) (m : Assoc ℕ T)
      → total compute_wtxid weight m ≤ mirror_weight
      → mirror_weight ≤ max_mirror_weight
      → total compute_wtxid weight (commit compute_wtxid weight mirror_weight txs m)
        ≤ max_mirror_weight
  unfolding commit
  total-commit-le mirror_weight [] m counted bounded = omega arith
  total-commit-le mirror_weight (tx ∷ txs) m counted bounded =
      let skip = total-commit-le mirror_weight txs m counted bounded in
      let more = total-insert-le (compute_wtxid tx) tx m in
      let take =
        total-commit-le (mirror_weight + weight tx) txs (insert (compute_wtxid tx) tx m)
          (omega (arith, more)) in
      ground (arith, skip, take)

  -- `add_transactions` never brings the mirror above its ceiling.
  pub add_transactions-bounded :
      (txs : List T) (mirror : MempoolMirror T)
      → total compute_wtxid weight mirror.txdata ≤ max_mirror_weight
      → total compute_wtxid weight (add_transactions compute_wtxid weight txs mirror).txdata
        ≤ max_mirror_weight
  unfolding add_transactions
  add_transactions-bounded txs mirror bounded =
      total-commit-le (total compute_wtxid weight mirror.txdata) txs mirror.txdata (omega arith)
        bounded

  outside-insert-le :
      (template : Assoc ℕ T) (k : ℕ) (tx : T) (m : Assoc ℕ T)
      → is_some (lookup k template) ≡ true
      → outside template (insert k tx m) ≤ outside template m
  unfolding outside insert
  outside-insert-le template k tx m inside =
      rw (inside) (omega (arith, outside-without-le template k m))

  -- Adding the template's entries adds nothing to what lies outside of it.
  outside-or_insert_all-le :
      (template rest m : Assoc ℕ T)
      → ((k : ℕ) → is_some (lookup k rest) ≡ true → is_some (lookup k template) ≡ true)
      → outside template (or_insert_all compute_wtxid weight rest m) ≤ outside template m
  unfolding or_insert_all lookup
  outside-or_insert_all-le template [] m within = omega arith
  outside-or_insert_all-le template ((k, tx) ∷ rest) m within =
      let deeper : (j : ℕ) → is_some (lookup j rest) ≡ true → is_some (lookup j template) ≡ true =
        λ j inside. within j (ground (arith, inside)) in
      elim (Bool-cases (is_some (lookup k m))) [
        | inl held ↦ rw (held) (outside-or_insert_all-le template rest m deeper)
        | inr new ↦
            let ih = outside-or_insert_all-le template rest (insert k tx m) deeper in
            let here : is_some (lookup k template) ≡ true = within k (ground arith) in
            rw (new) (omega (arith, ih, outside-insert-le template k tx m here))
      ]

  -- Whatever the mirror held, after an update the entries that are not the block's own weigh at
  -- most the carry-over budget.
  pub update-carry_over :
      (block : Block T) (mirror : MempoolMirror T)
      → outside
          (template_of compute_wtxid weight block)
          (update compute_wtxid weight block mirror).txdata
        ≤ max_mirror_carry_over_weight
  unfolding update
  update-carry_over block mirror =
      let template = template_of compute_wtxid weight block in
      let held =
        if same_tip mirror.current_prev_hash block.prev_blockhash then mirror.txdata else [] in
      omega (
        arith,
        outside-trim-le template 0 held,
        outside-or_insert_all-le template template (trim compute_wtxid weight template 0 held)
            (λ k e. e),
      )
