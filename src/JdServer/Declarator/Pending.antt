-- ===== src/JdServer/Declarator/Pending.antt =====
-- What a client still owes: the positions it is asked for, and the declarations kept meanwhile.
use sv2_apps_fork.Prelude.{
  ℕ, zero, suc, ◌≤◌, ◌<◌, ◌≡◌, refl, ap, ◌∙◌, inl, inr, Option, none, some, List, [], ◌∷◌, map,
  ◌==◌, nat_eq, length, arith, Bool-cases, Option-cases,
}
use mathlib.Core.List.{Memᴰ}
use mathlib.Core.Path.{ap₂, subst}
use sv2_apps_fork.Prelude.Assoc.{lookup, lookup_of_insert}
use sv2_apps_fork.JdServer.TokenBytes.{parse_token}
use sv2_apps_fork.JdServer.Messages.{DeclareMiningJob}
use sv2_apps_fork.JdServer.Declarator.{Downstream, JobDeclarator}
use sv2_apps_fork.JdServer.Declarator.Declare.{store_pending, position, unknown_tx_position_list}

abbrev pub get_elem? : List ℕ → ℕ → Option ℕ
get_elem? [] i = none
get_elem? (x ∷ xs) zero = some x
get_elem? (x ∷ xs) (suc i) = get_elem? xs i

-- A position that is found is below the length, and the element stands there.
position-get_elem? :
    (wtxid : ℕ) (xs : List ℕ)
    → Memᴰ wtxid xs
    → (i : ℕ) × (position wtxid xs ≡ some i) × (i < length xs) × (get_elem? xs i ≡ some wtxid)
unfolding position
position-get_elem? wtxid [] m = elim m [ ]
position-get_elem? wtxid (x ∷ xs) (Memᴰ.head e) = (0, ground arith, omega arith, ground arith)
position-get_elem? wtxid (x ∷ xs) (Memᴰ.tail m) =
    let (i, found, below, at) = position-get_elem? wtxid xs m in
    elim (Bool-cases (x == wtxid)) [
      | inl here ↦ (0, ground arith, omega arith, ground arith)
      | inr later ↦ (suc i, rw later (rw found refl), omega arith, at)
    ]

abbrev pub AllIn : List ℕ → List ℕ → Type 0
AllIn wtxids [] = Unit {0}
AllIn wtxids (m ∷ ms) = Memᴰ m wtxids × AllIn wtxids ms

-- Where all missing transactions are declared ones, and the declaration has at most 2 ^ 16 of them,
-- the positions that the client is asked for are those of the missing transactions, in order.
pub unknown_tx_position_list_lem :
    (wtxids missing : List ℕ)
    → length wtxids ≤ 65536
    → AllIn wtxids missing
    → map (get_elem? wtxids) (unknown_tx_position_list wtxids missing) ≡ map some missing
unfolding unknown_tx_position_list
unknown_tx_position_list_lem wtxids [] small all = refl
unknown_tx_position_list_lem wtxids (m ∷ ms) small (here, all) =
    let (i, found, below, at) = position-get_elem? m wtxids here in
    rw found (
      ap₂ ◌∷◌ (ap (get_elem? wtxids) (omega (arith, below)) ∙ at)
        (unknown_tx_position_list_lem wtxids ms small all))

-- The token of a kept declaration has eight bytes.
abbrev pub IsParsed : DeclareMiningJob → Type 0
IsParsed msg = (token : ℕ) × (parse_token msg.mining_job_token ≡ some token)

abbrev pub HoldsParsed : {V : Type 0} → JobDeclarator V → Type 0
HoldsParsed jd =
    (client request_id : ℕ) (downstream : Downstream) (entry : ℕ × DeclareMiningJob)
    → lookup client jd.downstream_clients ≡ some downstream
    → lookup request_id downstream.pending_declare_mining_jobs ≡ some entry
    → IsParsed entry.1

module _ {V : Type 0} where
  pub store_pending-HoldsParsed :
      (now client : ℕ) (msg : DeclareMiningJob) (jd : JobDeclarator V)
      → IsParsed msg
      → HoldsParsed jd
      → HoldsParsed (store_pending now client msg jd).0
  store_pending-HoldsParsed now client msg jd parsed h =
      elim (Option-cases (lookup client jd.downstream_clients)) [
        | inl gone ↦ rw gone h
        | inr (old, there) ↦ rw there (λ c q d e found kept.
            elim (lookup_of_insert client c _ d jd.downstream_clients found) [
              | inl (same, eq) ↦
                  elim (lookup_of_insert msg.request_id q (now, msg) e
                    old.pending_declare_mining_jobs
                    (ap (λ (x : Downstream). lookup q x.pending_declare_mining_jobs) eq ∙ kept)) [
                      | inl (here, new) ↦
                          subst (λ (x : ℕ × DeclareMiningJob). IsParsed x.1) new parsed
                      | inr before ↦ h client q old e there before
                    ]
              | inr before ↦ h c q d e before kept
            ])
      ]
