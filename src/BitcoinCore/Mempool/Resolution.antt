-- ===== src/BitcoinCore/Mempool/Resolution.antt =====
-- What `resolve_txdata` answers.
use mathlib.Core.List.{append-nil, append_assoc}
use sv2_apps_fork.Prelude.{
  ℕ, ◌+◌, ◌≤◌, ◌≡◌, refl, ap, ◌∙◌, inl, inr, Option, none, some, List, [], ◌∷◌, ◌++◌, true, false,
  ltb, if◌then◌else◌, arith, Bool-cases, Option-cases,
}
use sv2_apps_fork.Prelude.Assoc.{Assoc}
use sv2_apps_fork.BitcoinCore.Mempool.{
  MempoolMirror, Resolved, too_heavy, find, finish, resolve_loop, resolve_txdata,
}

-- The transactions that are known, in the declared order.
unfoldable pub found {ℓ} : {T : Type ℓ} → (ℕ → Option T) → List ℕ → List T
found find_tx [] = []
found find_tx (w ∷ ws) = elim (find_tx w) [
  | none ↦ found find_tx ws
  | some tx ↦ tx ∷ found find_tx ws
]

-- The identifiers that are not, in the declared order.
unfoldable pub unresolved {ℓ} : {T : Type ℓ} → (ℕ → Option T) → List ℕ → List ℕ
unresolved find_tx [] = []
unresolved find_tx (w ∷ ws) = elim (find_tx w) [
  | none ↦ w ∷ unresolved find_tx ws
  | some tx ↦ unresolved find_tx ws
]

module _ {T : Type 0} (f : ℕ → Option T) (w : ℕ) (ws : List ℕ) where
  found-none : f w ≡ none → found f (w ∷ ws) ≡ found f ws
  unfolding found
  found-none e = rw (e, found) refl

  found-some : (tx : T) → f w ≡ some tx → found f (w ∷ ws) ≡ tx ∷ found f ws
  unfolding found
  found-some tx e = rw (e, found) refl

  unresolved-none : f w ≡ none → unresolved f (w ∷ ws) ≡ w ∷ unresolved f ws
  unfolding unresolved
  unresolved-none e = rw (e, unresolved) refl

  unresolved-some : (tx : T) → f w ≡ some tx → unresolved f (w ∷ ws) ≡ unresolved f ws
  unfolding unresolved
  unresolved-some tx e = rw (e, unresolved) refl

module _ {T : Type 0} (compute_wtxid weight : T → ℕ) where
  unfoldable pub weights : List T → ℕ
  weights [] = 0
  weights (tx ∷ txs) = weight tx + weights txs

  -- What the resolution comes to, from what the loop has pushed so far.
  resolution : (ℕ → Option T) → ℕ → ℕ → List T → List ℕ → List ℕ → Resolved T
  resolution f budget sum txs lacking ws =
      if ltb budget (sum + weights (found f ws))
      then too_heavy
      else finish compute_wtxid weight (txs ++ found f ws) (lacking ++ unresolved f ws)

  resolution-skip :
      (f : ℕ → Option T) (budget sum : ℕ) (txs : List T) (lacking : List ℕ) (w : ℕ) (ws : List ℕ)
      → f w ≡ none
      → resolution f budget sum txs (lacking ++ (w ∷ [])) ws
        ≡ resolution f budget sum txs lacking (w ∷ ws)
  unfolding resolution
  resolution-skip f budget sum txs lacking w ws e =
      rw
        (
          found-none f w ws e,
          unresolved-none f w ws e,
          append_assoc lacking (w ∷ []) (unresolved f ws),
        )
        refl

  resolution-take :
      (f : ℕ → Option T) (budget sum : ℕ) (txs : List T) (lacking : List ℕ) (w : ℕ) (ws : List ℕ)
      (tx : T)
      → f w ≡ some tx
      → resolution f budget (sum + weight tx) (txs ++ (tx ∷ [])) lacking ws
        ≡ resolution f budget sum txs lacking (w ∷ ws)
  unfolding resolution weights
  resolution-take f budget sum txs lacking w ws tx e =
      let sums : sum + weight tx + weights (found f ws) ≡ sum + (weight tx + weights (found f ws)) =
        omega arith in
      rw
        (
          found-some f w ws tx e,
          unresolved-some f w ws tx e,
          append_assoc txs (tx ∷ []) (found f ws),
          sums,
        )
        refl

  resolution-over :
      (f : ℕ → Option T) (budget sum : ℕ) (txs : List T) (lacking : List ℕ) (w : ℕ) (ws : List ℕ)
      (tx : T)
      → f w ≡ some tx
      → ltb budget (sum + weight tx) ≡ true
      → too_heavy ≡ resolution f budget sum txs lacking (w ∷ ws)
  unfolding resolution weights
  resolution-over f budget sum txs lacking w ws tx e over =
      rw (found-some f w ws tx e) (ground (arith, over))

  loop-skip :
      (f : ℕ → Option T) (budget sum : ℕ) (txs : List T) (lacking : List ℕ) (w : ℕ) (ws : List ℕ)
      → f w ≡ none
      → resolve_loop compute_wtxid weight f budget sum txs lacking (w ∷ ws)
        ≡ resolve_loop compute_wtxid weight f budget sum txs (lacking ++ (w ∷ [])) ws
  unfolding resolve_loop
  loop-skip f budget sum txs lacking w ws e = rw (e, resolve_loop) refl

  loop-over :
      (f : ℕ → Option T) (budget sum : ℕ) (txs : List T) (lacking : List ℕ) (w : ℕ) (ws : List ℕ)
      (tx : T)
      → f w ≡ some tx
      → ltb budget (sum + weight tx) ≡ true
      → resolve_loop compute_wtxid weight f budget sum txs lacking (w ∷ ws) ≡ too_heavy
  unfolding resolve_loop
  loop-over f budget sum txs lacking w ws tx e over = rw (e, resolve_loop, over) refl

  loop-take :
      (f : ℕ → Option T) (budget sum : ℕ) (txs : List T) (lacking : List ℕ) (w : ℕ) (ws : List ℕ)
      (tx : T)
      → f w ≡ some tx
      → ltb budget (sum + weight tx) ≡ false
      → resolve_loop compute_wtxid weight f budget sum txs lacking (w ∷ ws)
        ≡ resolve_loop compute_wtxid weight f budget (sum + weight tx) (txs ++ (tx ∷ [])) lacking ws
  unfolding resolve_loop
  loop-take f budget sum txs lacking w ws tx e fits = rw (e, resolve_loop, fits) refl

  resolve_loop_lem :
      (f : ℕ → Option T) (budget sum : ℕ) (txs : List T) (lacking ws : List ℕ)
      → sum ≤ budget
      → resolve_loop compute_wtxid weight f budget sum txs lacking ws
        ≡ resolution f budget sum txs lacking ws
  unfolding resolve_loop resolution found unresolved weights
  resolve_loop_lem f budget sum txs lacking [] within =
      rw (append-nil txs, append-nil lacking) (ground arith)
  resolve_loop_lem f budget sum txs lacking (w ∷ ws) within = elim (Option-cases (f w)) [
    | inl e ↦
        loop-skip f budget sum txs lacking w ws e
        ∙ resolve_loop_lem f budget sum txs (lacking ++ (w ∷ [])) ws within
        ∙ resolution-skip f budget sum txs lacking w ws e
    | inr (tx, e) ↦ elim (Bool-cases (ltb budget (sum + weight tx))) [
      | inl over ↦
          loop-over f budget sum txs lacking w ws tx e over
          ∙ resolution-over f budget sum txs lacking w ws tx e over
      | inr fits ↦
          loop-take f budget sum txs lacking w ws tx e fits
          ∙ resolve_loop_lem f budget (sum + weight tx) (txs ++ (tx ∷ [])) lacking ws
              (ground (arith, fits))
          ∙ resolution-take f budget sum txs lacking w ws tx e
    ]
  ]

  -- A declaration is answered in one of three ways, read off the identifiers alone: it is too heavy
  -- when the transactions that are known weigh more than the budget, else every identifier without
  -- a transaction is reported, in the declared order, and when there is none, every transaction is
  -- given, in the declared order.
  pub resolve_txdata_lem :
      (wtxids : List ℕ) (staged : Assoc ℕ T) (budget : ℕ) (mirror : MempoolMirror T)
      → let f : ℕ → Option T = find compute_wtxid weight staged mirror in
        resolve_txdata compute_wtxid weight wtxids staged budget mirror ≡ (
          if ltb budget (weights (found f wtxids))
          then too_heavy
          else finish compute_wtxid weight (found f wtxids) (unresolved f wtxids))
  unfolding resolve_txdata resolution
  resolve_txdata_lem wtxids staged budget mirror =
      let f : ℕ → Option T = find compute_wtxid weight staged mirror in
      resolve_loop_lem (find compute_wtxid weight staged mirror) budget 0 [] [] wtxids (omega arith)
      ∙ ap
          (λ n.
            if ltb budget n
            then too_heavy
            else finish compute_wtxid weight (found f wtxids) (unresolved f wtxids))
          (omega arith)
