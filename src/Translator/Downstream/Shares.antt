-- ===== src/Translator/Downstream/Shares.antt =====
-- The shares that a miner was accepted for.
use sv2_apps_fork.Prelude.{
  ℕ, zero, suc, ◌-◌, ◌≤◌, ◌<◌, ◌≡◌, ◌≢◌, refl, sym, ap, ◌∙◌, subst, inl, inr, true, false, List, [],
  ◌∷◌, ◌++◌, if◌then◌else◌, ◌==◌, nat_eq, length, length-append, contains, Distinct, snoc-Distinct,
  arith, Bool-cases,
}
use sv2_apps_fork.Translator.Downstream.{pop_front, insert_if_new}

unfoldable pub drop : ℕ → List ℕ → List ℕ
drop zero xs = xs
drop (suc n) [] = []
drop (suc n) (x ∷ xs) = drop n xs

-- Shares inserted one after the other into the cache, with the list of the accepted ones.
unfoldable pub insert_shares : ℕ → List ℕ → List ℕ × List ℕ → List ℕ × List ℕ
insert_shares max_seen_shares [] s = s
insert_shares max_seen_shares (hash ∷ hs) (hashes, accepted) =
    let (hashes', is_new) = insert_if_new max_seen_shares hash hashes in
    insert_shares max_seen_shares hs
      (hashes', (if is_new then accepted ++ (hash ∷ []) else accepted))

pop_front-drop : (n : ℕ) (xs : List ℕ) → pop_front (drop n xs) ≡ drop (suc n) xs
unfolding drop
pop_front-drop zero [] = refl
pop_front-drop zero (x ∷ xs) = refl
pop_front-drop (suc n) [] = refl
pop_front-drop (suc n) (x ∷ xs) = pop_front-drop n xs

length-drop : (n : ℕ) (xs : List ℕ) → length (drop n xs) ≡ length xs - n
unfolding drop
length-drop zero xs = omega arith
length-drop (suc n) [] = omega arith
length-drop (suc n) (x ∷ xs) = omega (arith, length-drop n xs)

drop-snoc :
    (n : ℕ) (xs : List ℕ) (x : ℕ) → n ≤ length xs → drop n (xs ++ (x ∷ [])) ≡ drop n xs ++ (x ∷ [])
unfolding drop
drop-snoc zero xs x h = refl
drop-snoc (suc n) [] x h = absurd (omega arith)
drop-snoc (suc n) (y ∷ ys) x h = drop-snoc n ys x (omega arith)

-- The cache has the newest accepted shares, as many as it may hold, each once.
pub record IsWindow (max : ℕ) (hashes accepted : List ℕ) : Type 0 where
  pub newest : hashes ≡ drop (length accepted - max) accepted
  pub distinct : Distinct hashes

pop_front-Distinct : (xs : List ℕ) → Distinct xs → Distinct (pop_front xs)
pop_front-Distinct [] d = tt
pop_front-Distinct (x ∷ xs) d = d.1

pop_front-lacks : (h : ℕ) (xs : List ℕ) → contains h xs ≡ false → contains h (pop_front xs) ≡ false
pop_front-lacks h [] e = refl
pop_front-lacks h (x ∷ xs) e = ground arith

-- The cache is full: its oldest share goes.
window_full :
    (max hash : ℕ) (hashes accepted : List ℕ)
    → 0 < max
    → hashes ≡ drop (length accepted - max) accepted
    → length hashes ≡ max
    → pop_front hashes ++ (hash ∷ [])
      ≡ drop (length (accepted ++ (hash ∷ [])) - max) (accepted ++ (hash ∷ []))
window_full max hash hashes accepted positive newest full =
    let n : ℕ = length accepted - max in
    let sizes : length hashes ≡ length accepted - n = ap length newest ∙ length-drop n accepted in
    let longer : length (accepted ++ (hash ∷ [])) - max ≡ suc n =
      omega (arith, length-append accepted (hash ∷ [])) in
    ap (λ l. pop_front l ++ (hash ∷ [])) newest
    ∙ ap (λ l. l ++ (hash ∷ [])) (pop_front-drop n accepted)
    ∙ sym (drop-snoc (suc n) accepted hash (omega arith))
    ∙ ap (λ k. drop k (accepted ++ (hash ∷ []))) (sym longer)

window_open :
    (max hash : ℕ) (hashes accepted : List ℕ)
    → hashes ≡ drop (length accepted - max) accepted
    → length hashes ≢ max
    → hashes ++ (hash ∷ [])
      ≡ drop (length (accepted ++ (hash ∷ [])) - max) (accepted ++ (hash ∷ []))
window_open max hash hashes accepted newest room =
    let n : ℕ = length accepted - max in
    let sizes : length hashes ≡ length accepted - n = ap length newest ∙ length-drop n accepted in
    let same : length (accepted ++ (hash ∷ [])) - max ≡ n =
      omega (arith, length-append accepted (hash ∷ [])) in
    ap (λ l. l ++ (hash ∷ [])) newest
    ∙ sym (drop-snoc n accepted hash (omega arith))
    ∙ ap (λ k. drop k (accepted ++ (hash ∷ []))) (sym same)

accept-IsWindow :
    (max hash : ℕ) (hashes accepted : List ℕ)
    → 0 < max
    → IsWindow max hashes accepted
    → contains hash hashes ≡ false
    → IsWindow max
        ((if length hashes == max then pop_front hashes else hashes) ++ (hash ∷ []))
        (accepted ++ (hash ∷ []))
accept-IsWindow max hash hashes accepted positive w new_hash =
    elim (Bool-cases (length hashes == max)) [
      | inl full ↦ rw (full) (record {
        newest = window_full max hash hashes accepted positive w.newest (ground (arith, full));
        distinct =
            snoc-Distinct hash (pop_front hashes) (pop_front-lacks hash hashes new_hash)
              (pop_front-Distinct hashes w.distinct);
      })
      | inr room ↦ rw (room) (record {
        newest = window_open max hash hashes accepted w.newest (ground (arith, room));
        distinct = snoc-Distinct hash hashes new_hash w.distinct;
      })
    ]

-- The newest accepted shares, as many as the cache may hold.
abbrev pub newest_of : ℕ → List ℕ → List ℕ
newest_of max accepted = drop (length accepted - max) accepted

-- The accepted shares without a cache: a share is refused exactly when it is one of the newest.
unfoldable pub accept_all : (max : ℕ) → (hs accepted : List ℕ) → List ℕ
accept_all max [] accepted = accepted
accept_all max (hash ∷ hs) accepted =
    accept_all max hs
      (if contains hash (newest_of max accepted) then accepted else accepted ++ (hash ∷ []))

insert_shares-keeps :
    (max : ℕ) (hs hashes accepted : List ℕ)
    → 0 < max
    → IsWindow max hashes accepted
    → let s = insert_shares max hs (hashes, accepted) in
      IsWindow max s.0 s.1 × (s.1 ≡ accept_all max hs accepted)
unfolding insert_shares insert_if_new accept_all
insert_shares-keeps max [] hashes accepted positive w = (w, refl)
insert_shares-keeps max (h ∷ hs) hashes accepted positive w =
    elim (Bool-cases (contains h hashes)) [
      | inl seen ↦
          let old : contains h (newest_of max accepted) ≡ true =
            subst (λ l. contains h l ≡ true) w.newest seen in
          rw (seen, insert_shares, old, accept_all)
            (insert_shares-keeps max hs hashes accepted positive w)
      | inr new_hash ↦
          let fresh : contains h (newest_of max accepted) ≡ false =
            subst (λ l. contains h l ≡ false) w.newest new_hash in
          rw (new_hash, insert_shares, fresh, accept_all)
            (insert_shares-keeps max hs
              ((if length hashes == max then pop_front hashes else hashes) ++ (h ∷ []))
              (accepted ++ (h ∷ [])) positive
              (accept-IsWindow max h hashes accepted positive w new_hash))
    ]

start : (n : ℕ) → [] ≡ drop n []
unfolding drop
start zero = refl
start (suc n) = refl

-- From an empty cache, which holds at least one share, the accepted ones among any shares are those
-- that `accept_all` accepts: a share is refused exactly when it is one of the newest `max` accepted
-- before it. The cache has the newest `max` accepted shares, at most `max`, and no share twice.
pub insert_shares-IsWindow :
    (max : ℕ) (hs : List ℕ)
    → 0 < max
    → let (hashes, accepted) = insert_shares max hs ([], []) in
      (accepted ≡ accept_all max hs []) × IsWindow max hashes accepted × (length hashes ≤ max)
unfolding drop
insert_shares-IsWindow max hs positive =
    let s = insert_shares max hs ([], []) in
    let (w, same) : IsWindow max s.0 s.1 × (s.1 ≡ accept_all max hs []) =
      insert_shares-keeps max hs [] [] positive
        (record { newest = start (0 - max); distinct = tt }) in
    (same, w, omega (arith, ap length w.newest, length-drop (length s.1 - max) s.1))
