-- ===== src/Translator/Vardiff/Parking.antt =====
-- Parked targets against the upstream targets of their miners.
use sv2_apps_fork.Prelude.{
  ℕ, ◌≡◌, ◌≢◌, refl, sym, ap, ◌∙◌, inl, inr, Bool, true, false, Option, none, some, List, [], ◌∷◌,
  ◌++◌, if◌then◌else◌, ◌==◌, nat_eq, arith, Bool-cases, Option-cases,
}
use sv2_apps_fork.Prelude.Assoc.{
  Assoc, lookup, adjust, adjusted, lookup-adjust, lookup_of_insert, lookup-without,
}
use sv2_apps_fork.Translator.Vardiff.{
  Rates, TryVardiff, changed, unchanged, failed, DownstreamData, Sv1Server, Round, is_safe,
  or_given, set_pending, set_stable, sort_update, apply_target, apply_vardiff, visit_miner, visit,
  visit_all,
}

abbrev pub Every {ℓ} : {A : Type ℓ} → (A → Type 0) → List A → Type 0
Every P [] = Unit
Every P (x ∷ xs) = P x × Every P xs

Every-append :
    {A : Type 0} (P : A → Type 0) (xs : List A) (x : A)
    → Every P xs
    → P x
    → Every P (xs ++ (x ∷ []))
Every-append P [] x a p = (p, tt)
Every-append P (y ∷ ys) x (q, a) p = (q, Every-append P ys x a p)

module _ {H : Type 0} where
  abbrev pub safe_of : ℕ → Option (DownstreamData H) → Option Bool
  safe_of target none = none
  safe_of target (some m) = some (is_safe m.upstream_target target)

  -- Whether a registered miner may be sent a target; none for a miner that is not registered.
  unfoldable pub safe_in : ℕ → ℕ → Assoc ℕ (DownstreamData H) → Option Bool
  safe_in id target downstreams = safe_of target (lookup id downstreams)

  pub record IsParked (downstreams : Assoc ℕ (DownstreamData H)) (pending : Assoc ℕ ℕ)
      : Type 0 where
    pub harder :
        (id target : ℕ)
        → lookup id pending ≡ some target
        → safe_in id target downstreams ≢ some true

  safe_in-adjust :
      (k id target : ℕ) (f : DownstreamData H → DownstreamData H)
      → ((m : DownstreamData H) → (f m).upstream_target ≡ m.upstream_target)
      → (ds : Assoc ℕ (DownstreamData H)) → safe_in id target (adjust k f ds) ≡ safe_in id target ds
  unfolding safe_in
  safe_in-adjust k id target f same ds = go (lookup id ds) (k == id) (lookup-adjust k id f ds)
    where
      go :
          (o : Option (DownstreamData H)) (b : Bool)
          → lookup id (adjust k f ds) ≡ (if b then adjusted f o else o)
          → safe_of target (lookup id (adjust k f ds)) ≡ safe_of target o
      go none true e = rw (e) refl
      go none false e = rw (e) refl
      go (some m) true e = rw (e, same m) refl
      go (some m) false e = rw (e) refl

module _ {H V : Type 0} where
  -- A round over the vardiff machines of a server.
  pub record IsVisited (s : Sv1Server H V) (r : Round H V) : Type 0 where
    pub parked : IsParked r.server.downstreams r.server.pending_target_updates
    pub same :
        (id target : ℕ) → safe_in id target r.server.downstreams ≡ safe_in id target s.downstreams
    pub events : r.server.events ≡ s.events
    pub immediate : Every (λ x. safe_in x.0 x.1 s.downstreams ≢ some false) r.immediate_updates

  sort_update-IsVisited :
      (s : Sv1Server H V) (id : ℕ) (upstream_target : Option ℕ) (new_target : ℕ) (r : Round H V)
      → safe_in id new_target s.downstreams ≡ some (is_safe upstream_target new_target)
      → IsVisited s r
      → IsVisited s (sort_update id upstream_target new_target r)
  unfolding sort_update
  sort_update-IsVisited s id up new r e i =
      let pending = r.server.pending_target_updates in
      elim (Bool-cases (is_safe up new)) [
        | inl safe ↦ rw (safe) (record {
          parked = record {
            harder = λ k t found.
                i.parked.harder k t (ground (arith, lookup-without id k pending, found));
          };
          same = i.same;
          events = i.events;
          immediate =
              Every-append _ r.immediate_updates (id, new) i.immediate
                (λ unsafe. ground (arith, e, safe, unsafe));
        })
        | inr harder ↦ rw (harder) (record {
          parked = record {
            harder = λ k t found safe. elim (lookup_of_insert id k new t pending found) [
              | inl (named, it) ↦ ground (arith, i.same k t, named, it, e, harder, safe)
              | inr old ↦ i.parked.harder k t old safe
            ];
          };
          same = i.same;
          events = i.events;
          immediate = i.immediate;
        })
      ]

  adjusted-IsVisited :
      (s : Sv1Server H V) (k : ℕ) (f : DownstreamData H → DownstreamData H) (r : Round H V)
      → ((m : DownstreamData H) → (f m).upstream_target ≡ m.upstream_target)
      → IsVisited s r
      → let server' = record r.server { downstreams = adjust k f r.server.downstreams } in
        IsVisited s (record r { server = server' })
  adjusted-IsVisited s k f r keeps i = record {
    parked = record {
      harder = λ id t found safe.
          i.parked.harder id t found
            (sym (safe_in-adjust k id t f keeps r.server.downstreams) ∙ safe);
    };
    same = λ id t. safe_in-adjust k id t f keeps r.server.downstreams ∙ i.same id t;
    events = i.events;
    immediate = i.immediate;
  }

  module _ (rates : Rates H V) where
    apply_target-IsVisited :
        (s : Sv1Server H V) (id channel_id : ℕ) (upstream_target : Option ℕ) (h : H)
        (new_target : ℕ) (r : Round H V)
        → safe_in id new_target s.downstreams ≡ some (is_safe upstream_target new_target)
        → IsVisited s r
        → IsVisited s (apply_target rates id channel_id upstream_target h new_target r)
    unfolding apply_target
    apply_target-IsVisited s id channel_id up h new r e i =
        let i' =
          adjusted-IsVisited s id (set_pending (or_given (rates.sv1_advertised_target new) new) h) r
            (λ m. refl) i in
        sort_update-IsVisited s id up new _ e (record {
          parked = i'.parked;
          same = i'.same;
          events = i'.events;
          immediate = i'.immediate;
        })

    apply_vardiff-IsVisited :
        (s : Sv1Server H V) (id channel_id : ℕ) (upstream_target : Option ℕ)
        (outcome : TryVardiff H) (r : Round H V)
        → ((t : ℕ) → safe_in id t s.downstreams ≡ some (is_safe upstream_target t))
        → IsVisited s r
        → IsVisited s (apply_vardiff rates id channel_id upstream_target outcome r)
    unfolding apply_vardiff
    apply_vardiff-IsVisited s id channel_id up failed r e i = i
    apply_vardiff-IsVisited s id channel_id up unchanged r e i =
        adjusted-IsVisited s id set_stable r (λ m. refl) i
    apply_vardiff-IsVisited s id channel_id up (changed h) r e i =
        elim (Option-cases (rates.hash_rate_to_target h)) [
          | inl nothing ↦ rw (nothing, apply_vardiff) i
          | inr (t, it) ↦
              rw (it, apply_vardiff) (apply_target-IsVisited s id channel_id up h t r (e t) i)
        ]

    visit_miner-IsVisited :
        (s : Sv1Server H V) (id : ℕ) (machine : V) (channel_id : Option ℕ) (hashrate : Option H)
        (target : ℕ) (upstream_target : Option ℕ) (r : Round H V)
        → ((t : ℕ) → safe_in id t s.downstreams ≡ some (is_safe upstream_target t))
        → IsVisited s r
        → IsVisited s (visit_miner rates id machine channel_id hashrate target upstream_target r)
    unfolding visit_miner
    visit_miner-IsVisited s id machine channel_id none target up r e i = record {
      parked = i.parked;
      same = i.same;
      events = i.events;
      immediate = i.immediate;
    }
    visit_miner-IsVisited s id machine none (some hashrate) target up r e i = i
    visit_miner-IsVisited s id machine (some channel_id) (some hashrate) target up r e i =
        let (machine', outcome) = rates.try_vardiff machine hashrate target in
        apply_vardiff-IsVisited s id channel_id up outcome _ e
          (record { parked = i.parked; same = i.same; events = i.events; immediate = i.immediate })

    visit-IsVisited :
        (s : Sv1Server H V) (id : ℕ) (machine : V) (r : Round H V)
        → IsVisited s r
        → IsVisited s (visit rates id machine r)
    unfolding visit safe_in
    visit-IsVisited s id machine r i = elim (Option-cases (lookup id r.server.downstreams)) [
      | inl nobody ↦ rw (nobody, visit) i
      | inr (m, it) ↦
          rw (it, visit)
            (visit_miner-IsVisited s id machine m.channel_id m.hashrate m.target m.upstream_target r
              (λ t. sym (i.same id t) ∙ ap (safe_of t) it) i)
    ]

    pub visit_all-IsVisited :
        (s : Sv1Server H V) (machines : Assoc ℕ V) (r : Round H V)
        → IsVisited s r
        → IsVisited s (visit_all rates machines r)
    unfolding visit_all
    visit_all-IsVisited s [] r i = i
    visit_all-IsVisited s ((id, machine) ∷ machines) r i =
        let next = visit rates id machine r in
        let i' = visit-IsVisited s id machine r i in
        elim (Bool-cases next.panicked) [
          | inl panics ↦ rw (panics) i'
          | inr goes ↦ rw (goes) (visit_all-IsVisited s machines next i')
        ]
