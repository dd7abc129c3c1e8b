-- ===== src/Translator/Vardiff/Aggregate.antt =====
-- `aggregated_downstream_snapshot`: the target that stands for all miners of an aggregate.
use sv2_apps_fork.Prelude.{
  ℕ, ◌≤◌, ◌≡◌, refl, ap, subst, ◌∙◌, ◌⊎◌, inl, inr, Bool, true, false, Option, none, some, List, [],
  ◌∷◌, nat_eq, leb, arith, Bool-cases, Option-cases,
}
use mathlib.Core.List.{Memᴰ}
use sv2_apps_fork.Prelude.Assoc.{Assoc}
use sv2_apps_fork.Translator.Vardiff.{Rates, DownstreamData}
use sv2_apps_fork.Translator.Vardiff.Upstream.{
  active, Totals, lower, snapshot_of, snapshot_result, current_rate, count, count_all,
  aggregated_downstream_snapshot,
}

abbrev pub IsAtMost : Option ℕ → ℕ → Type 0
IsAtMost none target = ⊥
IsAtMost (some lowest) target = lowest ≤ target

lower-IsAtMost : (o : Option ℕ) (t : ℕ) → lower o t ≤ t
lower-IsAtMost none t = omega arith
lower-IsAtMost (some m) t = ground arith

lower_keeps : (o : Option ℕ) (t u : ℕ) → IsAtMost o u → lower o t ≤ u
lower_keeps none t u a = absurd (a)
lower_keeps (some m) t u a = ground arith

lower_origin : (o : Option ℕ) (t : ℕ) → (lower o t ≡ t) ⊎ (o ≡ some (lower o t))
lower_origin none t = inl refl
lower_origin (some m) t = elim (Bool-cases (leb m t)) [
  | inl under ↦ inr (rw (under) refl)
  | inr over ↦ inl (rw (over) refl)
]

module _ {H V : Type 0} (rates : Rates H V) where
  -- An open channel's hashrate has a target.
  pub record HasTarget (m : DownstreamData H) (target : ℕ) : Type 0 where
    pub channel_id : ℕ
    pub opened : m.channel_id ≡ some channel_id
    pub rate : H
    pub rated : current_rate m.pending_hashrate m.hashrate ≡ some rate
    pub computed : rates.hash_rate_to_target rate ≡ some target

  -- What a miner does to the lowest target.
  pub record IsCounted (m : DownstreamData H) (before after : Option ℕ) : Type 0 where
    pub keeps : (u : ℕ) → IsAtMost before u → IsAtMost after u
    pub includes : (t : ℕ) → HasTarget m t → IsAtMost after t
    pub origin : (t : ℕ) → after ≡ some t → (before ≡ some t) ⊎ HasTarget m t

  count-IsCounted :
      (m : DownstreamData H) (channel_id : Option ℕ) (rate : Option H) (t t' : Totals H)
      → m.channel_id ≡ channel_id
      → current_rate m.pending_hashrate m.hashrate ≡ rate
      → count rates channel_id rate t ≡ some t'
      → IsCounted m t.min_target t'.min_target
  unfolding count
  count-IsCounted m none rate t t' ch r e =
      let same : t.min_target ≡ t'.min_target = cc (e) in
      record {
        keeps = λ u a. subst (λ o. IsAtMost o u) same a;
        includes = λ u h. absurd (cc (ch, h.opened));
        origin = λ u f. inl (same ∙ f);
      }
  count-IsCounted m (some c) none t t' ch r e = absurd (cc)
  count-IsCounted m (some c) (some h) t t' ch r e =
      elim (Option-cases (rates.hash_rate_to_target h)) [
        | inl nothing ↦
            let e' : some (record t { has_open_downstream = true }) ≡ some t' =
              rw (nothing, count) at e in
            let same : t.min_target ≡ t'.min_target = ground (arith, e') in
            record {
              keeps = λ u a. subst (λ o. IsAtMost o u) same a;
              includes = λ u g. absurd (cc (nothing, r, g.rated, g.computed));
              origin = λ u f. inl (same ∙ f);
            }
        | inr (u, it) ↦
            let e' : some (record {
              total_hashrate = rates.add t.total_hashrate h;
              min_target = some (lower t.min_target u);
              has_open_downstream = true;
            })
                ≡ some t' =
              rw (it, count) at e in
            let now : some (lower t.min_target u) ≡ t'.min_target = ground (arith, e') in
            record {
              keeps = λ v a. subst (λ o. IsAtMost o v) now (lower_keeps t.min_target u v a);
              includes = λ v g.
                  let same : v ≡ u = cc (it, r, g.rated, g.computed) in
                  subst (λ o. IsAtMost o v) now (rw (same) (lower-IsAtMost t.min_target u));
              origin = λ v f. elim (lower_origin t.min_target u) [
                | inl its ↦
                    let same : v ≡ u = cc (now, f, its) in
                    inr (record {
                      channel_id = c;
                      opened = ch;
                      rate = h;
                      rated = r;
                      computed = rw (same) it;
                    })
                | inr old ↦ inl (old ∙ (now ∙ f))
              ];
            }
      ]

  miner_cases :
      (x y : ℕ × DownstreamData H) (ys : List (ℕ × DownstreamData H))
      → Memᴰ {A = ℕ × DownstreamData H} x (y ∷ ys)
      → (x ≡ y) ⊎ Memᴰ x ys
  miner_cases x y ys (Memᴰ.head e) = inl e
  miner_cases x y ys (Memᴰ.tail m) = inr m

  count_all-lowest :
      (ms : Assoc ℕ (DownstreamData H)) (t t' : Totals H)
      → count_all rates ms t ≡ some t'
      → ((u : ℕ) → IsAtMost t.min_target u → IsAtMost t'.min_target u)
        × ((id u : ℕ) (m : DownstreamData H)
            → Memᴰ {A = ℕ × DownstreamData H} (id, m) ms
            → HasTarget m u
            → IsAtMost t'.min_target u)
        × ((u : ℕ)
            → t'.min_target ≡ some u
            → (t.min_target ≡ some u)
              ⊎ ((id : ℕ) × (m : DownstreamData H) × Memᴰ {A = ℕ × DownstreamData H} (id, m) ms
                  × HasTarget m u))
  unfolding count_all
  count_all-lowest [] t t' e =
      let same : t.min_target ≡ t'.min_target = cc (e) in
      (
        λ u a. subst (λ o. IsAtMost o u) same a,
        λ id u m k. absurd (none_in k),
        λ u f. inl (same ∙ f),
      )
    where
      none_in : {x : ℕ × DownstreamData H} → Memᴰ {A = ℕ × DownstreamData H} x [] → ⊥
      none_in k = elim k [ ]
  count_all-lowest ((id, m) ∷ ms) t t' e =
      let rate = current_rate m.pending_hashrate m.hashrate in
      elim (Option-cases (count rates m.channel_id rate t)) [
        | inl panics ↦ absurd (cc (rw (panics, count_all) at e))
        | inr (s, it) ↦
            let e' : count_all rates ms s ≡ some t' = rw (it, count_all) at e in
            let c = count-IsCounted m m.channel_id rate t s refl refl it in
            let (keeps, includes, origin) = count_all-lowest ms s t' e' in
            (
              λ u a. keeps u (c.keeps u a),
              λ i u m' k g. elim (miner_cases (i, m') (id, m) ms k) [
                | inl same ↦
                    keeps u (c.includes u (subst (λ n. HasTarget n u) (ap (λ x. x.1) same) g))
                | inr later ↦ includes i u m' later g
              ],
              λ u f. elim (origin u f) [
                | inl old ↦ elim (c.origin u old) [
                  | inl first ↦ inl first
                  | inr g ↦ inr (id, m, Memᴰ.head refl, g)
                ]
                | inr (i, m', k, g) ↦ inr (i, m', Memᴰ.tail k, g)
              ],
            )
      ]

  active_lowest :
      (b : Bool) (o : Option ℕ) (x total : H) (lowest : ℕ)
      → let t : Totals H = record { total_hashrate = x; min_target = o; has_open_downstream = b } in
        some (snapshot_of t) ≡ some (active total lowest) → o ≡ some lowest
  active_lowest false o x total lowest e = absurd (cc)
  active_lowest true none x total lowest e = absurd (cc)
  active_lowest true (some m) x total lowest e = cc (e)

  active_of :
      (o : Option (Totals H)) (total : H) (lowest : ℕ)
      → snapshot_result o ≡ some (active total lowest)
      → (t : Totals H) × (o ≡ some t) × (t.min_target ≡ some lowest)
  active_of none total lowest e = absurd (cc)
  active_of (some t) total lowest e =
      (t, refl, active_lowest t.has_open_downstream t.min_target t.total_hashrate total lowest e)

  -- When an aggregate is active, its target is at most that of every miner with an open channel and a
  -- hashrate that has a target, and is the target of one of them.
  pub aggregate-lowest :
      (downstreams : Assoc ℕ (DownstreamData H)) (total_hashrate : H) (min_target : ℕ)
      → aggregated_downstream_snapshot rates downstreams ≡ some (active total_hashrate min_target)
      → ((id target : ℕ) (m : DownstreamData H)
          → Memᴰ {A = ℕ × DownstreamData H} (id, m) downstreams
          → HasTarget m target
          → min_target ≤ target)
        × ((id : ℕ) × (m : DownstreamData H) × Memᴰ {A = ℕ × DownstreamData H} (id, m) downstreams
            × HasTarget m min_target)
  unfolding aggregated_downstream_snapshot
  aggregate-lowest ds total lowest e =
      let first : Totals H = record {
        total_hashrate = rates.zero_rate;
        min_target = none;
        has_open_downstream = false;
      } in
      let (t, counted, is) = active_of (count_all rates ds first) total lowest e in
      let (keeps, includes, origin) = count_all-lowest ds first t counted in
      (
        λ id u m k g. subst (λ o. IsAtMost o u) is (includes id u m k g),
        elim (origin lowest is) [ inl none_first ↦ absurd (cc (none_first)) | inr found ↦ found ],
      )
