-- ===== src/Translator/Vardiff/Retargeting.antt =====
-- New upstream targets in the miners' data, and what is taken from the parked targets.
use sv2_apps_fork.Prelude.{
  ℕ, ◌≡◌, ◌≢◌, refl, sym, ap, ◌∙◌, ◌⊎◌, inl, inr, Bool, true, false, not, ◌&&◌, Option, none, some,
  [], ◌∷◌, ◌==◌, nat_eq, leb, arith, Bool-cases,
}
use sv2_apps_fork.Prelude.Assoc.{
  Assoc, lookup, adjust, adjusted, map_values, lookup-adjust, lookup-map_values, lookup-retain,
}
use mathlib.Core.List.{Memᴰ}
use sv2_apps_fork.Translator.Vardiff.{DownstreamData, set_upstream_target}
use sv2_apps_fork.Translator.Vardiff.Delivery.{
  addressed, get_pending_difficulty_updates, keep_pending,
}
use sv2_apps_fork.Translator.Vardiff.Parking.{Every, safe_of, safe_in}

-- What is taken from the parked targets is addressed, and easy enough.
pub get_pending-Every :
    (upstream_target : ℕ) (only : Option ℕ) (pending : Assoc ℕ ℕ)
    → Every
        (λ x. (addressed only x.0 && leb upstream_target x.1) ≡ true)
        (get_pending_difficulty_updates upstream_target only pending)
unfolding get_pending_difficulty_updates
get_pending-Every up only [] = tt
get_pending-Every up only ((id, t) ∷ ps) = elim (Bool-cases (addressed only id && leb up t)) [
  | inl goes ↦ rw (goes) (goes, get_pending-Every up only ps)
  | inr stays ↦ rw (stays) (get_pending-Every up only ps)
]

pub get_pending-taken :
    (upstream_target : ℕ) (only : Option ℕ) (id target : ℕ) (pending : Assoc ℕ ℕ)
    → lookup id pending ≡ some target
    → (addressed only id && leb upstream_target target) ≡ true
    → Memᴰ (id, target) (get_pending_difficulty_updates upstream_target only pending)
unfolding get_pending_difficulty_updates lookup
get_pending-taken up only id target [] e goes = absurd (cc)
get_pending-taken up only id target ((i, t) ∷ ps) e goes = elim (Bool-cases (i == id)) [
  | inl same ↦
      let named : i ≡ id = (nat_eq.agrees_iff i id).0 same in
      let it : t ≡ target = ground (arith, same, e) in rw (named, it, goes) (Memᴰ.head refl)
  | inr other ↦
      let rest = get_pending-taken up only id target ps (ground (arith, other, e)) goes in
      elim (Bool-cases (addressed only i && leb up t)) [
        | inl also ↦ rw (also) (Memᴰ.tail rest)
        | inr stays ↦ rw (stays) rest
      ]
]

-- A parked target is kept, or is among those that are taken.
pub kept_or_taken :
    (upstream_target : ℕ) (only : Option ℕ) (id target : ℕ) (pending : Assoc ℕ ℕ)
    → lookup id pending ≡ some target
    → (lookup id (keep_pending upstream_target only pending) ≡ some target)
      ⊎ Memᴰ (id, target) (get_pending_difficulty_updates upstream_target only pending)
unfolding keep_pending
kept_or_taken up only id target pending found =
    elim (Bool-cases (addressed only id && leb up target)) [
      | inl goes ↦ inr (get_pending-taken up only id target pending found goes)
      | inr stays ↦ inl (
          lookup-retain (λ i t. not (addressed only i && leb up t)) id pending
          ∙ rw (found, stays) refl)
    ]

pub agrees_sym : (i k : ℕ) (b : Bool) → (i == k) ≡ b → (k == i) ≡ b
agrees_sym i k b e = ground (arith, nat_eq.agrees_iff i k, nat_eq.agrees_iff k i)

pub both : (a b : Bool) → (a && b) ≡ true → (a ≡ true) × (b ≡ true)
both true b e = (refl, e)
both false b e = absurd (cc)

module _ {H : Type 0} where
  -- The miners whose upstream target is set, and the others.
  pub record IsRetargeted (only : Option ℕ) (upstream_target : ℕ)
      (before after : Assoc ℕ (DownstreamData H)) : Type 0 where
    pub set :
        (id target : ℕ)
        → addressed only id ≡ true
        → safe_in id target after ≢ some (not (leb upstream_target target))
    pub other :
        (id target : ℕ)
        → addressed only id ≡ false
        → safe_in id target after ≡ safe_in id target before

  pub safe_of_set :
      (up t : ℕ) (o : Option (DownstreamData H))
      → safe_of t (adjusted (set_upstream_target up) o) ≢ some (not (leb up t))
  safe_of_set up t none e = absurd (cc)
  safe_of_set up t (some m) e = elim (Bool-cases (leb up t)) [
    | inl easy ↦ ground (arith, easy, e)
    | inr hard ↦ ground (arith, hard, e)
  ]

  pub map_values-IsRetargeted :
      (up : ℕ) (ds : Assoc ℕ (DownstreamData H))
      → IsRetargeted none up ds (map_values (set_upstream_target up) ds)
  unfolding safe_in
  map_values-IsRetargeted up ds = record {
    set = λ id t a e.
        safe_of_set up t (lookup id ds)
          (ap (safe_of t) (sym (lookup-map_values id (set_upstream_target up) ds)) ∙ e);
    other = λ id t a. absurd (cc);
  }

  pub adjust-IsRetargeted :
      (k up : ℕ) (ds : Assoc ℕ (DownstreamData H))
      → IsRetargeted (some k) up ds (adjust k (set_upstream_target up) ds)
  unfolding safe_in
  adjust-IsRetargeted k up ds = record {
    set = λ id t a e.
        let found : lookup id (adjust k (set_upstream_target up) ds)
            ≡ adjusted (set_upstream_target up) (lookup id ds) =
          lookup-adjust k id (set_upstream_target up) ds ∙ rw (agrees_sym id k true a) refl in
        safe_of_set up t (lookup id ds) (ap (safe_of t) (sym found) ∙ e);
    other = λ id t a.
        ap (safe_of t)
          (lookup-adjust k id (set_upstream_target up) ds ∙ rw (agrees_sym id k false a) refl);
  }
