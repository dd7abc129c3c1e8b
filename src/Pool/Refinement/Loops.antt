-- ===== src/Pool/Refinement/Loops.antt =====
-- New templates and previous hashes go through all channels and open or close none.
use sv2_apps_fork.Prelude.{
  ℕ, ◌≡◌, refl, ap, ◌∙◌, sym, Bool, true, false, ◌||◌, Option, none, some, List, [], ◌∷◌, ◌==◌,
  nat_eq, if◌then◌else◌, is_some, Bool-cases, inl, inr,
}
use sv2_apps_fork.Prelude.Assoc.{Assoc, lookup}
use sv2_apps_fork.JdServer.Messages.{TxOut}
use sv2_apps_fork.Pool.Messages.{NewTemplate, SetNewPrevHash, RouteMessageTo, ok, err, panicked}
use sv2_apps_fork.Pool.Library.{Job, Library}
use sv2_apps_fork.Pool.Manager.{Downstream}
use sv2_apps_fork.Pool.Templates.{
  Messages, try_each, each_step, template_to_downstream, template_to_rest, template_to_channels,
  template_to_group, template_to_standard, template_to_extended, group_job, group_message,
}
use sv2_apps_fork.Pool.PrevHash.{
  hash_to_downstream, hash_to_channels, hash_after_group, hash_to_group, group_hash,
  hash_to_standard, hash_to_extended,
}
use sv2_apps_fork.Pool.Views.{open_in, open_of, open_at}

module _ {ℓ} {C : Type ℓ} where
  -- What `g` sees of an entry.
  abbrev pub seen {κ} : {B : Type κ} → (C → B) → Option C → Option B
  seen g none = none
  seen g (some c) = some (g c)

  each_step-seen {κ} :
      {B : Type κ} (g : C → B) (k j : ℕ) (c c' : C) (r : Messages) (m done : Assoc ℕ C)
      (last : Messages)
      → g c' ≡ g c
      → seen g (lookup j done) ≡ seen g (lookup j m)
      → seen g (lookup j (each_step k (c', r) m (done, last)).0) ≡ seen g (lookup j ((k, c) ∷ m))
  unfolding lookup
  each_step-seen g k j c c' (ok messages) m done last e rest = elim (Bool-cases (k == j)) [
    | inl hit ↦ rw hit (ap some e)
    | inr miss ↦ rw miss rest
  ]
  each_step-seen g k j c c' (err x) m done last e rest = elim (Bool-cases (k == j)) [
    | inl hit ↦ rw hit (ap some e)
    | inr miss ↦ rw miss refl
  ]
  each_step-seen g k j c c' panicked m done last e rest = elim (Bool-cases (k == j)) [
    | inl hit ↦ rw hit (ap some e)
    | inr miss ↦ rw miss refl
  ]

  pub try_each-seen {κ} :
      {B : Type κ} (g : C → B) (f : ℕ → C → C × Messages)
      → ((k : ℕ) (c : C) → g (f k c).0 ≡ g c)
      → (m : Assoc ℕ C) (j : ℕ) → seen g (lookup j (try_each f m).0) ≡ seen g (lookup j m)
  unfolding try_each
  try_each-seen g f same [] j = refl
  try_each-seen g f same ((k, c) ∷ m) j =
      each_step-seen g k j c (f k c).0 (f k c).1 m (try_each f m).0 (try_each f m).1 (same k c)
        (try_each-seen g f same m j)

  is_some-seen {κ} : {B : Type κ} (g : C → B) (o : Option C) → is_some (seen g o) ≡ is_some o
  is_some-seen g none = refl
  is_some-seen g (some c) = refl

  pub is_some-try_each :
      (f : ℕ → C → C × Messages) (m : Assoc ℕ C) (j : ℕ)
      → is_some (lookup j (try_each f m).0) ≡ is_some (lookup j m)
  is_some-try_each f m j =
      let g : C → Bool = λ c. true in
      sym (is_some-seen g (lookup j (try_each f m).0))
      ∙ ap is_some (try_each-seen g f (λ k c. refl) m j)
      ∙ is_some-seen g (lookup j m)

abbrev flag : Option Bool → Bool
flag none = false
flag (some b) = b

module _ (lib : Library) where
  at_seen :
      (k : ℕ) (o : Option (Downstream lib)) → flag (seen (λ d. open_in lib d k) o) ≡ open_at lib o k
  at_seen k none = refl
  at_seen k (some d) = refl

  -- The loop over the downstreams, when each keeps its channels.
  pub open-try_each :
      (f : ℕ → Downstream lib → Downstream lib × Messages)
      → ((c : ℕ) (d : Downstream lib) (k : ℕ) → open_in lib (f c d).0 k ≡ open_in lib d k)
      → (m : Assoc ℕ (Downstream lib)) (c k : ℕ)
      → open_of lib (try_each f m).0 c k ≡ open_of lib m c k
  open-try_each f same m c k =
      sym (at_seen k (lookup c (try_each f m).0))
      ∙ ap flag (try_each-seen (λ d. open_in lib d k) f (λ i d. same i d k) m c)
      ∙ at_seen k (lookup c m)

  if_same :
      (d : Downstream lib) (k : ℕ) (b : Bool) (x y : Downstream lib × Messages)
      → open_in lib x.0 k ≡ open_in lib d k
      → open_in lib y.0 k ≡ open_in lib d k
      → open_in lib (if b then x else y).0 k ≡ open_in lib d k
  if_same d k true x y p q = p
  if_same d k false x y p q = q

  both_same :
      (d : Downstream lib) (k : ℕ) (s : Assoc ℕ lib.StandardChannel)
      (e : Assoc ℕ lib.ExtendedChannel)
      → is_some (lookup k s) ≡ is_some (lookup k d.standard_channels)
      → is_some (lookup k e) ≡ is_some (lookup k d.extended_channels)
      → (is_some (lookup k s) || is_some (lookup k e)) ≡ open_in lib d k
  both_same d k s e p q = rw (p, q) refl

  module _ (msg : NewTemplate) where
    rest_same :
        (job : Job) (sent : List RouteMessageTo) (d : Downstream lib) (k : ℕ)
        (x : Assoc ℕ lib.StandardChannel × Messages)
        → is_some (lookup k x.0) ≡ is_some (lookup k d.standard_channels)
        → open_in lib (template_to_rest lib msg job sent d x).0 k ≡ open_in lib d k
    rest_same job sent d k (s, ok messages) p =
        both_same d k s _ p
          (is_some-try_each (template_to_extended lib msg job) d.extended_channels k)
    rest_same job sent d k (s, err e) p = both_same d k s d.extended_channels p refl
    rest_same job sent d k (s, panicked) p = both_same d k s d.extended_channels p refl

    channels_same :
        (client : ℕ) (outputs : List TxOut) (o : Option Job) (d : Downstream lib) (k : ℕ)
        → open_in lib (template_to_channels lib msg client outputs o d).0 k ≡ open_in lib d k
    channels_same client outputs none d k = refl
    channels_same client outputs (some job) d k =
        rest_same job (group_message lib msg client d.requires_standard_jobs d.group_channel job) d
          k
          (try_each (template_to_standard lib msg client d.requires_standard_jobs outputs job)
            d.standard_channels)
          (is_some-try_each _ d.standard_channels k)

    group_same :
        (client : ℕ) (outputs : List TxOut) (x : lib.GroupChannel × Option ℕ) (d : Downstream lib)
        (k : ℕ)
        → open_in lib (template_to_group lib msg client outputs x d).0 k ≡ open_in lib d k
    group_same client outputs (g, some e) d k = refl
    group_same client outputs (g, none) d k =
        channels_same client outputs (group_job lib msg g) (record d { group_channel = g }) k

    pub template_same :
        (pool_outputs : List TxOut) (client : ℕ) (d : Downstream lib) (k : ℕ)
        → open_in lib (template_to_downstream lib msg pool_outputs client d).0 k ≡ open_in lib d k
    unfolding template_to_downstream
    template_same pool_outputs client d k =
        if_same d k d.requires_custom_work (d, ok []) _ refl (group_same client _ _ d k)

  module _ (msg : SetNewPrevHash) where
    hash_channels_same :
        (sent : List RouteMessageTo) (client : ℕ) (x : Assoc ℕ lib.ExtendedChannel × Messages)
        (d : Downstream lib) (k : ℕ)
        → is_some (lookup k x.0) ≡ is_some (lookup k d.extended_channels)
        → open_in lib (hash_to_channels lib msg sent client x d).0 k ≡ open_in lib d k
    hash_channels_same sent client (e, ok messages) d k q =
        both_same d k _ e
          (is_some-try_each (hash_to_standard lib msg client d.requires_standard_jobs)
            d.standard_channels k)
          q
    hash_channels_same sent client (e, err x) d k q = both_same d k d.standard_channels e refl q
    hash_channels_same sent client (e, panicked) d k q = both_same d k d.standard_channels e refl q

    hash_group_same :
        (client : ℕ) (r : Messages) (d : Downstream lib) (k : ℕ)
        → open_in lib (hash_after_group lib msg client r d).0 k ≡ open_in lib d k
    hash_group_same client (ok sent) d k =
        hash_channels_same sent client (try_each (hash_to_extended lib msg) d.extended_channels) d k
          (is_some-try_each (hash_to_extended lib msg) d.extended_channels k)
    hash_group_same client (err e) d k = refl
    hash_group_same client panicked d k = refl

    hash_set_same :
        (client : ℕ) (x : lib.GroupChannel × Option ℕ) (d : Downstream lib) (k : ℕ)
        → open_in lib (hash_to_group lib msg client x d).0 k ≡ open_in lib d k
    hash_set_same client (g, some e) d k = refl
    hash_set_same client (g, none) d k =
        hash_group_same client (group_hash lib msg client d.requires_standard_jobs g)
          (record d { group_channel = g }) k

    pub hash_same :
        (client : ℕ) (d : Downstream lib) (k : ℕ)
        → open_in lib (hash_to_downstream lib msg client d).0 k ≡ open_in lib d k
    unfolding hash_to_downstream
    hash_same client d k =
        if_same d k d.requires_custom_work (d, ok []) _ refl (hash_set_same client _ d k)
