-- ===== src/Pool/Refinement/Errors.antt =====
-- The errors of the loops over templates and previous hashes: each asks to shut down.
use sv2_apps_fork.Prelude.{
  ℕ, ◌≡◌, refl, Bool, true, false, Option, none, some, List, [], ◌∷◌, if◌then◌else◌,
}
use sv2_apps_fork.Prelude.Assoc.{Assoc}
use sv2_apps_fork.JdServer.Messages.{TxOut}
use sv2_apps_fork.Pool.Messages.{
  NewTemplate, SetNewPrevHash, RouteMessageTo, shutdown, ok, err, panicked,
}
use sv2_apps_fork.Pool.Library.{Job, Library}
use sv2_apps_fork.Pool.Manager.{Downstream}
use sv2_apps_fork.Pool.Templates.{
  Messages, also, followed, silent, try_each, each_step, template_to_downstream, template_to_rest,
  template_to_channels, template_to_group, template_to_standard, template_to_extended, sent_job,
  standard_job, group_job, group_message,
}
use sv2_apps_fork.Pool.PrevHash.{
  hash_to_downstream, hash_to_channels, hash_after_group, hash_to_group, group_hash, group_active,
  hash_to_standard, active_hash, hash_to_extended,
}

abbrev pub Shuts : Messages → Type 0
Shuts (err e) = e.action ≡ shutdown
Shuts _ = Unit

also-Shuts : (sent : List RouteMessageTo) (r : Messages) → Shuts r → Shuts (also sent r)
also-Shuts sent (ok messages) s = tt
also-Shuts sent (err e) s = s
also-Shuts sent panicked s = tt

module _ {ℓ} {C : Type ℓ} where
  if-Shuts : (b : Bool) (x y : C × Messages) → Shuts x.1 → Shuts y.1 → Shuts (if b then x else y).1
  if-Shuts true x y p q = p
  if-Shuts false x y p q = q

  followed-Shuts :
      (f : C → C × Messages) (x : C × Option ℕ) → ((c : C) → Shuts (f c).1) → Shuts (followed f x).1
  followed-Shuts f (c, none) s = s c
  followed-Shuts f (c, some e) s = refl

  each_step-Shuts :
      (k : ℕ) (c : C) (r : Messages) (m done : Assoc ℕ C) (last : Messages)
      → Shuts r
      → Shuts last
      → Shuts (each_step k (c, r) m (done, last)).1
  each_step-Shuts k c (ok messages) m done last p q = also-Shuts messages last q
  each_step-Shuts k c (err e) m done last p q = p
  each_step-Shuts k c panicked m done last p q = tt

  pub try_each-Shuts :
      (f : ℕ → C → C × Messages)
      → ((k : ℕ) (c : C) → Shuts (f k c).1)
      → (m : Assoc ℕ C) → Shuts (try_each f m).1
  unfolding try_each
  try_each-Shuts f s [] = tt
  try_each-Shuts f s ((k, c) ∷ m) =
      each_step-Shuts k (f k c).0 (f k c).1 m (try_each f m).0 (try_each f m).1 (s k c)
        (try_each-Shuts f s m)

module _ (lib : Library) (msg : NewTemplate) where
  sent_job-Shuts :
      (client : ℕ) (c : lib.StandardChannel) (o : Option Job)
      → Shuts (sent_job lib msg client c o).1
  sent_job-Shuts client c none = tt
  sent_job-Shuts client c (some job) = tt

  standard-Shuts :
      (client : ℕ) (requires : Bool) (outputs : List TxOut) (job : Job) (k : ℕ)
      (c : lib.StandardChannel)
      → Shuts (template_to_standard lib msg client requires outputs job k c).1
  unfolding template_to_standard
  standard-Shuts client requires outputs job k c =
      let own : lib.StandardChannel → lib.StandardChannel × Messages =
        λ x. sent_job lib msg client x (standard_job lib msg x) in
      if-Shuts requires (followed own (lib.standard.on_new_template c msg outputs))
        (followed silent (lib.standard.on_group_channel_job c job))
        (followed-Shuts own (lib.standard.on_new_template c msg outputs)
          (λ x. sent_job-Shuts client x (standard_job lib msg x)))
        (followed-Shuts silent (lib.standard.on_group_channel_job c job) (λ x. tt {0}))

  extended-Shuts :
      (job : Job) (k : ℕ) (c : lib.ExtendedChannel) → Shuts (template_to_extended lib msg job k c).1
  unfolding template_to_extended
  extended-Shuts job k c =
      followed-Shuts silent (lib.extended.on_group_channel_job c job) (λ x. tt {0})

  rest-Shuts :
      (job : Job) (sent : List RouteMessageTo) (d : Downstream lib)
      (x : Assoc ℕ lib.StandardChannel × Messages)
      → Shuts x.1
      → Shuts (template_to_rest lib msg job sent d x).1
  rest-Shuts job sent d (s, ok messages) p =
      also-Shuts sent
        (also messages (try_each (template_to_extended lib msg job) d.extended_channels).1)
        (also-Shuts messages (try_each (template_to_extended lib msg job) d.extended_channels).1 (
          try_each-Shuts (template_to_extended lib msg job) (extended-Shuts job)
            d.extended_channels))
  rest-Shuts job sent d (s, err e) p = p
  rest-Shuts job sent d (s, panicked) p = tt

  channels-Shuts :
      (client : ℕ) (outputs : List TxOut) (o : Option Job) (d : Downstream lib)
      → Shuts (template_to_channels lib msg client outputs o d).1
  channels-Shuts client outputs none d = refl
  channels-Shuts client outputs (some job) d =
      rest-Shuts job (group_message lib msg client d.requires_standard_jobs d.group_channel job) d
        (try_each (template_to_standard lib msg client d.requires_standard_jobs outputs job)
          d.standard_channels)
        (try_each-Shuts _ (standard-Shuts client d.requires_standard_jobs outputs job)
          d.standard_channels)

  group-Shuts :
      (client : ℕ) (outputs : List TxOut) (x : lib.GroupChannel × Option ℕ) (d : Downstream lib)
      → Shuts (template_to_group lib msg client outputs x d).1
  group-Shuts client outputs (g, some e) d = refl
  group-Shuts client outputs (g, none) d =
      channels-Shuts client outputs (group_job lib msg g) (record d { group_channel = g })

  pub template-Shuts :
      (pool_outputs : List TxOut) (client : ℕ) (d : Downstream lib)
      → Shuts (template_to_downstream lib msg pool_outputs client d).1
  unfolding template_to_downstream
  template-Shuts pool_outputs client d =
      if-Shuts d.requires_custom_work (d, ok []) _ tt (group-Shuts client _ _ d)

module _ (lib : Library) (msg : SetNewPrevHash) where
  active-Shuts :
      (client k : ℕ) (c : lib.StandardChannel) (o : Option Job)
      → Shuts (active_hash lib msg client k c o).1
  active-Shuts client k c none = refl
  active-Shuts client k c (some job) = tt

  hash_standard-Shuts :
      (client : ℕ) (requires : Bool) (k : ℕ) (c : lib.StandardChannel)
      → Shuts (hash_to_standard lib msg client requires k c).1
  unfolding hash_to_standard
  hash_standard-Shuts client requires k c =
      let own : lib.StandardChannel → lib.StandardChannel × Messages = λ x.
        if requires
        then active_hash lib msg client k x (lib.standard.get_active_job x)
        else silent x in
      followed-Shuts own (lib.standard.on_set_new_prev_hash c msg) (λ x.
        if-Shuts requires (active_hash lib msg client k x (lib.standard.get_active_job x))
          (silent x) (active-Shuts client k x (lib.standard.get_active_job x)) (tt {0}))

  hash_extended-Shuts : (k : ℕ) (c : lib.ExtendedChannel) → Shuts (hash_to_extended lib msg k c).1
  unfolding hash_to_extended
  hash_extended-Shuts k c =
      followed-Shuts silent (lib.extended.on_set_new_prev_hash c msg) (λ x. tt {0})

  hash_channels-Shuts :
      (sent : List RouteMessageTo) (client : ℕ) (x : Assoc ℕ lib.ExtendedChannel × Messages)
      (d : Downstream lib)
      → Shuts x.1
      → Shuts (hash_to_channels lib msg sent client x d).1
  hash_channels-Shuts sent client (e, ok messages) d p =
      also-Shuts sent
        (try_each (hash_to_standard lib msg client d.requires_standard_jobs) d.standard_channels).1
        (try_each-Shuts _ (hash_standard-Shuts client d.requires_standard_jobs) d.standard_channels)
  hash_channels-Shuts sent client (e, err x) d p = p
  hash_channels-Shuts sent client (e, panicked) d p = tt

  hash_group-Shuts :
      (client : ℕ) (r : Messages) (d : Downstream lib)
      → Shuts r
      → Shuts (hash_after_group lib msg client r d).1
  hash_group-Shuts client (ok sent) d p =
      hash_channels-Shuts sent client (try_each (hash_to_extended lib msg) d.extended_channels) d
        (try_each-Shuts _ hash_extended-Shuts d.extended_channels)
  hash_group-Shuts client (err e) d p = p
  hash_group-Shuts client panicked d p = tt

  group_active-Shuts :
      (client : ℕ) (g : lib.GroupChannel) (o : Option Job) → Shuts (group_active lib msg client g o)
  group_active-Shuts client g none = tt
  group_active-Shuts client g (some job) = tt

  choice-Shuts : (b : Bool) (x y : Messages) → Shuts x → Shuts y → Shuts (if b then x else y)
  choice-Shuts true x y p q = p
  choice-Shuts false x y p q = q

  hash_set-Shuts :
      (client : ℕ) (x : lib.GroupChannel × Option ℕ) (d : Downstream lib)
      → Shuts (hash_to_group lib msg client x d).1
  hash_set-Shuts client (g, some e) d = refl
  hash_set-Shuts client (g, none) d =
      hash_group-Shuts client (group_hash lib msg client d.requires_standard_jobs g)
        (record d { group_channel = g })
        (choice-Shuts _ _ (ok []) (group_active-Shuts client g (lib.group.get_active_job g)) tt)

  pub hash-Shuts : (client : ℕ) (d : Downstream lib) → Shuts (hash_to_downstream lib msg client d).1
  unfolding hash_to_downstream
  hash-Shuts client d = if-Shuts d.requires_custom_work (d, ok []) _ tt (hash_set-Shuts client _ d)
