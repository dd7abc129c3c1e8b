-- ===== src/Pool/Templates/Sends.antt =====
-- The messages of a loop over channels, and the job of a template.
use sv2_apps_fork.Prelude.{
  ℕ, ◌≡◌, refl, ◌∙◌, Bool, true, false, Option, none, some, List, [], ◌∷◌, ◌++◌,
}
use sv2_apps_fork.Prelude.Assoc.{Assoc}
use sv2_apps_fork.Pool.Messages.{RouteMessageTo, ok, err, panicked}
use sv2_apps_fork.Pool.Library.{Job}
use sv2_apps_fork.Pool.Templates.{Messages, also, followed, try_each, each_step}

-- Unless the loop fails, its messages have a property.
abbrev pub Sends : (List RouteMessageTo → Type 0) → Messages → Type 0
Sends P (ok messages) = P messages
Sends P _ = Unit

-- The messages are those of the entries of a map, one entry after the other.
abbrev pub Each {ℓ} :
    {C : Type ℓ} → (ℕ → C → List RouteMessageTo → Type 0) → Assoc ℕ C → List RouteMessageTo → Type 0
Each R [] messages = messages ≡ []
Each R ((k, c) ∷ m) messages =
    (first : List RouteMessageTo) × (rest : List RouteMessageTo) × (messages ≡ first ++ rest)
    × R k c first
    × Each R m rest

-- The job of a template that is for later is the future one under its identifier, and else the active.
abbrev pub IsJob :
    (future_template : Bool) (job_id : Option ℕ) (future : ℕ → Option Job) (active : Option Job)
    → Job
    → Type 0
IsJob true job_id future active job = (id : ℕ) × (job_id ≡ some id) × (future id ≡ some job)
IsJob false job_id future active job = active ≡ some job

pub also-Sends :
    (Q P : List RouteMessageTo → Type 0) (sent : List RouteMessageTo) (r : Messages)
    → ((messages : List RouteMessageTo) → Q messages → P (sent ++ messages))
    → Sends Q r
    → Sends P (also sent r)
also-Sends Q P sent (ok messages) f q = f messages q
also-Sends Q P sent (err e) f q = tt
also-Sends Q P sent panicked f q = tt

module _ {ℓ} {C : Type ℓ} where
  pub followed-Sends :
      (P : List RouteMessageTo → Type 0) (f : C → C × Messages) (x : C × Option ℕ)
      → Sends P (f x.0).1
      → Sends P (followed f x).1
  followed-Sends P f (c, none) s = s
  followed-Sends P f (c, some e) s = tt

  module _ (R : ℕ → C → List RouteMessageTo → Type 0) where
    each_step-Sends :
        (k : ℕ) (old c : C) (r : Messages) (m done : Assoc ℕ C) (last : Messages)
        → Sends (R k old) r
        → Sends (Each R m) last
        → Sends (Each R ((k, old) ∷ m)) (each_step k (c, r) m (done, last)).1
    each_step-Sends k old c (ok messages) m done last p q =
        also-Sends (Each R m) (Each R ((k, old) ∷ m)) messages last
          (λ rest e. (messages, rest, refl, p, e)) q
    each_step-Sends k old c (err e) m done last p q = tt
    each_step-Sends k old c panicked m done last p q = tt

    pub try_each-Sends :
        (f : ℕ → C → C × Messages)
        → ((k : ℕ) (c : C) → Sends (R k c) (f k c).1)
        → (m : Assoc ℕ C) → Sends (Each R m) (try_each f m).1
    unfolding try_each
    try_each-Sends f s [] = refl
    try_each-Sends f s ((k, c) ∷ m) =
        each_step-Sends k c (f k c).0 (f k c).1 m (try_each f m).0 (try_each f m).1 (s k c)
          (try_each-Sends f s m)

  pub Each-silent :
      (m : Assoc ℕ C) (messages : List RouteMessageTo)
      → Each (λ k c sent. sent ≡ []) m messages
      → messages ≡ []
  Each-silent [] messages e = e
  Each-silent ((k, c) ∷ m) messages (first, rest, e, nothing, more) =
      e ∙ rw (nothing) (Each-silent m rest more)
