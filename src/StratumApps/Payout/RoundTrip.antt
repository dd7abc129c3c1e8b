-- ===== src/StratumApps/Payout/RoundTrip.antt =====
-- The identities that the comment on `PayoutMode` gives for each mode, read back. The worker's name,
-- with the delimiter before it, is optional, as pool-apps/pool/README.md has it.
use sv2_apps_fork.Prelude.{
  ℕ, ◌+◌, ◌/◌, ◌%◌, ◌≤◌, ◌<◌, ◌≡◌, ◌≢◌, refl, ap, ◌∙◌, true, false, ◌&&◌, Option, none, some, List,
  [], ◌∷◌, ◌++◌, if◌then◌else◌, ltb, leb, nat_eq, list_eq, codes, arith, contains,
}
use mathlib.Core.List.{append-nil}
use sv2_apps_fork.Prelude.Equality.{list_agrees}
use sv2_apps_fork.StratumApps.Payout.{
  Script, Text, PayoutMode, solo, legacy_solo, donate, full_donation,
}
use sv2_apps_fork.StratumApps.Payout.Percentages.{IsRange}
use sv2_apps_fork.StratumApps.Payout.Identities.{HasScript}
use sv2_apps_fork.StratumApps.Payout.Parse.{
  Parsed, ok, before, split, parse_u8, donate_by, of_parts, try_from,
}

abbrev pub Lacks : ℕ → Text → Type 0
Lacks c xs = contains c xs ≡ false

before-append : (c : ℕ) (xs ys : Text) → Lacks c xs → before c (xs ++ (c ∷ ys)) ≡ xs
unfolding before
before-append c [] ys h = ground arith
before-append c (x ∷ xs) ys h = ground (arith, before-append c xs ys)

split-append : (c : ℕ) (xs ys : Text) → Lacks c xs → split c (xs ++ (c ∷ ys)) ≡ xs ∷ split c ys
unfolding split
split-append c [] ys h = ground arith
split-append c (x ∷ xs) ys h = ground (arith, split-append c xs ys)

split-Lacks : (c : ℕ) (xs : Text) → Lacks c xs → split c xs ≡ xs ∷ []
unfolding split
split-Lacks c [] h = refl
split-Lacks c (x ∷ xs) h = ground (arith, split-Lacks c xs)

-- A number below 100 in digits.
abbrev pub print : ℕ → Text
print n = if ltb n 10 then (b'0' + n) ∷ [] else (b'0' + n / 10) ∷ (b'0' + n % 10) ∷ []

parse_u8-print : (n : ℕ) → n < 100 → parse_u8 (print n) ≡ some n
unfolding parse_u8
parse_u8-print n h = ground arith

print-Lacks : (n : ℕ) → n < 100 → Lacks b'/' (print n)
print-Lacks n h = ground arith

-- A worker's name, which may be left out with the delimiter before it.
abbrev pub named : ℕ → Option Text → Text
named c none = []
named c (some worker) = c ∷ worker

-- The documented pattern of a mode, with or without a worker's name.
unfoldable pub identity : PayoutMode → Option Text → Text
identity (solo address script) worker = codes "sri/solo/" ++ (address ++ named b'/' worker)
identity (legacy_solo address script) worker = address ++ named b'.' worker
identity (donate percentage address script) worker =
    codes "sri/donate/" ++ (print percentage ++ (b'/' ∷ (address ++ named b'/' worker)))
identity full_donation worker = codes "sri/donate" ++ named b'/' worker

abbrev pub LacksIn : ℕ → Option Text → Type 0
LacksIn c none = Unit {0}
LacksIn c (some xs) = Lacks c xs

abbrev parts_of : Option Text → List Text
parts_of none = []
parts_of (some worker) = split b'/' worker

split-named :
    (xs : Text) (worker : Option Text)
    → Lacks b'/' xs
    → split b'/' (xs ++ named b'/' worker) ≡ xs ∷ parts_of worker
split-named xs none h = ap (split b'/') (append-nil xs) ∙ split-Lacks b'/' xs h
split-named xs (some worker) h = split-append b'/' xs worker h

before-Lacks : (c : ℕ) (xs : Text) → Lacks c xs → before c xs ≡ xs
unfolding before
before-Lacks c [] h = refl
before-Lacks c (x ∷ xs) h = ground (arith, before-Lacks c xs)

before-named :
    (c : ℕ) (xs : Text) (worker : Option Text) → Lacks c xs → before c (xs ++ named c worker) ≡ xs
before-named c xs none h = ap (before c) (append-nil xs) ∙ before-Lacks c xs h
before-named c xs (some worker) h = before-append c xs worker h

module _ (script_from_address : Text → Option Script) where
  -- The parts of a pattern can be told apart: no delimiter in the address, and, but for the legacy
  -- pattern, what stands before the first dot of the identity is no address. The empty text is no
  -- address. The name of a full donor's worker has no delimiter, since that would make it a percentage.
  unfoldable pub Readable : PayoutMode → Option Text → Type 0
  Readable (solo address script) worker =
      Lacks b'/' address
      × (script_from_address (before b'.' (identity (solo address script) worker)) ≡ none)
  Readable (legacy_solo address script) worker = Lacks b'.' address × (address ≢ [])
  Readable (donate percentage address script) worker =
      Lacks b'/' address
      × (script_from_address (before b'.' (identity (donate percentage address script) worker))
          ≡ none)
  Readable full_donation worker =
      LacksIn b'/' worker
      × (script_from_address (before b'.' (identity full_donation worker)) ≡ none)

  through_parts :
      (c : ℕ) (cs : Text) (parts : List Text) (r : Parsed)
      → script_from_address (before b'.' (c ∷ cs)) ≡ none
      → split b'/' (c ∷ cs) ≡ parts
      → of_parts script_from_address (c ∷ cs) parts ≡ r
      → try_from script_from_address (c ∷ cs) ≡ r
  unfolding try_from
  through_parts c cs parts r away e e' = rw (away, e) e'

  through_address :
      (c : ℕ) (cs address : Text) (s : Script)
      → before b'.' (c ∷ cs) ≡ address
      → script_from_address address ≡ some s
      → try_from script_from_address (c ∷ cs) ≡ ok (legacy_solo address s)
  unfolding try_from
  through_address c cs address s e h = rw (e, h) refl

  legacy_read :
      (a : Text) (worker : Option Text) (s : Script)
      → script_from_address a ≡ some s
      → Lacks b'.' a
      → a ≢ []
      → try_from script_from_address (a ++ named b'.' worker) ≡ ok (legacy_solo a s)
  legacy_read [] worker s h lacks filled = absurd (filled refl)
  legacy_read (x ∷ xs) worker s h lacks filled =
      through_address x (xs ++ named b'.' worker) (x ∷ xs) s
        (before-named b'.' (x ∷ xs) worker lacks) h

  donate_read :
      (p : ℕ) (a : Text) (s : Script)
      → (1 ≤ p) × (p ≤ 99)
      → script_from_address a ≡ some s
      → donate_by script_from_address (print p) a (parse_u8 (print p)) ≡ ok (donate p a s)
  donate_read p a s r h =
      let within : leb 1 p && ltb p 100 ≡ true = ground arith in
      rw (parse_u8-print p (omega arith), within, h) refl

  donate_parts :
      (p : ℕ) (a : Text) (worker : Option Text)
      → p ≤ 99
      → Lacks b'/' a
      → split b'/' (print p ++ (b'/' ∷ (a ++ named b'/' worker))) ≡ print p ∷ a ∷ parts_of worker
  donate_parts p a worker h lacks =
      split-append b'/' (print p) (a ++ named b'/' worker) (print-Lacks p (omega arith))
      ∙ ap (λ l. print p ∷ l) (split-named a worker lacks)

  full_read :
      (worker : Option Text)
      → Readable full_donation worker
      → try_from script_from_address (identity full_donation worker) ≡ ok full_donation
  unfolding identity Readable of_parts split list_agrees
  full_read none (lacks, away) =
      through_parts _ _ (codes "sri" ∷ codes "donate" ∷ []) (ok full_donation) away refl refl
  full_read (some name) (lacks, away) =
      through_parts _ _ (codes "sri" ∷ codes "donate" ∷ name ∷ []) (ok full_donation) away
        (ap (λ l. codes "sri" ∷ codes "donate" ∷ l) (split-Lacks b'/' name lacks)) refl

  -- An identity that is written for a mode by its documented pattern, with a worker's name or without
  -- one, is read back as that mode, when the mode's percentage is from 1 to 99, its script is that of
  -- its address, and its parts can be told apart.
  pub try_from-identity :
      (mode : PayoutMode) (worker : Option Text)
      → IsRange mode
      → HasScript script_from_address mode
      → Readable mode worker
      → try_from script_from_address (identity mode worker) ≡ ok mode
  unfolding identity Readable of_parts split list_agrees
  try_from-identity (solo a s) worker r h (lacks, away) =
      through_parts _ _ (codes "sri" ∷ codes "solo" ∷ a ∷ parts_of worker) (ok (solo a s)) away
        (ap (λ l. codes "sri" ∷ codes "solo" ∷ l) (split-named a worker lacks)) (rw (h) refl)
  try_from-identity (legacy_solo a s) worker r h (lacks, filled) =
      legacy_read a worker s h lacks filled
  try_from-identity (donate p a s) worker r h (lacks, away) =
      through_parts _ _ (codes "sri" ∷ codes "donate" ∷ print p ∷ a ∷ parts_of worker)
        (ok (donate p a s)) away
        (ap (λ l. codes "sri" ∷ codes "donate" ∷ l) (donate_parts p a worker r.1 lacks))
        (donate_read p a s r h)
  try_from-identity full_donation worker r h readable = full_read worker readable
