-- ===== src/StratumApps/Payout/Parse.antt =====
-- `TryFrom<&str> for PayoutMode`: the mode that a user identity encodes. A text is the list of its
-- code points.
use sv2_apps_fork.Prelude.{
  ℕ, ◌+◌, ◌-◌, ◌*◌, Bool, ◌&&◌, Option, none, some, List, [], ◌∷◌, if◌then◌else◌, ltb, leb, ◌==◌,
  nat_eq, list_eq, codes,
}
use sv2_apps_fork.StratumApps.Payout.{
  Script, Text, PayoutMode, solo, legacy_solo, donate, full_donation,
}

pub data PayoutModeError : Type 0 where
  no_payout_mode : (user_identity : Text) → PayoutModeError
  invalid_user_identity : (user_identity : Text) → PayoutModeError
  invalid_payout_address : (address : Text) → PayoutModeError
  invalid_donation_percentage : (percentage : Text) → PayoutModeError

pub data Parsed : Type 0 where
  ok : PayoutMode → Parsed
  err : PayoutModeError → Parsed

-- `split_once(c)`, its first part, or the whole text.
unfoldable pub before : ℕ → Text → Text
before c [] = []
before c (x ∷ xs) = let rest = before c xs in if x == c then [] else x ∷ rest

abbrev pub extend : ℕ → List Text → List Text
extend x [] = (x ∷ []) ∷ []
extend x (part ∷ parts) = (x ∷ part) ∷ parts

-- `split(c)`
unfoldable pub split : ℕ → Text → List Text
split c [] = [] ∷ []
split c (x ∷ xs) = let rest = split c xs in if x == c then [] ∷ rest else extend x rest

abbrev pub is_digit : ℕ → Bool
is_digit c = leb b'0' c && leb c b'9'

unfoldable pub read_digits : ℕ → Text → Option ℕ
read_digits value [] = some value
read_digits value (c ∷ cs) =
    let rest = read_digits (value * 10 + (c - b'0')) cs in if is_digit c then rest else none

abbrev pub in_byte : Option ℕ → Option ℕ
in_byte none = none
in_byte (some n) = if ltb n 256 then some n else none

-- Digits, at least one.
unfoldable pub digits : Text → Option ℕ
unfolding read_digits
digits [] = none
digits (c ∷ cs) = in_byte (read_digits 0 (c ∷ cs))

-- `parse::<u8>`, which takes one leading `+`.
unfoldable pub parse_u8 : Text → Option ℕ
unfolding digits
parse_u8 [] = none
parse_u8 (c ∷ cs) = if c == b'+' then digits cs else digits (c ∷ cs)

module _ (script_from_address : Text → Option Script) where
  abbrev pub with_script : Text → (Script → PayoutMode) → Option Script → Parsed
  with_script address mode none = err (invalid_payout_address address)
  with_script address mode (some script) = ok (mode script)

  abbrev pub solo_of : Text → List Text → Parsed
  solo_of user_identity [] = err (invalid_user_identity user_identity)
  solo_of user_identity (address ∷ rest) =
      with_script address (solo address) (script_from_address address)

  abbrev pub donate_by : Text → Text → Option ℕ → Parsed
  donate_by text address none = err (invalid_donation_percentage text)
  donate_by text address (some p) =
      if leb 1 p && ltb p 100
      then with_script address (donate p address) (script_from_address address)
      else err (invalid_donation_percentage text)

  abbrev pub donate_of : List Text → Parsed
  donate_of [] = ok full_donation
  donate_of (part ∷ []) = ok full_donation
  donate_of (percentage ∷ address ∷ rest) = donate_by percentage address (parse_u8 percentage)

  unfoldable pub of_parts : Text → List Text → Parsed
  of_parts user_identity [] = err (no_payout_mode user_identity)
  of_parts user_identity (part ∷ []) = err (no_payout_mode user_identity)
  of_parts user_identity (first ∷ second ∷ rest) =
      if first == codes "sri"
      then (if second == codes "solo"
          then solo_of user_identity rest
          else if second == codes "donate"
          then donate_of rest
          else err (invalid_user_identity user_identity))
      else err (no_payout_mode user_identity)

  abbrev pub legacy_or : Text → Text → Option Script → Parsed
  legacy_or user_identity address (some script) = ok (legacy_solo address script)
  legacy_or user_identity address none = of_parts user_identity (split b'/' user_identity)

  unfoldable pub try_from : Text → Parsed
  try_from [] = err (no_payout_mode [])
  try_from (c ∷ cs) =
      let address = before b'.' (c ∷ cs) in legacy_or (c ∷ cs) address (script_from_address address)
