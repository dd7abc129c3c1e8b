-- ===== src/Translator/Keepalive/Ids.antt =====
-- Job ids of keepalive jobs: the id of the upstream job, `#` and a counter.
use Prim.Native.Char.{Char, code}
use sv2_apps_fork.Prelude.{
  ℕ, zero, suc, ◌/◌, ◌%◌, ◌≡◌, ◌⊎◌, refl, ap, inl, inr, Bool, true, false, Option, none, some,
  String, if◌then◌else◌, ◌==◌, nat_eq, arith, Bool-cases, Option-cases,
}

unfoldable pub append : String → String → String
append String.[] t = t
append (String.◌∷◌ c s) t = String.◌∷◌ c (append s t)

-- Below ten.
abbrev digit_text : ℕ → String
digit_text n =
    if n == 0
    then "0"
    else (if n == 1
        then "1"
        else (if n == 2
            then "2"
            else (if n == 3
                then "3"
                else (if n == 4
                    then "4"
                    else (if n == 5
                        then "5"
                        else (if n == 6
                            then "6"
                            else (if n == 7 then "7" else (if n == 8 then "8" else "9"))))))))

-- The decimal digits of a number, with fuel for each.
unfoldable pub decimal : (fuel : ℕ) → ℕ → String
unfolding append
decimal zero n = digit_text n
decimal (suc fuel) n =
    let rest = decimal fuel (n / 10) in
    if n / 10 == 0 then digit_text n else append rest (digit_text (n % 10))

-- A 32-bit counter has at most 10 digits.
unfoldable pub next_keepalive_job_id : (counter : ℕ) → String → String
next_keepalive_job_id counter original_job_id =
    append original_job_id (append "#" (decimal 10 counter))

abbrev pub extended : Option String → (String → String) → Option String
extended none f = none
extended (some s) f = some (f s)

-- `split_once('#')`, the first part.
unfoldable pub extract_original_job_id : String → Option String
extract_original_job_id String.[] = none
extract_original_job_id (String.◌∷◌ c s) =
    let rest = extract_original_job_id s in
    if code c == b'#' then some "" else extended rest (λ t. String.◌∷◌ c t)

unfoldable pub is_keepalive_job_id : String → Bool
is_keepalive_job_id String.[] = false
is_keepalive_job_id (String.◌∷◌ c s) =
    let rest = is_keepalive_job_id s in if code c == b'#' then true else rest

-- The id of the upstream job behind an id.
abbrev pub or_itself : Option String → String → String
or_itself none job_id = job_id
or_itself (some original) job_id = original

unfoldable pub original_id : String → String
original_id job_id = or_itself (extract_original_job_id job_id) job_id

extract-append :
    (s t : String)
    → is_keepalive_job_id s ≡ false
    → extract_original_job_id (append s (append "#" t)) ≡ some s
unfolding append extract_original_job_id is_keepalive_job_id
extract-append String.[] t plain = refl
extract-append (String.◌∷◌ c s) t plain = elim (Bool-cases (code c == b'#')) [
  | inl is ↦ absurd (ground (arith, is, plain))
  | inr other ↦ rw (other, extract-append s t (ground (arith, other, plain))) refl
]

keepalive-append : (s t : String) → is_keepalive_job_id (append s (append "#" t)) ≡ true
unfolding append is_keepalive_job_id
keepalive-append String.[] t = refl
keepalive-append (String.◌∷◌ c s) t = ground (arith, keepalive-append s t)

-- The id of a keepalive job is recognised, and leads back to the upstream job's, which has no `#`.
pub extract-next :
    (counter : ℕ) (job_id : String)
    → is_keepalive_job_id job_id ≡ false
    → (is_keepalive_job_id (next_keepalive_job_id counter job_id) ≡ true)
      × (extract_original_job_id (next_keepalive_job_id counter job_id) ≡ some job_id)
unfolding next_keepalive_job_id
extract-next counter job_id plain =
    (keepalive-append job_id (decimal 10 counter), extract-append job_id (decimal 10 counter) plain)

text_cases : (t : String) → (t ≡ "") ⊎ ((c : Char) × (s : String) × (t ≡ String.◌∷◌ c s))
text_cases String.[] = inl refl
text_cases (String.◌∷◌ c s) = inr (c, s, refl)

extract-IsPlain :
    (s t : String) → extract_original_job_id s ≡ some t → is_keepalive_job_id t ≡ false
unfolding extract_original_job_id is_keepalive_job_id
extract-IsPlain String.[] t e = absurd (cc)
extract-IsPlain (String.◌∷◌ c s) t e = elim (Bool-cases (code c == b'#')) [
  | inl is ↦
      let named : some "" ≡ some t = rw (is) at e in
      elim (text_cases t) [
        | inl empty ↦ rw (empty) refl
        | inr (d, u, more) ↦ absurd (cc (named, more))
      ]
  | inr other ↦ elim (Option-cases (extract_original_job_id s)) [
    | inl nothing ↦ absurd (cc (rw (other, nothing) at e))
    | inr (u, found) ↦
        let longer : some (String.◌∷◌ c u) ≡ some t = rw (other, found) at e in
        let same : String.◌∷◌ c u ≡ t = cc (longer) in
        rw (← same, other) (extract-IsPlain s u found)
  ]
]

extract-none : (s : String) → extract_original_job_id s ≡ none → is_keepalive_job_id s ≡ false
unfolding extract_original_job_id is_keepalive_job_id
extract-none String.[] e = refl
extract-none (String.◌∷◌ c s) e = elim (Bool-cases (code c == b'#')) [
  | inl is ↦ absurd (cc (rw (is) at e))
  | inr other ↦ elim (Option-cases (extract_original_job_id s)) [
    | inl nothing ↦ rw (other) (extract-none s nothing)
    | inr (u, found) ↦ absurd (cc (rw (other, found) at e))
  ]
]

extract_of_plain : (s : String) → is_keepalive_job_id s ≡ false → extract_original_job_id s ≡ none
unfolding extract_original_job_id is_keepalive_job_id
extract_of_plain String.[] e = refl
extract_of_plain (String.◌∷◌ c s) e = elim (Bool-cases (code c == b'#')) [
  | inl is ↦ absurd (cc (rw (is) at e))
  | inr other ↦ rw (other, extract_of_plain s (ground (arith, other, e))) refl
]

-- An id leads to its upstream job's by the test and the extraction, or by the extraction alone.
pub original_id-tested :
    (s : String)
    → (if is_keepalive_job_id s then extract_original_job_id s else some s) ≡ some (original_id s)
unfolding original_id
original_id-tested s = elim (Bool-cases (is_keepalive_job_id s)) [
  | inl is ↦ elim (Option-cases (extract_original_job_id s)) [
    | inl nothing ↦ absurd (ground (arith, is, extract-none s nothing))
    | inr (t, found) ↦ rw (is, found) refl
  ]
  | inr plain ↦ rw (plain, extract_of_plain s plain) refl
]

-- The upstream job's id has no `#`.
pub original_id-IsPlain : (s : String) → is_keepalive_job_id (original_id s) ≡ false
unfolding original_id
original_id-IsPlain s = elim (Option-cases (extract_original_job_id s)) [
  | inl nothing ↦ rw (nothing, original_id) (extract-none s nothing)
  | inr (t, found) ↦ rw (found, original_id) (extract-IsPlain s t found)
]

-- A keepalive job of a keepalive job has the same upstream job.
pub original_id-next :
    (counter : ℕ) (s : String)
    → original_id (next_keepalive_job_id counter (original_id s)) ≡ original_id s
unfolding original_id
original_id-next counter s =
    ap (λ o. or_itself o (next_keepalive_job_id counter (original_id s)))
      (extract-next counter (original_id s) (original_id-IsPlain s)).1
