-- ===== src/JdServer/TokenBytes.antt =====
-- `u64::to_le_bytes` and `try_as_array::<8>` with `u64::from_le_bytes`, by which a token travels.
use sv2_apps_fork.Prelude.{
  ℕ, zero, suc, ◌+◌, ◌*◌, ◌/◌, ◌%◌, ◌<◌, ◌^◌, ◌≡◌, refl, Option, none, some, List, [], ◌∷◌, length,
  if◌then◌else◌, ◌==◌, nat_eq, arith,
}
use native.Mathlib.Nat.{pow-suc}

-- The low `width` bytes of a number, the lowest first.
unfoldable pub le_bytes : ℕ → ℕ → List ℕ
le_bytes zero n = []
le_bytes (suc width) n = (n % 256) ∷ le_bytes width (n / 256)

unfoldable pub to_le_bytes : ℕ → List ℕ
to_le_bytes n = le_bytes 8 n

unfoldable pub from_le_bytes : List ℕ → ℕ
from_le_bytes [] = 0
from_le_bytes (b ∷ bs) = b + 256 * from_le_bytes bs

unfoldable pub parse_token : List ℕ → Option ℕ
parse_token bytes = if length bytes == 8 then some (from_le_bytes bytes) else none

length-le_bytes : (width n : ℕ) → length (le_bytes width n) ≡ width
unfolding le_bytes
length-le_bytes zero n = refl
length-le_bytes (suc width) n = omega (arith, length-le_bytes width (n / 256))

from_le_bytes-le_bytes : (width n : ℕ) → n < 256 ^ width → from_le_bytes (le_bytes width n) ≡ n
unfolding le_bytes from_le_bytes
from_le_bytes-le_bytes zero n h = omega arith
from_le_bytes-le_bytes (suc width) n h =
    omega (arith, from_le_bytes-le_bytes width (n / 256) (omega (arith, pow-suc 256 width)))

-- A token of 64 bits that is sent as bytes is read back.
pub parse_token-to_le_bytes : (n : ℕ) → n < 2 ^ 64 → parse_token (to_le_bytes n) ≡ some n
unfolding parse_token to_le_bytes
parse_token-to_le_bytes n h =
    rw (length-le_bytes 8 n, from_le_bytes-le_bytes 8 n (omega arith)) refl
