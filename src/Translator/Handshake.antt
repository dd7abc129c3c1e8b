-- ===== src/Translator/Handshake.antt =====
-- miner-apps/translator/src/lib/sv1/sv1_server/downstream_message_handler.rs: the SV1 requests that set
-- a session up, and what they read and write of a miner. A result is none for a miner that is not
-- registered.
use Prim.Native.Char.{code}
use sv2_apps_fork.Prelude.{
  ℕ, ◌≡◌, refl, ap, ◌∙◌, Bool, true, Option, none, some, String, if◌then◌else◌, ◌==◌, nat_eq,
  string_eq, arith,
}
use sv2_apps_fork.Prelude.Assoc.{lookup, adjust, lookup-adjust}
use sv2_apps_fork.Translator.Downstream.{Extranonce, DownstreamData}
use sv2_apps_fork.Translator.Submission.{Sv1Server, merge_bits}

-- What follows the first dot.
unfoldable pub after_dot : String → Option String
after_dot String.[] = none
after_dot (String.◌∷◌ c s) = let rest = after_dot s in if code c == b'.' then some s else rest

-- A name without a worker's part, or with an empty one, is the worker's.
abbrev pub worker_or : (sv1_username : String) → Option String → String
worker_or sv1_username none = sv1_username
worker_or sv1_username (some worker_name) = if worker_name == "" then sv1_username else worker_name

unfoldable pub sv1_worker_name_from_sv1_username : String → String
unfolding after_dot
sv1_worker_name_from_sv1_username sv1_username = worker_or sv1_username (after_dot sv1_username)

abbrev pub read_from : {R : Type 0} → (DownstreamData → R) → Option DownstreamData → Option R
read_from f none = none
read_from f (some d) = some (f d)

abbrev pub read_registered :
    {R : Type 0} → (downstream_id : ℕ) → (DownstreamData → R) → Sv1Server → Option R
read_registered id f s = read_from f (lookup id s.downstreams)

abbrev pub write_registered :
    (downstream_id : ℕ) → (DownstreamData → DownstreamData) → Sv1Server → Sv1Server
write_registered id f s = record s { downstreams = adjust id f s.downstreams }

-- `mask & VERSION_ROLLING_MASK`
abbrev pub masked : (default_mask : ℕ) → Option ℕ → Option ℕ
masked default_mask none = none
masked default_mask (some mask) = some (merge_bits 32 default_mask 0 mask)

abbrev pub or_zero : Option ℕ → ℕ
or_zero none = 0
or_zero (some n) = n

-- The parameters that are answered, the mask and the number of bits.
abbrev pub rolling_params : DownstreamData → ℕ × ℕ
rolling_params d = (or_zero d.version_rolling_mask, or_zero d.version_rolling_min_bit)

abbrev pub configured :
    (default_mask : ℕ) (mask min_bit : Option ℕ) → DownstreamData → DownstreamData
configured default_mask mask min_bit d = record d {
  version_rolling_mask = masked default_mask mask;
  version_rolling_min_bit = min_bit;
}

unfoldable pub handle_configure :
    (default_mask downstream_id : ℕ) (mask min_bit : Option ℕ)
    → Sv1Server
    → Sv1Server × Option (ℕ × ℕ)
handle_configure default_mask id mask min_bit s =
    let s' = write_registered id (configured default_mask mask min_bit) s in
    (s', read_registered id rolling_params s')

unfoldable pub handle_extranonce_subscribe : (downstream_id : ℕ) → Sv1Server → Sv1Server
handle_extranonce_subscribe id s =
    write_registered id (λ d. record d { supports_set_extranonce = true }) s

unfoldable pub is_authorized : (downstream_id : ℕ) → String → Sv1Server → Option Bool
is_authorized id name s = read_registered id (λ d. d.sv1_username == name) s

abbrev pub authorized : String → DownstreamData → DownstreamData
authorized name d = record d {
  sv1_username = if d.sv1_username == name then d.sv1_username else name;
  sv1_worker_name = sv1_worker_name_from_sv1_username name;
}

unfoldable pub authorize : (downstream_id : ℕ) → String → Sv1Server → Sv1Server
authorize id name s = write_registered id (authorized name) s

-- `set_extranonce1` and `extranonce1`, with the size of the rest for the other two: a request to set
-- them reads what the server decided.
unfoldable pub extranonce : (downstream_id : ℕ) → Sv1Server → Option Extranonce
extranonce id s = read_registered id (λ d. d.extranonce) s

unfoldable pub version_rolling_mask : (downstream_id : ℕ) → Sv1Server → Option (Option ℕ)
version_rolling_mask id s = read_registered id (λ d. d.version_rolling_mask) s

unfoldable pub set_version_rolling_mask : (downstream_id : ℕ) → Option ℕ → Sv1Server → Sv1Server
set_version_rolling_mask id mask s =
    write_registered id (λ d. record d { version_rolling_mask = mask }) s

unfoldable pub set_version_rolling_min_bit : (downstream_id : ℕ) → Option ℕ → Sv1Server → Sv1Server
set_version_rolling_min_bit id mask s =
    write_registered id (λ d. record d { version_rolling_min_bit = mask }) s

-- A miner that was authorized under a name is authorized under that name and no other.
authorize-is_authorized :
    (id : ℕ) (name other : String) (s : Sv1Server) (d : DownstreamData)
    → lookup id s.downstreams ≡ some d
    → is_authorized id other (authorize id name s) ≡ some (name == other)
unfolding is_authorized authorize
authorize-is_authorized id name other s d found =
    let now : lookup id (adjust id (authorized name) s.downstreams) ≡ some (authorized name d) =
      lookup-adjust id id (authorized name) s.downstreams
      ∙ rw ((nat_eq.agrees_iff id id).1 refl, found) refl in
    let named : (authorized name d).sv1_username ≡ name =
      ground (arith, string_eq.agrees_iff d.sv1_username name) in
    ap (read_from (λ e. e.sv1_username == other)) now ∙ ap (λ n. some (n == other)) named
