-- ===== src/ApiKeys.antt =====
-- apps/api/src/services/api-keys.service.ts and apps/api/src/middlewares/api-key.middleware.ts: the
-- keys of a user, and the check of a signed request. Times count milliseconds. The hashes, the
-- random digits of a new key, `parseInt` and the master secret are parameters. A query that fails,
-- which answers 500, is left out.
pub mod Acceptance
pub mod Traffic
pub mod Replay
pub mod Revocation
pub mod Handlers
pub mod Created
pub mod Tests
use Prim.Native.String.{◌++◌}
use text.Mathlib.Text.{starts_with}
use trade_alpha.Base.{
  ℕ, ◌+◌, ◌==◌, ltb, Bool, true, false, not, ◌&&◌, ◌||◌, Option, none, some, List, [], ◌∷◌, String,
  str_eq, if◌then◌else◌,
}
use trade_alpha.Int.{ℤ, pos, ◌-ℤ◌, ltb_ℤ, abs}
use trade_alpha.Store.Tables.{find, update_where, filter_where}

pub record ApiKey : Type 0 where
  pub id : ℕ
  pub user_id : ℕ
  pub key_prefix : String
  pub secret_hash : String
  pub name : String
  pub scopes : List String
  pub created_at : ℕ
  pub revoked_at : Option ℕ
  pub last_used_at : Option ℕ

-- The key `api:replay:${signature}` and the time at which it is gone.
pub record Nonce : Type 0 where
  pub signature : String
  pub expires : ℕ

-- The table of keys, in the order of their creation with the last one first, and the nonces.
pub record Gate : Type 0 where
  pub keys : List ApiKey
  pub nonces : List Nonce
  pub next_id : ℕ

pub record Crypto : Type 0 where
  pub hmac_base64 : String → String → String
  pub hmac_hex : String → String → String
  pub bcrypt : String → String
  pub master_secret : String
  pub parse_int : String → Option ℤ

-- A header that is absent or empty is none. The body is its JSON text, or empty if it has no keys.
pub record Request : Type 0 where
  pub api_key : Option String
  pub timestamp : Option String
  pub signature : Option String
  pub method : String
  pub original_url : String
  pub path : String
  pub body : String

pub data Refusal : Type 0 where
  missing_headers invalid_timestamp timestamp_expired invalid_key key_revoked : Refusal
  replay_detected invalid_signature insufficient_scope : Refusal

pub data Answer : Type 0 where
  allowed : (user_id key_id : ℕ) → Answer
  refused : Refusal → Answer

abbrev pub window : ℕ
window = 300_000

abbrev pub has_prefix : String → ApiKey → Bool
has_prefix prefix k = str_eq k.key_prefix prefix

abbrev pub has_key_id : ℕ → ApiKey → Bool
has_key_id id k = k.id == id

abbrev pub is_none : Option ℕ → Bool
is_none none = true
is_none (some _) = false

module _ (x : Crypto) where
  abbrev pub secret_of : String → String
  secret_of prefix = x.hmac_base64 x.master_secret prefix

  -- The key with its plain secret, for the random digits of its prefix.
  unfoldable pub create_key :
      ℕ → ℕ → String → List String → String → Gate → (ApiKey × String) × Gate
  create_key now user_id name scopes digits g =
      let prefix = "TA_" ++ digits in
      let plain = prefix ++ "." ++ secret_of prefix in
      let key : ApiKey = record {
        id = g.next_id;
        user_id = user_id;
        key_prefix = prefix;
        secret_hash = x.bcrypt plain;
        name = name;
        scopes = scopes;
        created_at = now;
        revoked_at = none;
        last_used_at = none;
      } in
      ((key, plain), record g { keys = key ∷ g.keys; next_id = g.next_id + 1 })

  unfoldable pub list_keys : ℕ → Gate → List ApiKey
  list_keys user_id g = filter_where (λ k. k.user_id == user_id && is_none k.revoked_at) g.keys

  -- The key, or none if it is not found for the user.
  unfoldable pub revoke_key : ℕ → ℕ → ℕ → Gate → Option ApiKey × Gate
  revoke_key now user_id key_id g = elim (find (has_key_id key_id) g.keys) [
    | none ↦ (none, g)
    | some key ↦
        if not (key.user_id == user_id)
        then (none, g)
        else if not (is_none key.revoked_at)
        then (some key, g)
        else (
          some (record key { revoked_at = some now }),
          record g {
            keys =
                update_where (has_key_id key_id) (λ k. record k { revoked_at = some now }) g.keys;
          },
        )
  ]

  abbrev pub includes_scope : List String → String → Bool
  includes_scope [] scope = false
  includes_scope (s ∷ ss) scope = str_eq s scope || includes_scope ss scope

  abbrev pub get_required_scope : Request → Option String
  get_required_scope r =
      if starts_with r.path "/api/public/orders"
      then some (if str_eq r.method "GET" then "orders:read" else "orders:write")
      else if starts_with r.path "/api/public/portfolio"
      then some "portfolio:read"
      else none

  abbrev pub has_scope : Option String → ApiKey → Bool
  has_scope none k = true
  has_scope (some scope) k = includes_scope k.scopes scope

  abbrev pub canonical_string : Request → String → String
  canonical_string r timestamp =
      r.method ++ "\n" ++ r.original_url ++ "\n" ++ timestamp ++ "\n" ++ r.body

  abbrev pub expected_signature : Request → String → ApiKey → String
  expected_signature r timestamp k =
      x.hmac_hex (secret_of k.key_prefix) (canonical_string r timestamp)

  abbrev pub holds_nonce : ℕ → String → Nonce → Bool
  holds_nonce now signature n = str_eq n.signature signature && ltb now n.expires

  -- Steps 4 and 5, and the note of the use.
  unfoldable pub check_signature : ℕ → Request → String → String → ApiKey → Gate → Answer × Gate
  check_signature now r timestamp signature k g =
      if not (str_eq (expected_signature r timestamp k) signature)
      then (refused invalid_signature, g)
      else if not (has_scope (get_required_scope r) k)
      then (refused insufficient_scope, g)
      else (
        allowed k.user_id k.id,
        record g {
          keys = update_where (has_key_id k.id) (λ y. record y { last_used_at = some now }) g.keys;
        },
      )

  -- Step 3.
  unfoldable pub check_nonce : ℕ → Request → String → String → ApiKey → Gate → Answer × Gate
  check_nonce now r timestamp signature k g = elim (find (holds_nonce now signature) g.nonces) [
    | some _ ↦ (refused replay_detected, g)
    | none ↦
        check_signature now r timestamp signature k (record g {
          nonces = record { signature = signature; expires = now + window } ∷ g.nonces;
        })
  ]

  -- Step 2.
  unfoldable pub check_key : ℕ → Request → String → String → String → Gate → Answer × Gate
  check_key now r prefix timestamp signature g = elim (find (has_prefix prefix) g.keys) [
    | none ↦ (refused invalid_key, g)
    | some k ↦
        if not (is_none k.revoked_at)
        then (refused key_revoked, g)
        else check_nonce now r timestamp signature k g
  ]

  -- Step 1.
  unfoldable pub check_time : ℕ → Request → String → String → String → Gate → Answer × Gate
  check_time now r prefix timestamp signature g = elim (x.parse_int timestamp) [
    | none ↦ (refused invalid_timestamp, g)
    | some time ↦
        if ltb_ℤ (pos window) (abs (pos now -ℤ time))
        then (refused timestamp_expired, g)
        else check_key now r prefix timestamp signature g
  ]

  abbrev pub read_headers : Request → Option (String × String × String)
  read_headers r = elim r.api_key [
    | none ↦ none
    | some prefix ↦ elim r.timestamp [
      | none ↦ none
      | some timestamp ↦ elim r.signature [
        | none ↦ none
        | some signature ↦ some (prefix, timestamp, signature)
      ]
    ]
  ]

  unfoldable pub authenticate_api_key : ℕ → Request → Gate → Answer × Gate
  authenticate_api_key now r g = elim (read_headers r) [
    | none ↦ (refused missing_headers, g)
    | some (prefix, timestamp, signature) ↦ check_time now r prefix timestamp signature g
  ]
