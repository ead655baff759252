-- ===== src/ApiKeys/Handlers.antt =====
-- apps/api/src/controllers/api-keys.controller.ts: what the handlers of keys answer, and the limiter's
-- key in apps/api/src/middlewares/rate-limit.middleware.ts.
use Prim.Native.String.{◌++◌}
use trade_alpha.Base.{ℕ, Option, none, some, List, [], ◌∷◌, String, map}
use trade_alpha.Store.Tables.{filter_where}
use trade_alpha.PortfolioApi.{Response, denied, answered}
use trade_alpha.ApiKeys.{ApiKey, Gate, Crypto, create_key, list_keys, revoke_key, includes_scope}

abbrev pub valid_scopes : List String
valid_scopes = "orders:read" ∷ "orders:write" ∷ "portfolio:read" ∷ []

-- A key without its hash.
pub record KeyView : Type 0 where
  pub id : ℕ
  pub name : String
  pub key_prefix : String
  pub scopes : List String
  pub created_at : ℕ
  pub last_used_at : Option ℕ

abbrev pub view_of : ApiKey → KeyView
view_of k = record {
  id = k.id;
  name = k.name;
  key_prefix = k.key_prefix;
  scopes = k.scopes;
  created_at = k.created_at;
  last_used_at = k.last_used_at;
}

-- Scopes that are no array count as none.
abbrev pub asked_scopes : Option (List String) → List String
asked_scopes none = []
asked_scopes (some scopes) = scopes

module _ (x : Crypto) where
  abbrev pub final_scopes : Option (List String) → List String
  final_scopes scopes = filter_where (includes_scope x valid_scopes) (asked_scopes scopes)

  -- A name that is no text or empty is none. The answer holds the plain secret.
  unfoldable pub create :
      ℕ
      → Option ℕ
      → Option String
      → Option (List String)
      → String
      → Gate
      → Response (KeyView × String) × Gate
  create now none name scopes digits g = (denied 401, g)
  create now (some user_id) none scopes digits g = (denied 400, g)
  create now (some user_id) (some name) scopes digits g =
      let ((key, plain), g') = create_key x now user_id name (final_scopes scopes) digits g in
      (answered (view_of key, plain), g')

  unfoldable pub list : Option ℕ → Gate → Response (List KeyView)
  list none g = denied 401
  list (some user_id) g = answered (map view_of (list_keys x user_id g))

  unfoldable pub revoke : ℕ → Option ℕ → ℕ → Gate → Response (Unit {0}) × Gate
  revoke now none key_id g = (denied 401, g)
  revoke now (some user_id) key_id g =
      let (found, g') = revoke_key x now user_id key_id g in
      (elim found [ none ↦ denied 404 | some _ ↦ answered tt ], g')

-- `keyGenerator`, for what the middlewares before it have found out.
unfoldable pub key_generator : Option String → Option String → Option String → String
key_generator (some api_key_id) user ip = "apikey:" ++ api_key_id
key_generator none (some user_id) ip = "user:" ++ user_id
key_generator none none (some ip) = "ip:" ++ ip
key_generator none none none = "ip:unknown"
