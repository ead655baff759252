-- ===== src/ApiKeys/Tests.antt =====
-- A signed request, with hashes that only join their texts.
use Prim.Native.String.{◌++◌}
use trade_alpha.Base.{
  ◌≡◌, ◌≢◌, refl, Option, none, some, List, [], ◌∷◌, String, arith, if◌then◌else◌,
}
use trade_alpha.Int.{pos, ◌-ℤ◌, abs}
use trade_alpha.Store.Tables.{find, update_where}
use trade_alpha.ApiKeys.{
  ApiKey, Gate, Crypto, Request, allowed, refused, insufficient_scope, secret_of, canonical_string,
  get_required_scope, has_prefix, has_key_id, expected_signature, check_signature, check_nonce,
  check_key, check_time, authenticate_api_key,
}
use trade_alpha.ApiKeys.Traffic.{GateCall, asks, creates, revokes, serve_all}
use trade_alpha.ApiKeys.Replay.{not_replayed}
use trade_alpha.ApiKeys.Handlers.{create, asked_scopes}
use trade_alpha.ApiKeys.Created.{IsSigned, permits, created_key_accepted}

abbrev crypto : Crypto
crypto = record {
  hmac_base64 = λ key text. key ++ text;
  hmac_hex = λ key text. key ++ text;
  bcrypt = λ text. text;
  master_secret = "secret";
  parse_int = λ _. some (pos 1000);
}

abbrev key : ApiKey
key = record {
  id = 1;
  user_id = 7;
  key_prefix = "TA_1";
  secret_hash = "";
  name = "bot";
  scopes = "orders:read" ∷ [];
  created_at = 0;
  revoked_at = none;
  last_used_at = none;
}

abbrev gate : Gate
gate = record { keys = key ∷ []; nonces = []; next_id = 2 }

abbrev unsigned : Request
unsigned = record {
  api_key = some "TA_1";
  timestamp = some "1000";
  signature = none;
  method = "GET";
  original_url = "/api/public/orders";
  path = "/api/public/orders";
  body = "";
}

abbrev request : Request
request = record unsigned { signature = some (expected_signature crypto unsigned "1000" key) }

after_request : Gate
after_request = (authenticate_api_key crypto 1000 request gate).1

accepted : authenticate_api_key crypto 1000 request gate ≡ (allowed 7 1, after_request)
unfolding after_request authenticate_api_key check_time check_key check_nonce check_signature find
    update_where abs ◌-ℤ◌
accepted = refl

-- Meanwhile a key is created, a request without headers comes, and a key is revoked.
abbrev meanwhile : List GateCall
meanwhile =
    creates 2000 7 "other" ("orders:read" ∷ []) "2"
    ∷ asks 3000 (record unsigned { api_key = none })
    ∷ revokes 4000 7 2
    ∷ []

not_replayed_example :
    authenticate_api_key crypto 5000 request (serve_all crypto meanwhile after_request)
    ≢ (allowed 7 1, after_request)
not_replayed_example =
    not_replayed crypto 1000 5000 request request meanwhile gate after_request after_request 7 1 7 1
      accepted refl (omega arith)

by_id : find (has_key_id 1) gate.keys ≡ some key
unfolding find
by_id = refl

by_prefix : find (has_prefix "TA_1") gate.keys ≡ some key
unfolding find
by_prefix = refl

abbrev no_keys : Gate
no_keys = record { keys = []; nonces = []; next_id = 2 }

abbrev asked : Option (List String)
asked = some ("orders:read" ∷ "admin" ∷ [])

abbrev signed_request : Request
signed_request = record unsigned {
  signature =
      some (crypto.hmac_hex (secret_of crypto "TA_1") (canonical_string crypto unsigned "1000"));
}

request-IsSigned : IsSigned crypto 1000 signed_request "TA_1" no_keys
unfolding find abs ◌-ℤ◌
request-IsSigned = record {
  timestamp = "1000";
  signature = crypto.hmac_hex (secret_of crypto "TA_1") (canonical_string crypto unsigned "1000");
  time = pos 1000;
  headers = refl;
  parsed = refl;
  in_window = refl;
  fresh = refl;
  signed = refl;
}

created_key_accepted_example :
    (authenticate_api_key crypto 1000 signed_request
      (create crypto 900 (some 7) (some "bot") asked "1" no_keys).1).0
    ≡ (if permits crypto (asked_scopes asked) (get_required_scope crypto signed_request)
        then allowed 7 2
        else refused insufficient_scope)
created_key_accepted_example =
    created_key_accepted crypto 900 1000 7 "bot" "1" asked no_keys signed_request request-IsSigned
