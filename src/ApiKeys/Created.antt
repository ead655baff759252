-- ===== src/ApiKeys/Created.antt =====
-- What a new key is good for.
use Prim.Native.String.{◌++◌}
use trade_alpha.Base.{
  ℕ, ◌+◌, ◌≡◌, refl, ap, ◌∙◌, sym, ◌&&◌, Bool, true, false, Option, none, some, List, [], ◌∷◌,
  String, str_eq_iff, arith, Bool-cases, inl, inr, if◌then◌else◌,
}
use trade_alpha.Int.{ℤ, pos, ◌-ℤ◌, ltb_ℤ, abs}
use trade_alpha.Store.Tables.{find, filter_where}
use trade_alpha.ApiKeys.{
  ApiKey, Gate, Crypto, Request, Answer, allowed, refused, insufficient_scope, window, create_key,
  includes_scope, get_required_scope, canonical_string, secret_of, has_scope, has_prefix,
  expected_signature, holds_nonce, check_signature, check_nonce, check_key, check_time,
  read_headers, authenticate_api_key,
}
use trade_alpha.ApiKeys.Handlers.{valid_scopes, asked_scopes, final_scopes, create}

module _ (x : Crypto) where
  kept_scopes :
      (p : String → Bool) (asked : List String) (scope : String)
      → includes_scope x (filter_where p asked) scope ≡ (p scope && includes_scope x asked scope)
  unfolding filter_where
  kept_scopes p [] scope = ground arith
  kept_scopes p (s ∷ ss) scope = ground (arith, kept_scopes p ss scope, str_eq_iff s scope)

  -- The scope that a request needs is a valid one that was asked for, or it needs none.
  abbrev pub permits : List String → Option String → Bool
  permits asked none = true
  permits asked (some scope) = includes_scope x valid_scopes scope && includes_scope x asked scope

  abbrev new_key : ℕ → ℕ → String → Option (List String) → String → Gate → ApiKey
  new_key now user_id name scopes digits g = record {
    id = g.next_id;
    user_id = user_id;
    key_prefix = "TA_" ++ digits;
    secret_hash = x.bcrypt (("TA_" ++ digits) ++ "." ++ secret_of x ("TA_" ++ digits));
    name = name;
    scopes = final_scopes x scopes;
    created_at = now;
    revoked_at = none;
    last_used_at = none;
  }

  permits-has_scope :
      (k : ApiKey) (scopes : Option (List String)) (required : Option String)
      → k.scopes ≡ final_scopes x scopes
      → has_scope x required k ≡ permits (asked_scopes scopes) required
  permits-has_scope k scopes none same = refl
  permits-has_scope k scopes (some scope) same =
      rw same (kept_scopes (includes_scope x valid_scopes) (asked_scopes scopes) scope)

  module _ (now : ℕ) (r : Request) (k : ApiKey) (timestamp signature : String)
      (signed : signature ≡ expected_signature x r timestamp k) where
    verdict : Answer
    verdict =
        if has_scope x (get_required_scope x r) k
        then allowed k.user_id k.id
        else refused insufficient_scope

    signature_checked : (g : Gate) → (check_signature x now r timestamp signature k g).0 ≡ verdict
    unfolding check_signature verdict
    signature_checked g =
        let same = (str_eq_iff (expected_signature x r timestamp k) signature).1 (sym signed) in
        elim (Bool-cases (has_scope x (get_required_scope x r) k)) [
          | inl allows ↦ rw (same, allows) refl
          | inr forbids ↦ rw (same, forbids) refl
        ]

    nonce_checked :
        (g : Gate)
        → find (holds_nonce x now signature) g.nonces ≡ none
        → (check_nonce x now r timestamp signature k g).0 ≡ verdict
    unfolding check_nonce
    nonce_checked g fresh =
        let noted : Gate = record g {
          nonces = record { signature = signature; expires = now + window } ∷ g.nonces;
        } in
        let goes_on : check_nonce x now r timestamp signature k g
            ≡ check_signature x now r timestamp signature k noted =
          ground arith in
        ap (λ (a : Answer × Gate). a.0) goes_on ∙ signature_checked noted

    key_checked :
        (g : Gate) (rest : List ApiKey)
        → g.keys ≡ k ∷ rest
        → k.revoked_at ≡ none
        → find (holds_nonce x now signature) g.nonces ≡ none
        → (check_key x now r k.key_prefix timestamp signature g).0 ≡ verdict
    unfolding check_key find
    key_checked g rest keys live fresh =
        let found : find (has_prefix k.key_prefix) g.keys ≡ some k =
          ground (arith, str_eq_iff k.key_prefix k.key_prefix) in
        ground (arith, found, nonce_checked g fresh)

    request_checked :
        (g : Gate) (rest : List ApiKey) (time : ℤ)
        → g.keys ≡ k ∷ rest
        → k.revoked_at ≡ none
        → find (holds_nonce x now signature) g.nonces ≡ none
        → read_headers x r ≡ some (k.key_prefix, timestamp, signature)
        → x.parse_int timestamp ≡ some time
        → ltb_ℤ (pos window) (abs (pos now -ℤ time)) ≡ false
        → (authenticate_api_key x now r g).0 ≡ verdict
    unfolding authenticate_api_key check_time
    request_checked g rest time keys live fresh headers parsed in_window =
        ground (arith, key_checked g rest keys live fresh)

  -- A request that is signed with the secret of a key.
  pub record IsSigned (now : ℕ) (r : Request) (prefix : String) (g : Gate) : Type 0 where
    pub timestamp : String
    pub signature : String
    pub time : ℤ
    pub headers : read_headers x r ≡ some (prefix, timestamp, signature)
    pub parsed : x.parse_int timestamp ≡ some time
    pub in_window : ltb_ℤ (pos window) (abs (pos now -ℤ time)) ≡ false
    pub fresh : find (holds_nonce x now signature) g.nonces ≡ none
    pub signed : signature ≡ x.hmac_hex (secret_of x prefix) (canonical_string x r timestamp)

  -- Directly after a user has created a key, a request within the time window that names its
  -- prefix, is signed with its secret and has an unused signature is accepted for that user and
  -- key, if the scope it needs is a valid one that was asked for or it needs none, and is refused
  -- for its scope otherwise.
  pub created_key_accepted :
      (begun now user_id : ℕ) (name digits : String) (scopes : Option (List String)) (g : Gate)
      (r : Request)
      → IsSigned now r ("TA_" ++ digits) g
      → let after = (create x begun (some user_id) (some name) scopes digits g).1 in
        (authenticate_api_key x now r after).0 ≡ (
          if permits (asked_scopes scopes) (get_required_scope x r)
          then allowed user_id g.next_id
          else refused insufficient_scope)
  unfolding create create_key verdict
  created_key_accepted begun now user_id name digits scopes g r h =
      let k = new_key begun user_id name scopes digits g in
      let after : Gate = record g { keys = k ∷ g.keys; next_id = g.next_id + 1 } in
      let allowed_by = permits-has_scope k scopes (get_required_scope x r) refl in
      request_checked now r k h.timestamp h.signature h.signed after g.keys h.time refl refl h.fresh
        h.headers h.parsed h.in_window
      ∙ ap (λ b. if b then allowed user_id g.next_id else refused insufficient_scope) allowed_by
