-- ===== src/ApiKeys/Acceptance.antt =====
-- What an accepted request has shown.
use trade_alpha.Base.{
  ℕ, ◌+◌, ◌≡◌, refl, true, false, Option, none, some, ◌∷◌, String, str_eq, arith, inl, inr, ◌⊎◌,
  Bool-cases, Option-cases,
}
use trade_alpha.Int.{ℤ, pos, ◌-ℤ◌, ltb_ℤ, abs}
use trade_alpha.Store.Tables.{find, update_where}
use trade_alpha.ApiKeys.{
  ApiKey, Gate, Crypto, Request, allowed, window, has_prefix, has_key_id, is_none, has_scope,
  get_required_scope, expected_signature, holds_nonce, check_signature, check_nonce, check_key,
  check_time, read_headers, authenticate_api_key,
}

-- The state after a request that was accepted.
abbrev pub used : ℕ → String → ApiKey → Gate → Gate
used now signature k g = record g {
  keys = update_where (has_key_id k.id) (λ y. record y { last_used_at = some now }) g.keys;
  nonces = record { signature = signature; expires = now + window } ∷ g.nonces;
}

pub record IsAllowed (x : Crypto) (now : ℕ) (r : Request) (g : Gate) (k : ApiKey) : Type 0 where
  pub prefix : String
  pub timestamp : String
  pub signature : String
  pub time : ℤ
  pub headers : read_headers x r ≡ some (prefix, timestamp, signature)
  pub parsed : x.parse_int timestamp ≡ some time
  pub in_window : ltb_ℤ (pos window) (abs (pos now -ℤ time)) ≡ false
  pub found : find (has_prefix prefix) g.keys ≡ some k
  pub live : is_none k.revoked_at ≡ true
  pub fresh : find (holds_nonce x now signature) g.nonces ≡ none
  pub signed : str_eq (expected_signature x r timestamp k) signature ≡ true
  pub scoped : has_scope x (get_required_scope x r) k ≡ true

module _ (x : Crypto) (now : ℕ) (r : Request) (g g' : Gate) (user_id key_id : ℕ) where
  abbrev IsKnown : Type 0
  IsKnown =
      (k : ApiKey) × (a : IsAllowed x now r g k) × (user_id ≡ k.user_id)
      × (key_id ≡ k.id)
      × (g' ≡ used now a.signature k g)

  headers-cases :
      (h : Option (String × String × String))
      → (h ≡ none) ⊎ ((p : String) × (t : String) × (s : String) × (h ≡ some (p, t, s)))
  headers-cases none = inl refl
  headers-cases (some (p, t, s)) = inr (p, t, s, refl)

  by_key :
      (p t s : String) (time : ℤ)
      → read_headers x r ≡ some (p, t, s)
      → x.parse_int t ≡ some time
      → ltb_ℤ (pos window) (abs (pos now -ℤ time)) ≡ false
      → check_key x now r p t s g ≡ (allowed user_id key_id, g')
      → IsKnown
  unfolding check_key check_nonce check_signature
  by_key p t s time headers parsed in_window h = elim (Option-cases (find (has_prefix p) g.keys)) [
    | inl missing ↦ ground arith
    | inr (k, found) ↦ elim (Bool-cases (is_none k.revoked_at)) [
      | inr dead ↦ ground arith
      | inl live ↦ elim (Option-cases (find (holds_nonce x now s) g.nonces)) [
        | inr (n, seen) ↦ ground arith
        | inl fresh ↦ elim (Bool-cases (str_eq (expected_signature x r t k) s)) [
          | inr wrong ↦ ground arith
          | inl signed ↦ elim (Bool-cases (has_scope x (get_required_scope x r) k)) [
            | inr short ↦ ground arith
            | inl scoped ↦ (
              k,
              record {
                prefix = p;
                timestamp = t;
                signature = s;
                time = time;
                headers = headers;
                parsed = parsed;
                in_window = in_window;
                found = found;
                live = live;
                fresh = fresh;
                signed = signed;
                scoped = scoped;
              },
              ground arith,
              ground arith,
              ground arith,
            )
          ]
        ]
      ]
    ]
  ]

  -- A request that is accepted has shown all that `IsAllowed` lists, and names the owner of its key.
  pub authenticate_api_key-IsAllowed :
      authenticate_api_key x now r g ≡ (allowed user_id key_id, g') → IsKnown
  unfolding authenticate_api_key check_time
  authenticate_api_key-IsAllowed h = elim (headers-cases (read_headers x r)) [
    | inl absent ↦ ground arith
    | inr (p, t, s, headers) ↦ elim (Option-cases (x.parse_int t)) [
      | inl invalid ↦ ground arith
      | inr (time, parsed) ↦ elim (Bool-cases (ltb_ℤ (pos window) (abs (pos now -ℤ time)))) [
        | inl late ↦ ground arith
        | inr in_window ↦ by_key p t s time headers parsed in_window (ground arith)
      ]
    ]
  ]

-- A request with all of that is accepted.
pub IsAllowed-authenticate_api_key :
    (x : Crypto) (now : ℕ) (r : Request) (g : Gate) (k : ApiKey) (a : IsAllowed x now r g k)
    → authenticate_api_key x now r g ≡ (allowed k.user_id k.id, used now a.signature k g)
unfolding authenticate_api_key check_time check_key check_nonce check_signature
IsAllowed-authenticate_api_key x now r g k a =
    ground (arith, a.headers, a.parsed, a.in_window, a.found, a.live, a.fresh, a.signed, a.scoped)

pub header_signature :
    (x : Crypto) (r : Request) (p t s : String)
    → read_headers x r ≡ some (p, t, s)
    → r.signature ≡ some s
header_signature x r p t s h =
    ground (arith, Option-cases r.api_key, Option-cases r.timestamp, Option-cases r.signature)
