-- ===== src/ApiKeys/Traffic.antt =====
-- What happens to the keys and nonces over time: requests, keys that are created and revoked.
use trade_alpha.Base.{
  ℕ, ◌+◌, ◌≡◌, ◌≢◌, refl, sym, subst, ◌⊎◌, inl, inr, none, List, [], ◌∷◌, String, arith,
  Option-cases, Bool-cases,
}
use trade_alpha.Int.{pos, ◌-ℤ◌, ltb_ℤ, abs}
use trade_alpha.Store.Tables.{find}
use trade_alpha.ApiKeys.{
  ApiKey, Nonce, Gate, Crypto, Request, window, is_none, has_prefix, holds_nonce, check_signature,
  check_nonce, check_key, check_time, read_headers, authenticate_api_key, create_key, revoke_key,
}

pub data GateCall : Type 0 where
  asks : (now : ℕ) → Request → GateCall
  creates : (now user_id : ℕ) (name : String) (scopes : List String) (digits : String) → GateCall
  revokes : (now user_id key_id : ℕ) → GateCall

unfoldable pub serve : Crypto → GateCall → Gate → Gate
serve x (asks now r) g = (authenticate_api_key x now r g).1
serve x (creates now user_id name scopes digits) g =
    (create_key x now user_id name scopes digits g).1
serve x (revokes now user_id key_id) g = (revoke_key x now user_id key_id g).1

unfoldable pub serve_all : Crypto → List GateCall → Gate → Gate
serve_all x [] g = g
serve_all x (c ∷ cs) g = serve_all x cs (serve x c g)

-- The nonces are kept, and one may have been added.
abbrev Grows : Gate → Gate → Type 0
Grows g g' = (g'.nonces ≡ g.nonces) ⊎ ((n : Nonce) × (g'.nonces ≡ n ∷ g.nonces))

module _ (x : Crypto) (now : ℕ) (r : Request) where
  signature_keeps :
      (t s : String) (k : ApiKey) (g : Gate) → (check_signature x now r t s k g).1.nonces ≡ g.nonces
  unfolding check_signature
  signature_keeps t s k g = ground arith

  check_nonce-Grows :
      (t s : String) (k : ApiKey) (g : Gate) → Grows g (check_nonce x now r t s k g).1
  unfolding check_nonce
  check_nonce-Grows t s k g = elim (Option-cases (find (holds_nonce x now s) g.nonces)) [
    | inr (n, seen) ↦ inl (ground arith)
    | inl fresh ↦
        let n : Nonce = record { signature = s; expires = now + window } in
        inr (n, ground (arith, signature_keeps t s k (record g { nonces = n ∷ g.nonces })))
  ]

  check_key-Grows : (p t s : String) (g : Gate) → Grows g (check_key x now r p t s g).1
  unfolding check_key
  check_key-Grows p t s g = elim (Option-cases (find (has_prefix p) g.keys)) [
    | inl missing ↦ inl (ground arith)
    | inr (k, found) ↦ elim (Bool-cases (is_none k.revoked_at)) [
      | inr dead ↦ inl (ground arith)
      | inl live ↦
          let ends : (check_key x now r p t s g).1 ≡ (check_nonce x now r t s k g).1 =
            ground arith in
          subst (Grows g) (sym ends) (check_nonce-Grows t s k g)
    ]
  ]

  check_time-Grows : (p t s : String) (g : Gate) → Grows g (check_time x now r p t s g).1
  unfolding check_time
  check_time-Grows p t s g = elim (Option-cases (x.parse_int t)) [
    | inl unread ↦ inl (ground arith)
    | inr (time, parsed) ↦ elim (Bool-cases (ltb_ℤ (pos window) (abs (pos now -ℤ time)))) [
      | inl outside ↦ inl (ground arith)
      | inr inside ↦
          let ends : (check_time x now r p t s g).1 ≡ (check_key x now r p t s g).1 =
            ground arith in
          subst (Grows g) (sym ends) (check_key-Grows p t s g)
    ]
  ]

  authenticate_api_key-Grows : (g : Gate) → Grows g (authenticate_api_key x now r g).1
  unfolding authenticate_api_key
  authenticate_api_key-Grows g = elim (Option-cases (read_headers x r)) [
    | inl missing ↦ inl (ground (arith, missing))
    | inr ((p, t, s), read) ↦
        let ends : (authenticate_api_key x now r g).1 ≡ (check_time x now r p t s g).1 =
          ground (arith, read) in
        subst (Grows g) (sym ends) (check_time-Grows p t s g)
  ]

module _ (x : Crypto) where
  serve-Grows : (c : GateCall) (g : Gate) → Grows g (serve x c g)
  unfolding serve create_key revoke_key
  serve-Grows (asks now r) g = authenticate_api_key-Grows x now r g
  serve-Grows (creates now user_id name scopes digits) g = inl refl
  serve-Grows (revokes now user_id key_id) g = inl (ground arith)

  -- A nonce that is held is not lost by what happens later.
  pub serve_all_holds :
      (later : ℕ) (s : String) (cs : List GateCall) (g : Gate)
      → find (holds_nonce x later s) g.nonces ≢ none
      → find (holds_nonce x later s) (serve_all x cs g).nonces ≢ none
  unfolding serve_all find
  serve_all_holds later s [] g held = held
  serve_all_holds later s (c ∷ cs) g held = serve_all_holds later s cs (serve x c g) (λ lost.
      held (elim (serve-Grows c g) [ inl same ↦ ground arith | inr (n, more) ↦ ground arith ]))
