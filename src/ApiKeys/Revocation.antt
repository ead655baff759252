-- ===== src/ApiKeys/Revocation.antt =====
-- A key that its owner has revoked.
use trade_alpha.Base.{
  ℕ, ◌≡◌, ◌≢◌, refl, subst, false, some, String, arith, inl, inr, Bool-cases, Option-cases,
}
use trade_alpha.Store.Tables.{find, find_sound, find-update_where_by}
use trade_alpha.ApiKeys.{
  ApiKey, Gate, Crypto, Request, allowed, has_prefix, has_key_id, is_none, read_headers, revoke_key,
  authenticate_api_key,
}
use trade_alpha.ApiKeys.Acceptance.{authenticate_api_key-IsAllowed}

header_prefix :
    (x : Crypto) (r : Request) (p t s : String)
    → read_headers x r ≡ some (p, t, s)
    → r.api_key ≡ some p
header_prefix x r p t s h =
    ground (arith, Option-cases r.api_key, Option-cases r.timestamp, Option-cases r.signature)

module _ (x : Crypto) (now user_id key_id : ℕ) (g : Gate) (k : ApiKey) where
  -- The row of the prefix after the revocation is revoked.
  revoked_row :
      find (has_key_id key_id) g.keys ≡ some k
      → find (has_prefix k.key_prefix) g.keys ≡ some k
      → k.user_id ≡ user_id
      → (k' : ApiKey) × (find (has_prefix k.key_prefix) (revoke_key x now user_id key_id g).1.keys
          ≡ some k')
        × (is_none k'.revoked_at ≡ false)
  unfolding revoke_key
  revoked_row by_id by_prefix owner =
      let revoke : ApiKey → ApiKey = λ y. record y { revoked_at = some now } in
      let kept =
        find-update_where_by (has_prefix k.key_prefix) (has_key_id key_id) revoke g.keys {x = k}
          (λ y. refl) by_prefix in
      let hit = find_sound (has_key_id key_id) g.keys by_id in
      elim (Bool-cases (is_none k.revoked_at)) [
        | inl live ↦ (revoke k, ground arith, refl)
        | inr dead ↦ (k, ground arith, dead)
      ]

  -- If the key of an identifier belongs to the user and is also the one found by its prefix, then
  -- directly after the user has revoked it no request that names its prefix is accepted.
  pub revoked_refused :
      (later : ℕ) (r : Request) (g' : Gate) (some_user some_key : ℕ)
      → find (has_key_id key_id) g.keys ≡ some k
      → find (has_prefix k.key_prefix) g.keys ≡ some k
      → k.user_id ≡ user_id
      → r.api_key ≡ some k.key_prefix
      → authenticate_api_key x later r (revoke_key x now user_id key_id g).1
        ≢ (allowed some_user some_key, g')
  revoked_refused later r g' some_user some_key by_id by_prefix owner header h =
      let (k', written, dead) = revoked_row by_id by_prefix owner in
      let (j, a, e₁, e₂, e₃) = authenticate_api_key-IsAllowed x later r _ g' some_user some_key h in
      let read = header_prefix x r a.prefix a.timestamp a.signature a.headers in
      let same : a.prefix ≡ k.key_prefix = ground arith in
      let found =
        subst (λ p. find (has_prefix p) (revoke_key x now user_id key_id g).1.keys ≡ some j) same
          a.found in
      ground (arith, a.live)
