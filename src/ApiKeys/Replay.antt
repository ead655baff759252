-- ===== src/ApiKeys/Replay.antt =====
-- A request that is sent again.
use trade_alpha.Base.{ℕ, ◌+◌, ◌<◌, ◌≡◌, ◌≢◌, sym, subst, none, List, ◌∷◌, String, str_eq_iff, arith}
use trade_alpha.Store.Tables.{find}
use trade_alpha.ApiKeys.{
  Nonce, Gate, Crypto, Request, allowed, window, holds_nonce, authenticate_api_key,
}
use trade_alpha.ApiKeys.Traffic.{GateCall, serve_all, serve_all_holds}
use trade_alpha.ApiKeys.Acceptance.{authenticate_api_key-IsAllowed, header_signature}

nonce_found :
    (x : Crypto) (now later : ℕ) (s : String) (ns : List Nonce)
    → later < now + window
    → find (holds_nonce x later s) (record { signature = s; expires = now + window } ∷ ns) ≢ none
unfolding find
nonce_found x now later s ns soon e = ground (arith, str_eq_iff s s)

-- After a request was accepted, no request with the same signature is accepted at a time less than
-- five minutes after it, whatever requests, at whatever times, and whatever creations and
-- revocations of keys come in between.
pub not_replayed :
    (x : Crypto) (now later : ℕ) (r again : Request) (calls : List GateCall) (g g' g'' : Gate)
    (user_id key_id other_user other_key : ℕ)
    → authenticate_api_key x now r g ≡ (allowed user_id key_id, g')
    → again.signature ≡ r.signature
    → later < now + window
    → authenticate_api_key x later again (serve_all x calls g')
      ≢ (allowed other_user other_key, g'')
not_replayed x now later r again calls g g' g'' user_id key_id other_user other_key h same soon h' =
    let (k, a, e₁, e₂, e₃) = authenticate_api_key-IsAllowed x now r g g' user_id key_id h in
    let between = serve_all x calls g' in
    let (k', b, e₄, e₅, e₆) =
      authenticate_api_key-IsAllowed x later again between g'' other_user other_key h' in
    let first = header_signature x r a.prefix a.timestamp a.signature a.headers in
    let second = header_signature x again b.prefix b.timestamp b.signature b.headers in
    let equal : b.signature ≡ a.signature = ground arith in
    let held : find (holds_nonce x later a.signature) g'.nonces ≢ none =
      subst (λ (y : Gate). find (holds_nonce x later a.signature) y.nonces ≢ none) (sym e₃)
        (nonce_found x now later a.signature g.nonces soon) in
    serve_all_holds x later a.signature calls g' held
      (subst (λ s. find (holds_nonce x later s) between.nonces ≡ none) equal b.fresh)
