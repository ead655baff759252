-- ===== src/Auth/Registration.antt =====
-- What a registration is good for.
use trade_alpha.Base.{
  ℕ, ◌+◌, ◌≤◌, ◌<◌, ◌≡◌, ap, sym, subst, Bool, true, false, Option, none, some, String, arith,
  Option-cases, inl, inr, str_eq_iff, ◌∷◌,
}
use trade_alpha.Store.Tables.{find}
use trade_alpha.PortfolioApi.{Response, denied, answered}
use trade_alpha.OrderApi.{chosen_portfolio}
use trade_alpha.Auth.{
  Libraries, valid, Accounts, User, Registered, has_email, has_user_id, new_user, with_user,
  with_portfolio, create_account, register, login, authenticate_jwt, get_session,
}

module _ (lib : Libraries) where
  -- A password fits its own hash, and a token is good for an hour.
  pub record AreSound : Type 0 where
    pub compare-hash :
        (salt password : String) → lib.compare_hash password (lib.hash salt password) ≡ true
    pub verify-sign :
        (id begun now : ℕ)
        → begun ≤ now
        → now < begun + 3600
        → lib.verify now (lib.sign id begun) ≡ valid id

  module _ (interim : Accounts → Accounts) (salt email password : String) (a : Accounts) where
    -- The accounts when the rows are created, and the new user.
    abbrev before : Accounts
    before = interim a

    abbrev user : User
    user = new_user lib salt email password before

    abbrev answer_at : ℕ → Registered
    answer_at now = record { id = user.id; email = email; token = lib.sign user.id now }

    abbrev accounts_after : Accounts
    accounts_after = with_portfolio lib user.id (with_user lib user before)

    created :
        (now : ℕ) (portfolio_created : Bool) (r : Registered)
        → let after =
            register lib now interim portfolio_created salt (some email) (some password) a in
          after.0 ≡ answered r → after ≡ (answered (answer_at now), accounts_after)
    unfolding register create_account
    created now portfolio_created r h = elim (Option-cases (find (has_email email) a.users)) [
      | inr (other, there) ↦ ground arith
      | inl new ↦ elim (Option-cases (find (has_email email) before.users)) [
        | inr (other, there) ↦ ground arith
        | inl still_new ↦ ground arith
      ]
    ]

    -- The new user is the first row.
    finds_email : (b : Accounts) → find (has_email email) (user ∷ b.users) ≡ some user
    unfolding find
    finds_email b = ground (arith, str_eq_iff email email)

    finds_id : (b : Accounts) → find (has_user_id user.id) (user ∷ b.users) ≡ some user
    unfolding find
    finds_id b = ground arith

    finds_portfolio :
        chosen_portfolio user.id none accounts_after.store ≡ some (before.store.next_id + 1)
    unfolding chosen_portfolio find
    finds_portfolio = ground arith

    module _ (sound : AreSound) where
      logs_in :
          (begun : ℕ)
          → login lib begun (some email) (some password) accounts_after
            ≡ answered (lib.sign user.id begun)
      unfolding login
      logs_in begun = ground (arith, finds_email before, sound.compare-hash salt password)

      has_session :
          (begun now : ℕ)
          → begun ≤ now
          → now < begun + 3600
          → get_session lib now (some (lib.sign user.id begun)) accounts_after
            ≡ answered (record {
              id = user.id;
              email = email;
              portfolio_id = some (before.store.next_id + 1);
            })
      unfolding get_session
      has_session begun now from to =
          ground
            (arith, sound.verify-sign user.id begun now from to, finds_id before, finds_portfolio)

      is_authenticated :
          (begun now : ℕ) (header : Option (Option String))
          → begun ≤ now
          → now < begun + 3600
          → authenticate_jwt lib now (some (lib.sign user.id begun)) header ≡ answered user.id
      unfolding authenticate_jwt
      is_authenticated begun now header from to =
          ground (arith, sound.verify-sign user.id begun now from to)

      -- If a registration succeeds, then directly after it a login with the same email and
      -- password gives a token which for an hour authenticates requests as the new user, and whose
      -- session names the new user, the email and a portfolio; bcrypt is taken to accept a
      -- password for its own hash, and a token to be valid for an hour.
      pub registered_session :
          (now at_login at_use : ℕ) (portfolio_created : Bool) (r : Registered)
          (header : Option (Option String))
          → let after =
              register lib now interim portfolio_created salt (some email) (some password) a in
            after.0 ≡ answered r
            → at_login ≤ at_use
            → at_use < at_login + 3600
            → (token : String) × (login lib at_login (some email) (some password) after.1
                ≡ answered token)
              × (authenticate_jwt lib at_use (some token) header ≡ answered r.id)
              × ((portfolio_id : ℕ) × (get_session lib at_use (some token) after.1
                    ≡ answered
                        (record { id = r.id; email = email; portfolio_id = some portfolio_id })))
      registered_session now at_login at_use portfolio_created r header h from to =
          let done = created now portfolio_created r h in
          let after =
            register lib now interim portfolio_created salt (some email) (some password) a in
          let left : after.1 ≡ accounts_after = ground (arith, done) in
          let same : r.id ≡ user.id = ground (arith, done) in
          (
            lib.sign user.id at_login,
            ground (arith, left, logs_in at_login),
            ground (arith, same, is_authenticated at_login at_use header from to),
            (
              before.store.next_id + 1,
              ground (arith, left, same, has_session at_login at_use from to),
            ),
          )

    unfinished :
        (now : ℕ)
        → find (has_email email) a.users ≡ none
        → find (has_email email) before.users ≡ none
        → register lib now interim false salt (some email) (some password) a
          ≡ (denied 500, with_user lib user before)
    unfolding register create_account
    unfinished now new still_new = ground arith

    refused :
        (later : ℕ) (between : Accounts → Accounts) (flag : Bool) (drawn other : String)
        → register lib later between flag drawn
            (some email)
            (some other)
            (with_user lib user before)
          ≡ (denied 400, with_user lib user before)
    unfolding register
    refused later between flag drawn other = ground (arith, finds_email before)

    pub unfinished_registration :
        (now : ℕ)
        → find (has_email email) a.users ≡ none
        → find (has_email email) before.users ≡ none
        → let after = register lib now interim false salt (some email) (some password) a in
          (after.0 ≡ denied 500)
          × (after.1.store.portfolios ≡ before.store.portfolios)
          × ((later : ℕ) (between : Accounts → Accounts) (flag : Bool) (drawn other : String)
              → register lib later between flag drawn (some email) (some other) after.1
                ≡ (denied 400, after.1))
    unfinished_registration now new still_new =
        let ends = unfinished now new still_new in
        (
          ground (arith, ends),
          ground (arith, ends),
          λ later between flag drawn other.
              subst
                (λ (b : Accounts).
                  register lib later between flag drawn (some email) (some other) b
                  ≡ (denied 400, b))
                (sym (ap (λ (x : Response Registered × Accounts). x.1) ends))
                (refused later between flag drawn other),
        )
