-- ===== src/Auth.antt =====
-- apps/api/src/controllers/auth.controller.ts, apps/api/src/middlewares/auth.middleware.ts and
-- csrf.middleware.ts: accounts, tokens and who a request comes from. Instants count seconds. The
-- libraries bcrypt and jsonwebtoken are a parameter; an empty text counts as none, as `!email` does.
-- The last row of a table stands first. Cookies are what a response carries in its body here.
pub mod Registration
pub mod Tests
use trade_alpha.Base.{
  ℕ, ◌+◌, ◌==◌, Bool, true, false, not, ◌||◌, Option, none, some, List, [], ◌∷◌, String, str_eq,
  if◌then◌else◌,
}
use trade_alpha.Int.{pos}
use trade_alpha.Store.Rows.{Store, Portfolio}
use trade_alpha.Store.Tables.{find}
use trade_alpha.PortfolioApi.{Response, denied, answered}
use trade_alpha.OrderApi.{chosen_portfolio}

-- What `jwt.verify` says of a token.
pub data Verdict : Type 0 where
  valid : (sub : ℕ) → Verdict
  token_expired bad_token : Verdict

-- `bcrypt.hash` with the salt it draws, `bcrypt.compare`, `jwt.sign` for a user at an instant, and
-- `jwt.verify` at one.
pub record Libraries : Type 0 where
  pub hash : String → String → String
  pub compare_hash : String → String → Bool
  pub sign : ℕ → ℕ → String
  pub verify : ℕ → String → Verdict

pub record User : Type 0 where
  pub id : ℕ
  pub email : String
  pub password_hash : String

pub record Accounts : Type 0 where
  pub users : List User
  pub store : Store

pub record Registered : Type 0 where
  pub id : ℕ
  pub email : String
  pub token : String

abbrev pub has_email : String → User → Bool
has_email email u = str_eq u.email email

abbrev pub has_user_id : ℕ → User → Bool
has_user_id id u = u.id == id

-- A row of `portfolios` with its defaults.
abbrev pub new_portfolio : ℕ → ℕ → Portfolio
new_portfolio id user_id = record {
  id = id;
  user_id = user_id;
  total_cash = pos 0;
  locked_cash = pos 0;
  is_margin_enabled = false;
  locked_margin = pos 0;
}

module _ (lib : Libraries) where
  abbrev pub new_user : String → String → String → Accounts → User
  new_user salt email password a = record {
    id = a.store.next_id;
    email = email;
    password_hash = lib.hash salt password;
  }

  -- The table of users with a new row.
  abbrev pub with_user : User → Accounts → Accounts
  with_user user a = record {
    users = user ∷ a.users;
    store = record a.store { next_id = a.store.next_id + 1 };
  }

  abbrev pub with_portfolio : ℕ → Accounts → Accounts
  with_portfolio user_id a = record a {
    store = record a.store {
      portfolios = new_portfolio a.store.next_id user_id ∷ a.store.portfolios;
      next_id = a.store.next_id + 1;
    };
  }

  -- The two rows are created one after the other, not in a transaction: `portfolio_created` tells
  -- whether the second query succeeds. `prisma.user.create` throws if the email is there by then.
  unfoldable pub create_account :
      ℕ → Bool → String → String → String → Accounts → Response Registered × Accounts
  create_account now portfolio_created salt email password a =
      let user = new_user salt email password a in
      elim (find (has_email email) a.users) as (λ _. Response Registered × Accounts) [
        | some _ ↦ (denied 500, a)
        | none ↦ if not portfolio_created then (denied 500, with_user user a) else (
          answered (record { id = user.id; email = email; token = lib.sign user.id now }),
          with_portfolio user.id (with_user user a),
        )
      ]

  -- Between the look for the email and the new rows other calls run: `interim`.
  unfoldable pub register :
      ℕ
      → (Accounts → Accounts)
      → Bool
      → String
      → Option String
      → Option String
      → Accounts
      → Response Registered × Accounts
  register now interim portfolio_created salt none password a = (denied 400, a)
  register now interim portfolio_created salt (some email) none a = (denied 400, a)
  register now interim portfolio_created salt (some email) (some password) a =
      elim (find (has_email email) a.users) [
        | some _ ↦ (denied 400, a)
        | none ↦ create_account now portfolio_created salt email password (interim a)
      ]

  -- The token of the answer.
  unfoldable pub login : ℕ → Option String → Option String → Accounts → Response String
  login now none password a = denied 400
  login now (some email) none a = denied 400
  login now (some email) (some password) a = elim (find (has_email email) a.users) [
    | none ↦ denied 401
    | some user ↦
        if not (lib.compare_hash password user.password_hash)
        then denied 401
        else answered (lib.sign user.id now)
  ]

  abbrev pub user_of_token : ℕ → String → Response ℕ
  user_of_token now token = elim (lib.verify now token) [
    | valid sub ↦ answered sub
    | token_expired ↦ denied 401
    | bad_token ↦ denied 401
  ]

  -- The cookie, or the second word of the header, if there is a header.
  unfoldable pub authenticate_jwt : ℕ → Option String → Option (Option String) → Response ℕ
  authenticate_jwt now (some token) header = user_of_token now token
  authenticate_jwt now none none = denied 401
  authenticate_jwt now none (some none) = denied 401
  authenticate_jwt now none (some (some token)) = user_of_token now token

  pub record SessionAnswer : Type 0 where
    pub id : ℕ
    pub email : String
    pub portfolio_id : Option ℕ

  unfoldable pub get_session : ℕ → Option String → Accounts → Response SessionAnswer
  get_session now none a = denied 401
  get_session now (some token) a = elim (lib.verify now token) [
    | token_expired ↦ denied 401
    | bad_token ↦ denied 401
    | valid sub ↦ elim (find (has_user_id sub) a.users) [
      | none ↦ denied 401
      | some user ↦ answered (record {
        id = user.id;
        email = user.email;
        portfolio_id = chosen_portfolio user.id none a.store;
      })
    ]
  ]

-- Whether a request goes on: a method that changes nothing, or a cookie that the header repeats.
unfoldable pub require_csrf_token : String → Option String → Option String → Bool
require_csrf_token method cookie header =
    if str_eq method "GET" || str_eq method "HEAD" || str_eq method "OPTIONS"
    then true
    else elim cookie [ none ↦ false | some c ↦ elim header [ none ↦ false | some h ↦ str_eq c h ] ]
