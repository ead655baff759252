-- ===== src/Auth/Tests.antt =====
-- One account, with libraries whose hash is the password and whose tokens never expire.
use trade_alpha.Base.{
  ℕ, zero, suc, ap, ◌≡◌, refl, true, none, some, [], String, str_eq, str_eq_iff, arith,
}
use trade_alpha.Store.Tables.{find}
use trade_alpha.Orders.Tests.{empty_store}
use trade_alpha.PortfolioApi.{answered}
use trade_alpha.Auth.{
  Libraries, valid, Accounts, Registered, register, login, authenticate_jwt, get_session,
  create_account, has_email,
}
use trade_alpha.Auth.Registration.{AreSound, registered_session}

-- A token is as long as the identifier of its user.
abbrev unary : ℕ → String
unary zero = ""
unary (suc n) = String.◌∷◌ "a" (unary n)

abbrev length_of : String → ℕ
length_of String.[] = 0
length_of (String.◌∷◌ c s) = suc (length_of s)

length_of-unary : (n : ℕ) → length_of (unary n) ≡ n
length_of-unary zero = refl
length_of-unary (suc n) = ap suc (length_of-unary n)

abbrev lib : Libraries
lib = record {
  hash = λ salt password. password;
  compare_hash = λ password hash. str_eq password hash;
  sign = λ id now. unary id;
  verify = λ now token. valid (length_of token);
}

lib-AreSound : AreSound lib
lib-AreSound = record {
  compare-hash = λ salt password. (str_eq_iff password password).1 refl;
  verify-sign = λ id begun now from to. ap valid (length_of-unary id);
}

abbrev no_accounts : Accounts
no_accounts = record { users = []; store = record empty_store { portfolios = [] } }

abbrev nothing_between : Accounts → Accounts
nothing_between a = a

abbrev answer : Registered
answer = record { id = 10; email = "a@b"; token = unary 10 }

was_registered :
    (register lib 100 nothing_between true "salt" (some "a@b") (some "pw") no_accounts).0
    ≡ answered answer
unfolding register create_account find
was_registered = refl

registered_session_example :
    let after = register lib 100 nothing_between true "salt" (some "a@b") (some "pw") no_accounts in
    (token : String) × (login lib 200 (some "a@b") (some "pw") after.1 ≡ answered token)
    × (authenticate_jwt lib 300 (some token) none ≡ answered 10)
    × ((portfolio_id : ℕ) × (get_session lib 300 (some token) after.1
          ≡ answered (record { id = 10; email = "a@b"; portfolio_id = some portfolio_id })))
registered_session_example =
    registered_session lib nothing_between "salt" "a@b" "pw" no_accounts lib-AreSound 100 200 300
      true answer none was_registered (omega arith) (omega arith)

no_user : find (has_email "a@b") no_accounts.users ≡ none
unfolding find
no_user = refl
