-- ===== src/Session.antt =====
-- apps/api/src/services/market-session.service.ts. An instant counts the seconds of the wall clock
-- of Asia/Kolkata, which has no daylight saving time, so that `formatInTimeZone` (date-fns-tz) is a
-- division; milliseconds are dropped, as its formats drop them. Texts are lists of ASCII codes.
pub mod Hours
pub mod Tests
use trade_alpha.Base.{
  ℕ, ◌+◌, ◌*◌, ◌/◌, ◌%◌, Bool, true, false, ◌&&◌, not, List, [], ◌∷◌, ◌++◌, ltb, leb, ◌==◌,
  if◌then◌else◌,
}
use trade_alpha.Store.Tx.{Tx, throw_if, market_closed}

pub data SessionStatus : Type 0 where
  opened closed : SessionStatus

pub record MarketSessionState : Type 0 where
  pub status : SessionStatus
  pub server_time : ℕ
  pub next_transition : ℕ

-- The order `<` of JavaScript on strings.
abbrev pub lt_text : List ℕ → List ℕ → Bool
lt_text [] [] = false
lt_text [] (_ ∷ _) = true
lt_text (_ ∷ _) [] = false
lt_text (a ∷ xs) (b ∷ ys) = if a == b then lt_text xs ys else ltb a b

-- Two decimal digits.
abbrev pub two_digits : ℕ → List ℕ
two_digits n = (b'0' + n / 10) ∷ (b'0' + n % 10) ∷ []

abbrev pub clock_text : ℕ → ℕ → ℕ → List ℕ
clock_text h m s = two_digits h ++ (b':' ∷ (two_digits m ++ (b':' ∷ two_digits s)))

abbrev pub day_seconds : ℕ
day_seconds = 86400

-- The number of the day, for the format 'yyyy-MM-dd'.
abbrev pub day_of : ℕ → ℕ
day_of t = t / day_seconds

abbrev pub second_of_day : ℕ → ℕ
second_of_day t = t % day_seconds

-- The format 'HH:mm:ss'.
unfoldable pub time_text : ℕ → List ℕ
time_text t = let s = second_of_day t in clock_text (s / 3600) (s / 60 % 60) (s % 60)

-- '09:15:00' and '15:30:00'.
abbrev pub opening_text : List ℕ
opening_text = clock_text 9 15 0

abbrev pub closing_text : List ℕ
closing_text = clock_text 15 30 0

-- `getSessionOriginState`, and the first half of `getStatus`.
unfoldable pub session_at : ℕ → SessionStatus
unfolding time_text
session_at t =
    if not (lt_text (time_text t) opening_text) && lt_text (time_text t) closing_text
    then opened
    else closed

-- `new Date(`${day}T09:15:00.000+05:30`)` and `…T15:30:00.000+05:30`.
abbrev pub opening_of : ℕ → ℕ
opening_of day = day * day_seconds + 33300

abbrev pub closing_of : ℕ → ℕ
closing_of day = day * day_seconds + 55800

unfoldable pub next_transition_at : ℕ → ℕ
unfolding session_at
next_transition_at now = elim (session_at now) [
  | closed ↦
      if lt_text (time_text now) opening_text
      then opening_of (day_of now)
      else opening_of (day_of (now + 24 * 60 * 60))
  | opened ↦ closing_of (day_of now)
]

unfoldable pub get_status : ℕ → MarketSessionState
unfolding next_transition_at
get_status now = record {
  status = session_at now;
  server_time = now;
  next_transition = next_transition_at now;
}

unfoldable pub is_open : ℕ → Bool
unfolding get_status
is_open now = elim (get_status now).status [ opened ↦ true | closed ↦ false ]

unfoldable pub assert_open : ℕ → Tx (Unit {0})
unfolding is_open
assert_open now = throw_if (not (is_open now)) market_closed
