-- ===== src/Session/Hours.antt =====
-- The trading hours, and the transition that is announced.
use trade_alpha.Base.{
  ℕ, ◌+◌, ◌/◌, ◌%◌, ◌≤◌, ◌<◌, ◌≡◌, ◌≢◌, ◌↔◌, false, List, [], ◌∷◌, ◌++◌, ltb, ◌==◌, if◌then◌else◌,
  arith,
}
use trade_alpha.Session.{
  opened, closed, lt_text, two_digits, clock_text, time_text, session_at, next_transition_at,
  second_of_day, day_of, opening_of, closing_of, opening_text, closing_text,
}

-- Two-digit texts compare as their numbers, and then by what follows.
lt_text-two_digits :
    (a b : ℕ) (xs ys : List ℕ)
    → a < 100
    → b < 100
    → lt_text (two_digits a ++ xs) (two_digits b ++ ys)
      ≡ (if a == b then lt_text xs ys else ltb a b)
lt_text-two_digits a b xs ys h k = ground arith

lt_text-clock_text :
    (h m s h' m' s' : ℕ)
    → h < 100
    → m < 100
    → s < 100
    → h' < 100
    → m' < 100
    → s' < 100
    → lt_text (clock_text h m s) (clock_text h' m' s') ≡ (
        if h == h'
        then (if m == m' then (if s == s' then false else ltb s s') else ltb m m')
        else ltb h h')
lt_text-clock_text h m s h' m' s' p q r p' q' r' = ground (
  arith,
  lt_text-two_digits h h' (b':' ∷ (two_digits m ++ (b':' ∷ two_digits s)))
      (b':' ∷ (two_digits m' ++ (b':' ∷ two_digits s'))) p p',
  lt_text-two_digits m m' (b':' ∷ two_digits s) (b':' ∷ two_digits s') q q',
  lt_text-two_digits s s' [] [] r r',
)

lt_opening : (t : ℕ) → lt_text (time_text t) opening_text ≡ ltb (second_of_day t) 33300
unfolding time_text
lt_opening t =
    let s = second_of_day t in
    ground (
      arith,
      lt_text-clock_text (s / 3600) (s / 60 % 60) (s % 60) 9 15 0 (omega arith) (omega arith)
          (omega arith) (omega arith) (omega arith) (omega arith),
    )

lt_closing : (t : ℕ) → lt_text (time_text t) closing_text ≡ ltb (second_of_day t) 55800
unfolding time_text
lt_closing t =
    let s = second_of_day t in
    ground (
      arith,
      lt_text-clock_text (s / 3600) (s / 60 % 60) (s % 60) 15 30 0 (omega arith) (omega arith)
          (omega arith) (omega arith) (omega arith) (omega arith),
    )

session_at_lem :
    (t : ℕ)
    → session_at t ≡ (
        if ltb (second_of_day t) 33300
        then closed
        else if ltb (second_of_day t) 55800
        then opened
        else closed)
unfolding session_at
session_at_lem t = ground (arith, lt_opening t, lt_closing t)

next_transition_at_lem :
    (t : ℕ)
    → next_transition_at t ≡ (
        if ltb (second_of_day t) 33300
        then opening_of (day_of t)
        else if ltb (second_of_day t) 55800
        then closing_of (day_of t)
        else opening_of (day_of t + 1))
unfolding next_transition_at
next_transition_at_lem t = ground (arith, session_at_lem t, lt_opening t)

-- The session is open exactly from 09:15:00 until before 15:30:00 of a day.
pub session_at_iff :
    (t : ℕ) → (session_at t ≡ opened) ↔ ((33300 ≤ second_of_day t) × (second_of_day t < 55800))
session_at_iff t = ground (arith, session_at_lem t)

same_until_next : (now t : ℕ) → now ≤ t → t < next_transition_at now → session_at t ≡ session_at now
same_until_next now t h k =
    ground (arith, session_at_lem t, session_at_lem now, next_transition_at_lem now)

changes_at_next : (now : ℕ) → session_at (next_transition_at now) ≢ session_at now
changes_at_next now =
    ground (
      arith,
      session_at_lem (next_transition_at now),
      session_at_lem now,
      next_transition_at_lem now,
    )

-- The announced transition is the next one: it lies ahead, by at most a day, the status is the
-- same at every instant before it, and another one at it.
pub next_transition_is_next :
    (now : ℕ)
    → let next = next_transition_at now in
      (now < next)
      × (next ≤ now + 86400)
      × ((t : ℕ) → now ≤ t → t < next → session_at t ≡ session_at now)
      × (session_at next ≢ session_at now)
next_transition_is_next now = (
  ground (arith, next_transition_at_lem now),
  ground (arith, next_transition_at_lem now),
  same_until_next now,
  changes_at_next now,
)
