-- ===== src/Session/Tests.antt =====
-- The session at concrete times.
use trade_alpha.Base.{ℕ, ◌+◌, ◌≤◌, ◌<◌, ◌≡◌, ◌≢◌, refl}
use trade_alpha.Session.{session_at, time_text, next_transition_at, opened, closed}
use trade_alpha.Session.Hours.{next_transition_is_next}

last_second : session_at 55_799 ≡ opened
unfolding session_at time_text
last_second = refl

at_close : session_at 55_800 ≡ closed
unfolding session_at time_text
at_close = refl

next_transition_is_next_example :
    let next = next_transition_at 55_800 in
    (55_800 < next)
    × (next ≤ 55_800 + 86400)
    × ((t : ℕ) → 55_800 ≤ t → t < next → session_at t ≡ session_at 55_800)
    × (session_at next ≢ session_at 55_800)
next_transition_is_next_example = next_transition_is_next 55_800
