-- ===== src/Witnesses/Client.antt =====
-- The delay before a third attempt.
use transmogr.Base.{ℕ, ◌*◌, ◌<◌, ◌≤◌, ◌≡◌, refl, some, arith}
use transmogr.Base.Int.{pos}
use transmogr.Client.Backoff.{duration, crypto_random_int, max_reconnect_delay, duration_bounds}

abbrev second : ℕ
second = 1000000000

duration_bounds_example :
    (second ≤ duration (some 77) second (pos 2))
    × (duration (some 77) second (pos 2) * 2 < max_reconnect_delay * 3)
duration_bounds_example = duration_bounds (some 77) second (pos 2) (omega arith) (omega arith)

-- The delay may exceed the limit.
over_the_limit : duration (some 29000000000) second (pos 9) ≡ 44000000000
unfolding duration crypto_random_int
over_the_limit = refl
