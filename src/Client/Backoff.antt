-- ===== src/Client/Backoff.antt =====
-- internal/transport/grpc/client/backoff.go. Durations are numbers of nanoseconds that are not negative,
-- and far below 2^63: one is doubled only below the limit of 30 seconds. The random bytes are a
-- parameter, `none` where they cannot be read.
use transmogr.Base.{
  ℕ, zero, suc, ◌+◌, ◌*◌, ◌/◌, ◌%◌, ◌<◌, ◌≤◌, Option, none, some, arith, ltb, leb, nat_beq,
  if◌then◌else◌,
}
use transmogr.Base.Int.{ℤ, pos_part}

abbrev pub max_reconnect_delay : ℕ
max_reconnect_delay = 30000000000

-- cryptoRandomInt: eight bytes as a uint64.
unfoldable pub crypto_random_int : Option ℕ → ℕ → ℕ
crypto_random_int none limit = 0
crypto_random_int (some value) limit = if leb limit 1 then 0 else value % limit

doubled : ℕ → ℕ → ℕ
doubled max delay = if ltb max (delay * 2) then max else delay * 2

-- The loop over the attempts.
unfoldable pub grown : ℕ → ℕ → ℕ → ℕ
unfolding doubled
grown max zero delay = delay
grown max (suc n) delay =
    let rest = grown max n (doubled max delay) in if leb max delay then max else rest

unfoldable pub jittered : Option ℕ → ℕ → ℕ → ℕ
jittered random base delay =
    let d = delay / 2 + crypto_random_int random delay in if ltb d base then base else d

unfoldable pub duration : Option ℕ → ℕ → ℤ → ℕ
unfolding grown jittered
duration random base attempt =
    let delay = grown max_reconnect_delay (pos_part attempt) base in
    if nat_beq delay 0 then 0 else jittered random base delay

grown-le : (max n delay : ℕ) → delay ≤ max → (delay ≤ grown max n delay) × (grown max n delay ≤ max)
unfolding grown doubled
grown-le max zero delay h = (omega arith, h)
grown-le max (suc n) delay h = ground (arith, h, grown-le max n (doubled max delay))

random_lt : (random : Option ℕ) (limit : ℕ) → 0 < limit → crypto_random_int random limit < limit
unfolding crypto_random_int
random_lt none limit h = h
random_lt (some v) limit h = ground (arith, h)

-- The delay before a reconnection is never below the configured one, and below one and a half times the
-- limit, for every attempt and whatever the random bytes are. The configured one is within the limit.
pub duration_bounds :
    (random : Option ℕ) (base : ℕ) (attempt : ℤ)
    → 0 < base
    → base ≤ max_reconnect_delay
    → (base ≤ duration random base attempt)
      × (duration random base attempt * 2 < max_reconnect_delay * 3)
unfolding duration jittered
duration_bounds random base attempt h l =
    let d = grown max_reconnect_delay (pos_part attempt) base in
    let within = grown-le max_reconnect_delay (pos_part attempt) base l in
    ground (arith, h, l, within, random_lt random d)
