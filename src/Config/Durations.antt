-- ===== src/Config/Durations.antt =====
-- The durations of config.go: products of 64-bit integers.
use go_webhook_processor.Prelude.{ℕ, ◌*◌, ◌<◌, ◌^◌, ◌≡◌, arith}
use go_webhook_processor.Prelude.Int.{pos, ◌*ℤ◌, wrap64-pos}
use go_webhook_processor.Config.{Config, times, retry_backoff}

mul_pos : (a b : ℕ) → pos a *ℤ pos b ≡ pos (a * b)
unfolding ◌*ℤ◌
mul_pos a b = ground arith

times-exact : (n unit : ℕ) → n * unit < 2 ^ 63 → times (pos n) (pos unit) ≡ pos (n * unit)
unfolding times
times-exact n unit h = rw (mul_pos n unit) (wrap64-pos (n * unit) h)

below : (n : ℕ) → n * 1000000000 < 2 ^ 63 → n < 2 ^ 63
below n h = omega arith

-- For a natural number of seconds and of attempts whose product in nanoseconds fits in 63 bits,
-- the retry backoff is that product.
retry_backoff_is_linear :
    (c : Config) (seconds attempt : ℕ)
    → c.retry_backoff_seconds ≡ pos seconds
    → seconds * attempt * 1000000000 < 2 ^ 63
    → retry_backoff c (pos attempt) ≡ pos (seconds * attempt * 1000000000)
unfolding retry_backoff
retry_backoff_is_linear c seconds attempt e h =
    rw (e, mul_pos seconds attempt, wrap64-pos (seconds * attempt) (below (seconds * attempt) h))
      (times-exact (seconds * attempt) 1000000000 h)
