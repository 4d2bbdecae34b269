-- ===== src/Dlq/Delay.antt =====
-- retryDelay of dlq_retry.go: the bounds of its exponential backoff.
use go_webhook_processor.Prelude.{
  ℕ, zero, suc, ◌+◌, ◌*◌, ◌/◌, ◌≤◌, ◌<◌, ◌≡◌, refl, ◌⊎◌, inl, inr, none, some, arith, Bool-cases,
  leb, if◌then◌else◌,
}
use go_webhook_processor.Prelude.Int.{
  ℤ, pos, pos_part, ◌-ℤ◌, eqb_ℤ, wrap64-pos, double_pos, add_pos,
}
use go_webhook_processor.Dlq.{day, quarter, doubled, jittered, retry_delay}

abbrev nanoseconds_of_day : ℕ
nanoseconds_of_day = 86400000000000

-- The waiting time before the jitter: doubled for each attempt after the first, up to a day.
abbrev pub base_delay : ℕ → ℕ → ℕ
base_delay zero delay = delay
base_delay (suc steps) delay =
    if leb nanoseconds_of_day (delay * 2) then nanoseconds_of_day else base_delay steps (delay * 2)

module _ (random : ℤ → ℤ)
    (law : (n : ℕ) → 0 < n → (r : ℕ) × (random (pos n) ≡ pos r) × (r < n)) where
  jittered_bounds :
      (base : ℕ)
      → base < nanoseconds_of_day
      → (delay : ℕ) × (jittered random (pos base) ≡ some (pos delay))
        × (base ≤ delay)
        × (delay ≤ base + base / 4)
  jittered_bounds base h =
      let (r, e, lt) = law (base / 4 + 1) (ground arith) in
      elim (Bool-cases (eqb_ℤ (quarter (pos base)) (pos 0))) [
        | inl zero_quarter ↦
            (base, ground (arith, wrap64-pos (base / 4 + 1)), ground arith, ground arith)
        | inr some_quarter ↦ (
          base + r,
          ground (
            arith,
            wrap64-pos (base / 4 + 1),
            wrap64-pos (base + r),
            add_pos (base / 4) 1,
            add_pos base r,
          ),
          ground arith,
          ground arith,
        )
      ]

doubled_cases :
    (steps base : ℕ)
    → 0 < base
    → base < nanoseconds_of_day
    → ((doubled steps (pos base) ≡ none) × (base_delay steps base ≡ nanoseconds_of_day))
      ⊎ ((doubled steps (pos base) ≡ some (pos (base_delay steps base)))
          × (base_delay steps base < nanoseconds_of_day))
unfolding doubled
doubled_cases zero base p h = inr (refl, h)
doubled_cases (suc steps) base p h = elim (Bool-cases (leb nanoseconds_of_day (base * 2))) [
  | inl over ↦ inl (ground (arith, double_pos base, wrap64-pos (base * 2)), ground arith)
  | inr under ↦
      ground (arith, double_pos base, wrap64-pos (base * 2), doubled_cases steps (base * 2))
]

pred_pos : (n : ℕ) → pos_part (pos (suc n) -ℤ pos 1) ≡ n
unfolding ◌-ℤ◌
pred_pos n = ground arith

-- The same for any attempt, without the bounds.
pub retry_delay_total :
    (random : ℤ → ℤ) (interval : ℕ) (attempt : ℤ)
    → ((n : ℕ) → 0 < n → (r : ℕ) × (random (pos n) ≡ pos r) × (r < n))
    → 0 < interval
    → interval < nanoseconds_of_day
    → (delay : ℤ) × (retry_delay random (pos interval) attempt ≡ some delay)
unfolding retry_delay
retry_delay_total random interval attempt law p h =
    let steps = pos_part (attempt -ℤ pos 1) in
    elim (doubled_cases steps interval p h) [
      | inl (capped, base) ↦ (day, ground (arith, capped))
      | inr (uncapped, under) ↦
          let (delay, e, low, high) =
            jittered_bounds random law (base_delay steps interval) under in
          (pos delay, ground (arith, uncapped, e))
    ]

-- If the random source answers n > 0 with a number below n, then for a positive interval of less
-- than a day retry_delay answers (so it does not panic), with at least the interval doubled for
-- each attempt after the first and capped at a day, and at most a quarter more.
pub retry_delay_bounds :
    (random : ℤ → ℤ) (interval attempt : ℕ)
    → ((n : ℕ) → 0 < n → (r : ℕ) × (random (pos n) ≡ pos r) × (r < n))
    → 0 < interval
    → interval < nanoseconds_of_day
    → let base = base_delay attempt interval in
      (delay : ℕ) × (retry_delay random (pos interval) (pos (suc attempt)) ≡ some (pos delay))
      × (base ≤ delay)
      × (delay ≤ base + base / 4)
unfolding retry_delay
retry_delay_bounds random interval attempt law p h = elim (doubled_cases attempt interval p h) [
  | inl (capped, base) ↦
      (nanoseconds_of_day, ground (arith, pred_pos attempt), ground arith, ground arith)
  | inr (uncapped, under) ↦
      let (delay, e, low, high) = jittered_bounds random law (base_delay attempt interval) under in
      (delay, ground (arith, pred_pos attempt), low, high)
]
