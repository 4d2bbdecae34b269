-- ===== src/Metrics/Maximum.antt =====
-- The compare-and-swap loop of latency-metrics.go for the longest duration.
use go_webhook_processor.Prelude.{◌≡◌, List, [], ◌∷◌, ◌++◌, All, subst, arith, if◌then◌else◌}
use go_webhook_processor.Prelude.Int.{ℤ, ◌≤ℤ◌, ltb_ℤ, eqb_ℤ}
use go_webhook_processor.Metrics.{raise_max}

-- The counter only rises, from one value to the next.
abbrev pub Rises : List ℤ → Type 0
Rises [] = Unit
Rises (n ∷ []) = Unit
Rises (n ∷ m ∷ values) = (n ≤ℤ m) × Rises (m ∷ values)

abbrev pub larger : ℤ → ℤ → ℤ
larger found ns = if ltb_ℤ found ns then ns else found

abbrev pub IsAtMost : ℤ → ℤ → Type 0
IsAtMost found n = n ≤ℤ found

-- The values before the one that the last operation finds.
abbrev seen : List ℤ → ℤ → ℤ → List ℤ
seen [] ns current = []
seen (met ∷ []) ns current = if ltb_ℤ current ns then current ∷ [] else []
seen (met ∷ loaded ∷ others) ns current =
    let again = seen others ns loaded in
    if ltb_ℤ current ns
    then if eqb_ℤ met current then current ∷ [] else current ∷ met ∷ again
    else []

raise_max-larger :
    (others : List ℤ) (ns current : ℤ)
    → (raise_max others ns current).left ≡ larger (raise_max others ns current).found ns
unfolding raise_max
raise_max-larger [] ns current = ground arith
raise_max-larger (met ∷ []) ns current = ground arith
raise_max-larger (met ∷ loaded ∷ others) ns current =
    ground (arith, raise_max-larger others ns loaded)

rises_to :
    (c : ℤ) (before : List ℤ) (found : ℤ) (later : List ℤ)
    → Rises (c ∷ before ++ found ∷ later)
    → (c ≤ℤ found) × All (IsAtMost found) before
rises_to c [] found later h = (h.0, tt)
rises_to c (b ∷ before) found later h =
    let (below, others) = rises_to b before found later h.1 in
    (ground (arith, h.0, below), (below, others))

all_below :
    (before : List ℤ) (found : ℤ) (later : List ℤ)
    → Rises (before ++ found ∷ later)
    → All (IsAtMost found) before
all_below [] found later h = tt
all_below (b ∷ before) found later h = rises_to b before found later h

seen-raise_max :
    (others : List ℤ) (ns current : ℤ)
    → let r = raise_max others ns current in
      current ∷ others ≡ seen others ns current ++ r.found ∷ r.later
unfolding raise_max
seen-raise_max [] ns current = ground arith
seen-raise_max (met ∷ []) ns current = ground arith
seen-raise_max (met ∷ loaded ∷ others) ns current = ground (arith, seen-raise_max others ns loaded)

-- If each other goroutine only raises the counter, then the compare-and-swap loop has the effect
-- of one atomic raise: its last operation leaves the larger of the observed duration and the
-- value that it finds in the counter, and this value is one that the counter holds, with every
-- value that it held earlier, from the one that was loaded first, at most that.
pub raise_max_keeps :
    (others : List ℤ) (ns current : ℤ)
    → Rises (current ∷ others)
    → let r = raise_max others ns current in
      (r.left ≡ larger r.found ns)
      × (before : List ℤ) × (current ∷ others ≡ before ++ r.found ∷ r.later)
      × All (IsAtMost r.found) before
raise_max_keeps others ns current h =
    let r = raise_max others ns current in
    let split = seen-raise_max others ns current in
    (
      raise_max-larger others ns current,
      seen others ns current,
      split,
      all_below (seen others ns current) r.found r.later (subst Rises split h),
    )
