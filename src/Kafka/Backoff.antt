-- ===== src/Kafka/Backoff.antt =====
-- result_subscriber.go: the waits between restarts of a stopped consumer.
use Prim.Native.Nat.{◌*◌, ◌^◌}
use ofm_registration_saga_se.Prelude.{
  ℕ, zero, suc, ◌+◌, ◌≤◌, ◌≡◌, false, refl, sym, subst, ◌∙◌, arith, ltb, if◌then◌else◌,
}

-- In nanoseconds, as time.Duration.
abbrev pub second : ℕ
second = 1000000000

-- The update of `backoff` after a wait.
unfoldable pub next_backoff : ℕ → ℕ
next_backoff backoff =
    if ltb backoff (30 * second)
    then (if ltb (30 * second) (backoff * 2) then 30 * second else backoff * 2)
    else backoff

-- The wait before the n-th restart, counted from 0.
unfoldable pub backoff_at : ℕ → ℕ
unfolding next_backoff
backoff_at zero = second
backoff_at (suc n) = next_backoff (backoff_at n)

next-bounds :
    (b : ℕ) → second ≤ b → b ≤ 30 * second → (b ≤ next_backoff b) × (next_backoff b ≤ 30 * second)
unfolding next_backoff
next-bounds b lo hi = (ground arith, ground arith)

growing :
    (n : ℕ)
    → (second ≤ backoff_at n)
      × (backoff_at n ≤ backoff_at (suc n))
      × (backoff_at (suc n) ≤ 30 * second)
unfolding backoff_at
growing zero = (ground arith, ground arith, ground arith)
growing (suc n) =
    let before = growing n in
    let step = next-bounds (backoff_at (suc n)) (omega arith) before.2 in
    (omega arith, step.0, step.1)

at_limit : next_backoff (30 * second) ≡ 30 * second
unfolding next_backoff
at_limit = refl

settles : (n : ℕ) → backoff_at (n + 5) ≡ 30 * second
unfolding backoff_at
settles zero = refl
settles (suc n) =
    let shift : suc n + 5 ≡ suc (n + 5) = omega arith in rw (shift, settles n) at_limit

late : (n : ℕ) → 30 * second ≡ (if ltb (n + 5) 5 then 2 ^ (n + 5) * second else 30 * second)
late n = let over : ltb (n + 5) 5 ≡ false = ground arith in rw over refl

doubled : (n : ℕ) → backoff_at n ≡ (if ltb n 5 then 2 ^ n * second else 30 * second)
unfolding backoff_at next_backoff
doubled zero = refl
doubled (suc zero) = refl
doubled (suc (suc zero)) = refl
doubled (suc (suc (suc zero))) = refl
doubled (suc (suc (suc (suc zero)))) = refl
doubled (suc (suc (suc (suc (suc n))))) =
    let shift : suc (suc (suc (suc (suc n)))) ≡ n + 5 = omega arith in
    subst (λ m. backoff_at m ≡ (if ltb m 5 then 2 ^ m * second else 30 * second)) (sym shift)
      (settles n ∙ late n)

-- The waits before the first five restarts are one, two, four, eight and sixteen seconds, and each
-- later one is thirty seconds. So they start at a second, no wait is shorter than the one before
-- it, and none is longer than thirty seconds.
pub backoff_at-bounds :
    (n : ℕ)
    → (backoff_at n ≡ (if ltb n 5 then 2 ^ n * second else 30 * second))
      × (second ≤ backoff_at n)
      × (backoff_at n ≤ backoff_at (suc n))
      × (backoff_at (suc n) ≤ 30 * second)
backoff_at-bounds n = let (lo, more, hi) = growing n in (doubled n, lo, more, hi)
