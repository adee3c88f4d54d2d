-- ===== src/Claiming/Backoff.antt =====
-- The delay doubles with every failed attempt until it reaches the cap.
use native.Mathlib.Nat.{pow-suc}
use projectree.Base.{
  ℕ, suc, ◌+◌, ◌-◌, ◌*◌, ◌^◌, ◌≤◌, ◌<◌, ◌≡◌, ap, arith, min, refl, ltb, ◌∙◌, true, false, none,
  some,
}
use projectree.Claiming.{seconds, backoff_delay, max_backoff_seconds}

scaled_pow : (b n : ℕ) → b * 2 ^ suc n ≡ 2 * (b * 2 ^ n)
scaled_pow b n = rw pow-suc (grind arith)

backoff_delay-suc :
    (n b : ℕ)
    → n < 1024
    → backoff_delay (suc n) b ≡ some (min (b * 2 ^ n) (seconds max_backoff_seconds))
unfolding backoff_delay
backoff_delay-suc n b small =
    let positive : ltb (suc n) 1 ≡ false = ground arith in
    let held : ltb 1024 (suc n) ≡ false = ground arith in
    let pred : suc n - 1 ≡ n = omega arith in rw (positive, held, pred) refl

backoff_delay-zero : (b : ℕ) → backoff_delay 0 b ≡ some 0
unfolding backoff_delay
backoff_delay-zero b = refl

backoff_delay-overflow : (m b : ℕ) → backoff_delay (1025 + m) b ≡ none
unfolding backoff_delay
backoff_delay-overflow m b =
    let positive : ltb (1025 + m) 1 ≡ false = ground arith in
    let beyond : ltb 1024 (1025 + m) ≡ true = ground arith in rw (positive, beyond) refl

unit_power :
    (b : ℕ) → min (b * 2 ^ 0) (seconds max_backoff_seconds) ≡ min b (seconds max_backoff_seconds)
unit_power b = omega arith

doubled :
    (n b : ℕ)
    → min (b * 2 ^ suc n) (seconds max_backoff_seconds)
      ≡ min (2 * min (b * 2 ^ n) (seconds max_backoff_seconds)) (seconds max_backoff_seconds)
doubled n b = omega (arith, scaled_pow b n)

-- No delay before the first failure; `base_seconds`, cut at an hour, after it. Each further failure up
-- to the 1024th doubles the delay until an hour is reached, which it never passes. From the 1025th
-- attempt on the delay is an OverflowError.
pub backoff_delay_doubles :
    (n m base : ℕ)
    → n < 1023
    → (backoff_delay 0 base ≡ some 0)
      × (backoff_delay 1 base ≡ some (min base (seconds max_backoff_seconds)))
      × ((delay : ℕ) × (backoff_delay (suc n) base ≡ some delay)
          × (delay ≤ seconds max_backoff_seconds)
          × (backoff_delay (suc (suc n)) base
              ≡ some (min (2 * delay) (seconds max_backoff_seconds))))
      × (backoff_delay (1025 + m) base ≡ none)
backoff_delay_doubles n m b small = (
  backoff_delay-zero b,
  backoff_delay-suc 0 b (omega arith) ∙ ap some (unit_power b),
  (
    min (b * 2 ^ n) (seconds max_backoff_seconds),
    backoff_delay-suc n b (omega arith),
    omega arith,
    backoff_delay-suc (suc n) b (omega arith) ∙ ap some (doubled n b),
  ),
  backoff_delay-overflow m b,
)
