-- ===== src/Reconcile/Backoff.antt =====
-- internal/reconcile/backoff.go: the capped exponential delay with full jitter.
use mini_sand_box.Prelude.{
  ℕ, zero, suc, ◌+◌, ◌-◌, ◌*◌, Bool, true, false, ◌||◌, Result, ok, err, ltb, if◌then◌else◌,
}
use mini_sand_box.Prelude.Int.{ℤ, pos, pos_part, ◌+ℤ◌, lt, le}
pub mod Bound

pub data BackoffError : Type 0 where
  invalid_configuration random_failed out_of_range : BackoffError

abbrev pub max_backoff_attempt : ℕ
max_backoff_attempt = 63

-- The `for` loop: the steps left, the cap so far, the maximum. The difference is computed only
-- where the cap is below the maximum.
unfoldable pub cap_loop : ℕ → ℕ → ℕ → ℕ
cap_loop zero cap maximum = cap
cap_loop (suc steps) cap maximum =
    let rest = cap_loop steps (cap * 2) maximum in
    if ltb cap maximum then (if ltb (maximum - cap) cap then maximum else rest) else cap

-- The cap of an attempt, for a positive minimum that is at most the maximum.
unfoldable pub backoff_cap : ℕ → ℕ → ℕ → ℕ
unfolding cap_loop
backoff_cap attempt minimum maximum =
    let steps = if ltb max_backoff_attempt attempt then max_backoff_attempt else attempt in
    let cap = cap_loop steps minimum maximum in if ltb maximum cap then maximum else cap

check_value : ℕ → Result BackoffError ℤ → Result BackoffError ℤ
check_value cap (err e) = err e
check_value cap (ok value) =
    if lt value (pos 0) || le (pos cap) value then err out_of_range else ok (value +ℤ pos 1)

-- `random` is the injected source `Random.Int64N`, which is given the cap.
unfoldable pub full_jitter_backoff : ℕ → ℤ → ℤ → (ℕ → Result BackoffError ℤ) → Result BackoffError ℤ
unfolding backoff_cap check_value
full_jitter_backoff attempt minimum maximum random =
    if le minimum (pos 0) || lt maximum minimum
    then err invalid_configuration
    else let cap = backoff_cap attempt (pos_part minimum) (pos_part maximum) in
      check_value cap (random cap)
