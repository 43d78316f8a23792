-- ===== src/Reconcile/Backoff/Bound.antt =====
-- The delay of internal/reconcile/backoff.go against its closed form.
use Prim.Native.Nat.{min}
use native.Mathlib.Nat.{pow-suc, mul_assoc, le_refl}
use native.Mathlib.Decide.{dec_le}
use mini_sand_box.Prelude.{
  ℕ, zero, suc, ◌+◌, ◌*◌, ◌^◌, ◌≤◌, ◌<◌, ◌≡◌, ap, ◌∙◌, sym, Result, ok, ltb, arith, if◌then◌else◌,
  inl, inr, Bool-cases, ltb→lt,
}
use mini_sand_box.Prelude.Int.{ℤ, pos}
use mini_sand_box.Reconcile.Backoff.{BackoffError, cap_loop, backoff_cap, full_jitter_backoff}

pow_pos : (n : ℕ) → 1 ≤ 2 ^ n
pow_pos zero = omega arith
pow_pos (suc n) = omega (arith, pow-suc 2 n, pow_pos n)

le-mul_pow : (c n : ℕ) → c ≤ c * 2 ^ n
le-mul_pow c n = let p = pow_pos n in grind arith

double : (c n : ℕ) → (c * 2 ^ suc n ≡ c * 2 ^ n * 2) × (c * 2 * 2 ^ n ≡ c * 2 ^ n * 2)
double c n = (ap (λ t. c * t) (pow-suc 2 n) ∙ sym (mul_assoc c (2 ^ n) 2), grind arith)

cap_loop_eq : (n c m : ℕ) → 0 < c → c ≤ m → cap_loop n c m ≡ min (c * 2 ^ n) m
unfolding cap_loop
cap_loop_eq zero c m p h = omega arith
cap_loop_eq (suc n) c m p h = ground (arith, cap_loop_eq n (c * 2) m, double c n, le-mul_pow c n)

pow_le : (n m : ℕ) → n ≤ m → 2 ^ n ≤ 2 ^ m
pow_le n zero h = let e : n ≡ 0 = omega arith in rw e (omega arith)
pow_le n (suc m) h = elim (dec_le n m) [
  | yes le ↦ omega (arith, pow_le n m le, pow-suc 2 m)
  | no gt ↦ let e : n ≡ suc m = omega arith in rw e (le_refl (2 ^ suc m))
]

le-mul : (c p : ℕ) → 0 < c → p ≤ c * p
le-mul c p h = grind arith

-- A maximum below 2 ^ limit is reached by `limit` doublings of any positive number.
saturated : (limit c n m : ℕ) → 0 < c → m < 2 ^ limit → limit ≤ n → m ≤ c * 2 ^ n
saturated limit c n m p h k = omega (arith, pow_le limit n k, le-mul c (2 ^ n) p)

limited_eq :
    (limit attempt c m : ℕ)
    → 0 < c
    → c ≤ m
    → m < 2 ^ limit
    → cap_loop (if ltb limit attempt then limit else attempt) c m ≡ min (c * 2 ^ attempt) m
limited_eq limit attempt c m p h b = elim (Bool-cases (ltb limit attempt)) [
  | inl over ↦ rw over (
      cap_loop_eq limit c m p h
      ∙ omega (
        arith,
        saturated limit c limit m p b (le_refl limit),
        saturated limit c attempt m p b (omega (arith, ltb→lt limit attempt over)),
      ))
  | inr under ↦ rw under (cap_loop_eq attempt c m p h)
]

-- Whatever the attempt, the cap is the minimum doubled that often, or the maximum if that is less;
-- that the loop gives up after 63 doublings is never seen.
pub backoff_cap_eq :
    (attempt minimum maximum : ℕ)
    → 0 < minimum
    → minimum ≤ maximum
    → maximum < 2 ^ 63
    → backoff_cap attempt minimum maximum ≡ min (minimum * 2 ^ attempt) maximum
unfolding backoff_cap
backoff_cap_eq attempt minimum maximum p h b =
    rw (limited_eq 63 attempt minimum maximum p h b) (ground arith)

-- With a positive minimum that is at most the maximum, and a source that answers `r` below the
-- cap, the minimum doubled `attempt` times or the maximum, there is no error and the delay is
-- `r + 1`.
pub full_jitter_backoff_bounds :
    (attempt minimum maximum : ℕ) (random : ℕ → Result BackoffError ℤ) (r : ℕ)
    → 0 < minimum
    → minimum ≤ maximum
    → maximum < 2 ^ 63
    → random (min (minimum * 2 ^ attempt) maximum) ≡ ok (pos r)
    → r < min (minimum * 2 ^ attempt) maximum
    → full_jitter_backoff attempt (pos minimum) (pos maximum) random ≡ ok (pos (r + 1))
unfolding full_jitter_backoff
full_jitter_backoff_bounds attempt minimum maximum random r p h b e k =
    rw (backoff_cap_eq attempt minimum maximum p h b, e) (ground arith)
