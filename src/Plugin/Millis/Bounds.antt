-- ===== src/Plugin/Millis/Bounds.antt =====
-- What nanosToMillis of internal/plugin/app.go rounds to, up to the largest int64.
use cpa_access_manager.Base.{
  ℕ, ◌+◌, ◌*◌, ◌/◌, ◌^◌, ◌-◌, zero, suc, ◌≤◌, ◌<◌, ◌≡◌, refl, ap, ◌∙◌, ◌⊎◌, inl, inr, arith,
  if◌then◌else◌,
}
use native.Mathlib.Nat.{mod-eq_of_lt}
use cpa_access_manager.Base.Int.{ℤ, pos, negsuc, ltb_ℤ, ◌+ℤ◌}
use cpa_access_manager.Access.Prices.{of_bits, to_bits}
use cpa_access_manager.Access.Prices.Cost.{of_to_bits}
use cpa_access_manager.Plugin.Millis.{add64, quotient, nanos_to_millis}

-- Without wrap-around: the nearest number of milliseconds, and one for a positive time below half.
pub record IsRounded (n m : ℕ) : Type 0 where
  pub positive : 0 < m
  pub not_low : n < m * 1_000_000 + 500_000
  pub not_high : (m * 1_000_000 ≤ n + 500_000) ⊎ (m ≡ 1)

sum_pos : (a b : ℕ) → pos a +ℤ pos b ≡ pos (a + b)
unfolding ◌+ℤ◌
sum_pos a b = ground arith

add64_fits : (a b : ℕ) → a + b < 9_223_372_036_854_775_808 → add64 (pos a) (pos b) ≡ pos (a + b)
unfolding add64
add64_fits a b h =
    ap (λ v. of_bits (to_bits v)) (sum_pos a b)
    ∙ of_to_bits (pos (a + b)) (record { low = omega arith; high = h })

wrapped :
    (n : ℕ)
    → 9_223_372_036_854_775_808 ≤ n
    → n < 18_446_744_073_709_551_616
    → of_bits (to_bits (pos n)) ≡ negsuc (18_446_744_073_709_551_615 - n)
unfolding of_bits to_bits
wrapped n low high = rw (mod-eq_of_lt {n = n} {m = 2 ^ 64} high) (ground (arith, low))

add64_wraps :
    (a b : ℕ)
    → 9_223_372_036_854_775_808 ≤ a + b
    → a + b < 18_446_744_073_709_551_616
    → add64 (pos a) (pos b) ≡ negsuc (18_446_744_073_709_551_615 - (a + b))
unfolding add64
add64_wraps a b low high = ap (λ v. of_bits (to_bits v)) (sum_pos a b) ∙ wrapped (a + b) low high

IsRounded-or_one :
    (n q : ℕ)
    → q ≡ (n + 500_000) / 1_000_000
    → 0 < n
    → (m : ℕ) × ((if ltb_ℤ (pos 0) (pos q) then pos q else pos 1) ≡ pos m) × IsRounded n m
IsRounded-or_one n zero e given =
    (1, refl, record { positive = omega arith; not_low = omega (arith, e); not_high = inr refl })
IsRounded-or_one n (suc q) e given = (
  suc q,
  ground arith,
  record { positive = omega arith; not_low = omega (arith, e); not_high = inl (omega (arith, e)) },
)

guarded : (n : ℕ) (v : ℤ) → 0 < n → (if ltb_ℤ (pos 0) (pos n) then v else pos 0) ≡ v
guarded n v given = ground (arith, given)

-- For a positive time that is half a millisecond or more below the largest int64 nanosToMillis gives
-- the nearest number of milliseconds, and at least one.
pub nanos_to_millis-bounds :
    (n : ℕ)
    → 0 < n
    → n + 500_000 < 9_223_372_036_854_775_808
    → (m : ℕ) × (nanos_to_millis (pos n) ≡ pos m) × IsRounded n m
unfolding nanos_to_millis
nanos_to_millis-bounds n given low =
    let (m, e, k) = IsRounded-or_one n ((n + 500_000) / 1_000_000) refl given in
    let q =
      λ (v : ℤ). if ltb_ℤ (pos 0) (quotient v 1_000_000) then quotient v 1_000_000 else pos 1 in
    (
      m,
      guarded n (q (add64 (pos n) (pos 500_000))) given ∙ (ap q (add64_fits n 500_000 low) ∙ e),
      k,
    )

not_positive :
    (k : ℕ)
    → k < 9_223_372_036_854_775_808
    → (if ltb_ℤ (pos 0) (quotient (negsuc k) 1_000_000)
        then quotient (negsuc k) 1_000_000
        else pos 1)
      ≡ pos 1
not_positive k h = ground arith

-- For an int64 that is less than half a millisecond below the largest the sum in nanosToMillis wraps
-- around, and the result is one millisecond.
pub nanos_to_millis-wraps :
    (n : ℕ)
    → n < 9_223_372_036_854_775_808
    → 9_223_372_036_854_775_808 ≤ n + 500_000
    → nanos_to_millis (pos n) ≡ pos 1
unfolding nanos_to_millis
nanos_to_millis-wraps n fits high =
    let q =
      λ (v : ℤ). if ltb_ℤ (pos 0) (quotient v 1_000_000) then quotient v 1_000_000 else pos 1 in
    guarded n (q (add64 (pos n) (pos 500_000))) (omega arith)
    ∙ (ap q (add64_wraps n 500_000 high (omega arith))
        ∙ not_positive (18_446_744_073_709_551_615 - (n + 500_000)) (omega arith))
