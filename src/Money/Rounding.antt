-- ===== src/Money/Rounding.antt =====
-- What the rounding of money.ts gives.
use native.Mathlib.Nat.{lt-div-mul-add}
use tamam.Money.{round_times, one, rounded_quotient, round_div, percent_of, multiply}
use tamam.Prelude.{
  ap, true, ltb, zero, refl, false, suc, ◌==◌, arith, ◌≤◌, some, ◌*◌, ◌≡◌, ◌/◌, ◌+◌, ◌<◌, ℕ,
}
use tamam.Prelude.Int.{negate, ◌≤ℤ◌, pos, negsuc, ◌*ℤ◌, ◌-ℤ◌, magnitude, ℤ}

-- The quotient of `a` plus half of `d`, by `d`, is nearest to `a / d`.
nearest :
    (a d : ℕ) → 0 < d → ((a + d / 2) / d * d ≤ a + d / 2) × (a + d / 2 < (a + d / 2) / d * d + d)
nearest a d h = (omega arith, omega (arith, lt-div-mul-add {a = a + d / 2} {b = d} h))

-- How far the product is from the dividend, when both have one sign.
rest_pos : (a m d : ℕ) → 2 * a ≤ 2 * m + d → 2 * m ≤ 2 * a + d → 2 * magnitude (pos a -ℤ pos m) ≤ d
unfolding ◌-ℤ◌
rest_pos a m d x y = ground arith

rest_neg :
    (a m d : ℕ)
    → 2 * suc a ≤ 2 * m + d
    → 2 * m ≤ 2 * suc a + d
    → 2 * magnitude (negsuc a -ℤ negate (pos m)) ≤ d
unfolding ◌-ℤ◌
rest_neg a m d x y = ground arith

-- The product of the signed quotient and the divisor.
pub pos-*ℤ : (a b : ℕ) → pos a *ℤ pos b ≡ pos (a * b)
unfolding ◌*ℤ◌
pos-*ℤ a b = ground arith

negate-pos_*ℤ : (q d : ℕ) → negate (pos q) *ℤ pos d ≡ negate (pos (q * d))
unfolding ◌*ℤ◌
negate-pos_*ℤ zero d = ground arith
negate-pos_*ℤ (suc q) d = ground arith

pos-*ℤ-negsuc : (q d : ℕ) → pos q *ℤ negsuc d ≡ negate (pos (q * suc d))
unfolding ◌*ℤ◌
pos-*ℤ-negsuc q d = ground arith

negate-*ℤ-negsuc : (q d : ℕ) → negate (pos q) *ℤ negsuc d ≡ pos (q * suc d)
unfolding ◌*ℤ◌
negate-*ℤ-negsuc zero d = ground arith
negate-*ℤ-negsuc (suc q) d = ground arith

-- The quotient of each pair of signs.
pub rounded_quotient-pos : (a b : ℕ) → rounded_quotient (pos a) (pos b) ≡ pos ((a + b / 2) / b)
unfolding rounded_quotient
rounded_quotient-pos a b = ground arith

rounded_quotient-pos_negsuc :
    (a b : ℕ) → rounded_quotient (pos a) (negsuc b) ≡ negate (pos ((a + suc b / 2) / suc b))
unfolding rounded_quotient
rounded_quotient-pos_negsuc a b =
    let first : ltb (a + 0) 0 ≡ false = ground arith in
    let size : (a + 0 + (0 + suc b) / 2) / (0 + suc b) ≡ (a + suc b / 2) / suc b = ground arith in
    let second : ltb 0 (0 + suc b) ≡ true = ground arith in rw (first, second, size) refl

rounded_quotient-negsuc_pos :
    (a b : ℕ) → rounded_quotient (negsuc a) (pos b) ≡ negate (pos ((suc a + b / 2) / b))
unfolding rounded_quotient
rounded_quotient-negsuc_pos a b =
    let second : ltb (b + 0) 0 ≡ false = ground arith in
    let size : (0 + suc a + (b + 0) / 2) / (b + 0) ≡ (suc a + b / 2) / b = ground arith in
    let first : ltb 0 (0 + suc a) ≡ true = ground arith in rw (first, second, size) refl

rounded_quotient-negsuc :
    (a b : ℕ) → rounded_quotient (negsuc a) (negsuc b) ≡ pos ((suc a + suc b / 2) / suc b)
unfolding rounded_quotient
rounded_quotient-negsuc a b =
    let size : (0 + suc a + (0 + suc b) / 2) / (0 + suc b) ≡ (suc a + suc b / 2) / suc b =
      ground arith in
    let first : ltb 0 (0 + suc a) ≡ true = ground arith in
    let second : ltb 0 (0 + suc b) ≡ true = ground arith in rw (first, second, size) refl

quotient_rest :
    (n d : ℤ) → 0 < magnitude d → 2 * magnitude (n -ℤ rounded_quotient n d *ℤ d) ≤ magnitude d
quotient_rest (pos a) (pos d) h =
    let (x, y) = nearest a d (omega arith) in
    rw (rounded_quotient-pos a d, pos-*ℤ ((a + d / 2) / d) d)
      (omega (arith, rest_pos a ((a + d / 2) / d * d) d (omega arith) (omega arith)))
quotient_rest (pos a) (negsuc d) h =
    let (x, y) = nearest a (suc d) (omega arith) in
    rw (rounded_quotient-pos_negsuc a d, negate-*ℤ-negsuc ((a + suc d / 2) / suc d) d)
      (omega
        (arith, rest_pos a ((a + suc d / 2) / suc d * suc d) (suc d) (omega arith) (omega arith)))
quotient_rest (negsuc a) (pos d) h =
    let (x, y) = nearest (suc a) d (omega arith) in
    rw (rounded_quotient-negsuc_pos a d, negate-pos_*ℤ ((suc a + d / 2) / d) d)
      (omega (arith, rest_neg a ((suc a + d / 2) / d * d) d (omega arith) (omega arith)))
quotient_rest (negsuc a) (negsuc d) h =
    let (x, y) = nearest (suc a) (suc d) (omega arith) in
    rw (rounded_quotient-negsuc a d, pos-*ℤ-negsuc ((suc a + suc d / 2) / suc d) d)
      (omega (
        arith,
        rest_neg a ((suc a + suc d / 2) / suc d * suc d) (suc d) (omega arith) (omega arith),
      ))

-- `roundDiv` by a number that is not 0 returns an integer whose distance from the exact quotient is
-- at most one half: twice the remainder is at most the divisor.
pub round_div-nearest :
    (n d : ℤ)
    → 0 < magnitude d
    → (q : ℤ) × (round_div n d ≡ some q) × (2 * magnitude (n -ℤ q *ℤ d) ≤ magnitude d)
unfolding round_div
round_div-nearest n d h =
    let positive : (magnitude d == 0) ≡ false = ground arith in
    rw positive (rounded_quotient n d, refl, quotient_rest n d h)

-- Percentages and multiples of an amount that is not negative.
pub percent_of-pos : (v p : ℕ) → percent_of (pos v) p ≡ pos ((v * round_times 100 p + 5000) / 10000)
unfolding percent_of
percent_of-pos v p =
    rw (pos-*ℤ v (round_times 100 p), rounded_quotient-pos (v * round_times 100 p) 10000) refl

pub multiply-pos : (v p : ℕ) → multiply (pos v) p ≡ pos ((v * round_times 10000 p + 5000) / 10000)
unfolding multiply
multiply-pos v p =
    rw (pos-*ℤ v (round_times 10000 p), rounded_quotient-pos (v * round_times 10000 p) 10000) refl

-- A percentage of at most 100 of an amount that is not negative is between 0 and the amount.
pub percent_of-bounds :
    (v p : ℕ) → p ≤ 100 * one → (pos 0 ≤ℤ percent_of (pos v) p) × (percent_of (pos v) p ≤ℤ pos v)
percent_of-bounds v p h =
    let points : round_times 100 p ≤ 10000 = omega arith in
    let scaled : v * round_times 100 p ≤ v * 10000 = grind arith in
    rw (percent_of-pos v p) (omega arith, omega arith)

-- The whole of an amount.
pub percent_of-whole : (v : ℕ) → percent_of (pos v) (100 * one) ≡ pos v
percent_of-whole v = rw (percent_of-pos v (100 * one)) (ap pos (omega arith))

pub percent_of-nonneg : (v : ℤ) (p : ℕ) → pos 0 ≤ℤ v → pos 0 ≤ℤ percent_of v p
percent_of-nonneg (pos v) p h = rw (percent_of-pos v p) (omega arith)
percent_of-nonneg (negsuc v) p h = absurd (omega arith)

pub multiply-nonneg : (v : ℤ) (p : ℕ) → pos 0 ≤ℤ v → pos 0 ≤ℤ multiply v p
multiply-nonneg (pos v) p h = rw (multiply-pos v p) (omega arith)
multiply-nonneg (negsuc v) p h = absurd (omega arith)

-- The quotient of two numbers is not negative.
pub rate-nonneg : (a b c : ℕ) → pos 0 ≤ℤ rounded_quotient (pos a *ℤ pos b) (pos c)
rate-nonneg a b c = rw (pos-*ℤ a b, rounded_quotient-pos (a * b) c) (omega arith)

pub product-nonneg : (a b : ℕ) → pos 0 ≤ℤ pos a *ℤ pos b
product-nonneg a b = rw (pos-*ℤ a b) (omega arith)
