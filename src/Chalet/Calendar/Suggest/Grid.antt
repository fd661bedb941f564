-- ===== src/Chalet/Calendar/Suggest/Grid.antt =====
-- Rounding up to the booking grid.
use native.Mathlib.Decide.{dec_lt}
use native.Mathlib.Nat.{lt-div-mul-add, div-lt_iff_lt-mul}
use tamam.Chalet.Calendar.{minute}
use tamam.Chalet.Calendar.Suggest.{ceil_on_grid, ceil_to_interval}
use tamam.Prelude.{
  inr, leb→le, sym, ap, inl, Bool-cases, false, leb, ◌==◌, ◌/◌, some, ◌-◌, ◌*◌, ◌≤◌, ◌+◌, ◌<◌, ℕ,
  ◌≡◌, refl, arith,
}

-- A point of the grid.
abbrev pub OnGrid : ℕ → ℕ → ℕ → Type 0
OnGrid step anchor at = (k : ℕ) × (at ≡ anchor + k * step)

-- The quotient rounded up, times the divisor, reaches the dividend.
ceil_reaches : (e step : ℕ) → 0 < step → e ≤ (e + step - 1) / step * step
ceil_reaches e step h = omega (arith, lt-div-mul-add {a = e + step - 1} {b = step} h)

-- No smaller multiple reaches it.
ceil_least : (e step k : ℕ) → 0 < step → e ≤ k * step → (e + step - 1) / step ≤ k
ceil_least e step k h le =
    let below : e + step - 1 < (k + 1) * step = grind arith in
    omega (arith, (div-lt_iff_lt-mul {k = step} {x = e + step - 1} {y = k + 1} h).1 below)

mul_mono : (a b step : ℕ) → a ≤ b → a * step ≤ b * step
mul_mono a b step h = grind arith

module _ (step anchor : ℕ) (positive : 0 < step) where
  pub ceil-OnGrid : (at : ℕ) → OnGrid step anchor (ceil_on_grid step anchor at)
  unfolding ceil_on_grid
  ceil-OnGrid at = (_, refl)

  pub le-ceil : (at : ℕ) → at ≤ ceil_on_grid step anchor at
  unfolding ceil_on_grid
  le-ceil at = omega (arith, ceil_reaches (at - anchor) step positive)

  -- It is the least point of the grid from there on.
  pub ceil-le : (at t : ℕ) → OnGrid step anchor t → at ≤ t → ceil_on_grid step anchor at ≤ t
  unfolding ceil_on_grid
  ceil-le at t (k, e) h =
      let q = ceil_least (at - anchor) step k positive (omega (arith, e)) in
      omega (arith, e, mul_mono _ k step q)

  -- Two points of the grid are a step apart.
  pub next_point : (c t : ℕ) → OnGrid step anchor c → OnGrid step anchor t → c < t → c + step ≤ t
  next_point c t (k, e) (l, f) h =
      let above : k < l = by_multiples k l (omega (arith, e, f)) in
      omega (arith, e, f, mul_mono (k + 1) l step (omega arith), distribute k)
    where
      by_multiples : (a b : ℕ) → a * step < b * step → a < b
      by_multiples a b g = elim (dec_lt a b) [
        | yes y ↦ y
        | no n ↦ absurd (omega (arith, g, mul_mono b a step (omega arith)))
      ]

      distribute : (a : ℕ) → (a + 1) * step ≡ a * step + step
      distribute a = omega arith

  pub step-OnGrid : (c : ℕ) → OnGrid step anchor c → OnGrid step anchor (c + step)
  step-OnGrid c (k, e) = (k + 1, omega (arith, e))

  pub anchor-le-ceil : (at : ℕ) → anchor ≤ ceil_on_grid step anchor at
  unfolding ceil_on_grid
  anchor-le-ceil at = omega arith

  ceil-before_anchor : (at : ℕ) → at ≤ anchor → ceil_on_grid step anchor at ≡ anchor
  ceil-before_anchor at h = omega (arith, ceil-le at anchor (0, omega arith) h, anchor-le-ceil at)

-- At a positive interval `ceilToInterval` returns the least point of the grid that is not before
-- the instant, the opening time for an instant before it.
pub ceil_to_interval-eq :
    (at anchor interval : ℕ)
    → 0 < interval
    → ceil_to_interval at anchor interval ≡ some (ceil_on_grid (interval * minute) anchor at)
unfolding ceil_to_interval
ceil_to_interval-eq at anchor interval h =
    let positive : 0 < interval * minute = omega arith in
    elim (Bool-cases (leb at anchor)) [
      | inl before ↦
          rw (not_zero, before)
            (ap some
              (sym (ceil-before_anchor (interval * minute) anchor positive at (leb→le _ _ before))))
      | inr after ↦ rw (not_zero, after)
    ]
  where
    not_zero : (interval == 0) ≡ false
    not_zero = ground arith
