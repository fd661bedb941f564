-- ===== src/Chalet/Overstay.antt =====
-- What an overstay is billed.
use native.Mathlib.Nat.{lt-div-mul-add}
use tamam.Chalet.Bookings.{OverstayPolicy, OverstayCharge, overstay_charge}
use tamam.Prelude.{
  refl, ◌-◌, leb→le, ◌*◌, ◌+◌, Bool-cases, ℕ, ◌≡◌, ◌⊎◌, ◌≤◌, ◌<◌, inl, inr, arith, leb,
}

-- Nothing is billed within the grace; past it all of the overrun is, in whole blocks, and less than
-- a block more than it.
abbrev pub Bills : ℕ → OverstayPolicy → OverstayCharge → Type 0
Bills late policy charge =
    ((late ≤ policy.grace_minutes) × (charge.billed_minutes ≡ 0) × (charge.fee_minor ≡ 0))
    ⊎ ((policy.grace_minutes < late)
        × (late ≤ charge.billed_minutes)
        × (charge.billed_minutes < late + policy.billing_block_minutes)
        × ((blocks : ℕ) × (charge.billed_minutes ≡ blocks * policy.billing_block_minutes)))

-- With blocks of at least a minute, an overstay within the grace is not billed and costs nothing;
-- a longer one is billed in whole blocks from its first minute, and less than a block too much.
pub overstay_charge-Bills :
    (late rate : ℕ) (policy : OverstayPolicy)
    → 0 < policy.billing_block_minutes
    → Bills late policy (overstay_charge late rate policy)
unfolding overstay_charge
overstay_charge-Bills late rate policy h = elim (Bool-cases (leb late policy.grace_minutes)) [
  | inl within ↦ rw within (inl (leb→le _ _ within, refl, refl))
  | inr past ↦
      let block = policy.billing_block_minutes in
      let below = lt-div-mul-add {a = late + block - 1} {b = block} h in
      let over : policy.grace_minutes < late = ground arith in
      rw past (inr (over, omega arith, omega arith, (_, refl)))
]
