-- ===== src/Prelude/Lists.antt =====
-- Searching and measuring lists by Boolean tests, as `find`, `filter`, `includes`, `some` and
-- `every` of the source do.
use mathlib.Core.List.{Memᴰ}
use mathlib.Core.Option.{some-injective}
use tamam.Prelude.{
  sym, inr, inl, Bool-cases, and_split, ℕ, suc, ◌≡◌, refl, Bool, true, false, ◌&&◌, ◌||◌, Option,
  none, some, List, [], ◌∷◌, map, arith, if◌then◌else◌,
}
use tamam.Prelude.Data.{Eq, ◌===◌}

module _ {ℓ} {A : Type ℓ} where
  abbrev pub length : List A → ℕ
  length [] = 0
  length (x ∷ xs) = suc (length xs)

  abbrev pub find? : (A → Bool) → List A → Option A
  find? p [] = none
  find? p (x ∷ xs) = if p x then some x else find? p xs

  abbrev pub filter : (A → Bool) → List A → List A
  filter p [] = []
  filter p (x ∷ xs) = let rest = filter p xs in if p x then x ∷ rest else rest

  abbrev pub any : (A → Bool) → List A → Bool
  any p [] = false
  any p (x ∷ xs) = p x || any p xs

  abbrev pub all : (A → Bool) → List A → Bool
  all p [] = true
  all p (x ∷ xs) = p x && all p xs

  -- `P` holds of every item.
  abbrev pub All {κ} : (A → Type κ) → List A → Type κ
  All P [] = Unit
  All P (x ∷ xs) = P x × All P xs

  pub find?-satisfies : (p : A → Bool) (xs : List A) (a : A) → find? p xs ≡ some a → p a ≡ true
  find?-satisfies p [] a h = cc
  find?-satisfies p (x ∷ xs) a h = ground (arith, find?-satisfies p xs a)

  pub find?-mem : (p : A → Bool) (xs : List A) (a : A) → find? p xs ≡ some a → Memᴰ a xs
  find?-mem p [] a h = cc
  find?-mem p (x ∷ xs) a h = elim (Bool-cases (p x)) [
    | inl e ↦ Memᴰ.head (sym (some-injective _ _ (rw e at h)))
    | inr e ↦ Memᴰ.tail (find?-mem p xs a (rw e at h))
  ]

  -- What every item of the list passes, the item found passes.
  pub find?-all :
      (p q : A → Bool) (xs : List A) (a : A) → all q xs ≡ true → find? p xs ≡ some a → q a ≡ true
  find?-all p q [] a g h = cc
  find?-all p q (x ∷ xs) a g h = ground (arith, find?-all p q xs a)

  -- An item that one search finds, and that passes the test of another, is not passed over there.
  pub find?-ne-none :
      (p q : A → Bool) (xs : List A) (a : A)
      → find? p xs ≡ some a
      → q a ≡ true
      → find? q xs ≡ none
      → ⊥
  find?-ne-none p q [] a h k n = cc
  find?-ne-none p q (x ∷ xs) a h k n = ground (arith, find?-ne-none p q xs a)

  pub find?-eq-none : (p : A → Bool) (xs : List A) → any p xs ≡ false → find? p xs ≡ none
  find?-eq-none p [] h = refl
  find?-eq-none p (x ∷ xs) h = ground (arith, find?-eq-none p xs)

  pub find?-none-any : (p : A → Bool) (xs : List A) → find? p xs ≡ none → any p xs ≡ false
  find?-none-any p [] h = refl
  find?-none-any p (x ∷ xs) h = ground (arith, find?-none-any p xs)

  -- A row that no item passes with: each item fails one of the two tests.
  pub any-and_eq-filter :
      (p q : A → Bool) (xs : List A) → any (λ x. p x && q x) xs ≡ any q (filter p xs)
  any-and_eq-filter p q [] = refl
  any-and_eq-filter p q (x ∷ xs) = ground (arith, any-and_eq-filter p q xs)

  pub any_congr : (p q : A → Bool) (xs : List A) → ((x : A) → p x ≡ q x) → any p xs ≡ any q xs
  any_congr p q [] h = refl
  any_congr p q (x ∷ xs) h = ground (arith, h x, any_congr p q xs h)

  pub any-mem : (p : A → Bool) (xs : List A) (a : A) → Memᴰ a xs → p a ≡ true → any p xs ≡ true
  any-mem p [] a m h = elim m [ ]
  any-mem p (x ∷ xs) a (Memᴰ.head e) h = ground arith
  any-mem p (x ∷ xs) a (Memᴰ.tail m) h = ground (arith, any-mem p xs a m h)

pub any-map {ℓ κ} :
    {A : Type ℓ} {B : Type κ} (f : A → B) (p : B → Bool) (xs : List A)
    → any p (map f xs) ≡ any (λ x. p (f x)) xs
any-map f p [] = refl
any-map f p (x ∷ xs) = ground (arith, any-map f p xs)

module _ {ℓ} {A : Type ℓ} ⦃e : Eq A⦄ where
  abbrev pub includes : List A → A → Bool
  includes [] a = false
  includes (x ∷ xs) a = x === a || includes xs a

  pub includes-any : (xs : List A) (a : A) → includes xs a ≡ any (λ x. x === a) xs
  includes-any [] a = refl
  includes-any (x ∷ xs) a = ground (arith, includes-any xs a)

  pub all-includes :
      (p : A → Bool) (xs : List A) (a : A) → all p xs ≡ true → includes xs a ≡ true → p a ≡ true
  all-includes p [] a h m = cc
  all-includes p (x ∷ xs) a h m =
      let (first, others) = and_split _ _ h in
      elim (Bool-cases (x === a)) [
        | inl same ↦ rw (← (e.beq_iff x a).0 same) first
        | inr other ↦ all-includes p xs a others (ground arith)
      ]
