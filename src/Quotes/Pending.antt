-- ===== src/Quotes/Pending.antt =====
-- How many quotes of a job wait for an answer.
use Prim.Native.String.{String}
use tamam.Prelude.{
  ℕ, suc, ◌≤◌, ◌≡◌, refl, ap, Bool, true, false, not, ◌&&◌, Option, none, some, List, [], ◌∷◌, inl,
  inr, ◌⊎◌, Bool-cases, if◌then◌else◌, arith, ltb, or_right,
}
use mathlib.Core.Option.{some-injective}
use tamam.Prelude.Data.{◌===◌}
use tamam.Prelude.Lists.{any}
use tamam.Quotes.Store.{Quote, is_submitted, set_status, with_status, find_latest, later_of}
use tamam.Shared.Enums.{QuoteStatus, quote_status_eq}
use tamam.Shared.Text.{string_eq}

-- The quotes that satisfy a test.
abbrev pub count_if : (Quote → Bool) → List Quote → ℕ
count_if test [] = 0
count_if test (q ∷ rest) = if test q then suc (count_if test rest) else count_if test rest

abbrev pub count_submitted : List Quote → ℕ
count_submitted = count_if is_submitted

-- A status that settles a quote.
abbrev pub settles : QuoteStatus → Bool
settles status = not (status === QuoteStatus.submitted)

-- Whether a quote with this id waits.
abbrev pub waits_in : String → Quote → Bool
waits_in id q = q.id === id && is_submitted q

settle_one :
    (q : Quote) (status : QuoteStatus)
    → settles status ≡ true
    → is_submitted (with_status status q) ≡ false
settle_one q status h = ground arith

pub count-set_status_le :
    (id : String) (status : QuoteStatus) (quotes : List Quote)
    → settles status ≡ true
    → count_submitted (set_status id status quotes) ≤ count_submitted quotes
count-set_status_le id status [] h = omega arith
count-set_status_le id status (q ∷ rest) h =
    let fewer = count-set_status_le id status rest h in
    elim (Bool-cases (q.id === id)) [
      | inl e ↦
          rw (e, settle_one q status h)
            (elim (Bool-cases (is_submitted q)) [ inl w ↦ rw w (omega arith) | inr w ↦ rw w fewer ])
      | inr e ↦
          rw e
            (elim (Bool-cases (is_submitted q)) [ inl w ↦ rw w (omega arith) | inr w ↦ rw w fewer ])
    ]

pub count-set_status_lt :
    (id : String) (status : QuoteStatus) (quotes : List Quote)
    → settles status ≡ true
    → any (waits_in id) quotes ≡ true
    → suc (count_submitted (set_status id status quotes)) ≤ count_submitted quotes
count-set_status_lt id status [] h found = cc
count-set_status_lt id status (q ∷ rest) h found = elim (Bool-cases (q.id === id)) [
  | inl e ↦
      rw (e, settle_one q status h)
        (elim (Bool-cases (is_submitted q)) [
          | inl w ↦ let fewer = count-set_status_le id status rest h in rw w (omega arith)
          | inr w ↦
              let waiting : any (waits_in id) rest ≡ true = ground arith in
              let fewer = count-set_status_lt id status rest h waiting in rw w fewer
        ])
  | inr e ↦
      let waiting : any (waits_in id) rest ≡ true = ground arith in
      let fewer = count-set_status_lt id status rest h waiting in
      rw e (elim (Bool-cases (is_submitted q)) [ inl w ↦ rw w (omega arith) | inr w ↦ rw w fewer ])
]

uncounted : (b : Bool) (n : ℕ) → (if b then suc n else n) ≡ 0 → (b ≡ false) × (n ≡ 0)
uncounted true n h = absurd (omega arith)
uncounted false n h = (refl, h)

-- Nothing waits: no row is found.
pub find_latest-none :
    (test : Quote → Bool) (quotes : List Quote)
    → count_if test quotes ≡ 0
    → find_latest test quotes ≡ none
find_latest-none test [] h = refl
find_latest-none test (q ∷ rest) h =
    let (off, less) = uncounted (test q) (count_if test rest) h in
    rw off (find_latest-none test rest less)

picked :
    (b : Bool) (q found : Quote) (later : Option Quote)
    → (if b then later_of q later else later) ≡ some found
    → ((b ≡ true) × (q ≡ found)) ⊎ (later ≡ some found)
picked false q found later h = inr h
picked true q found none h = inl (refl, some-injective _ _ h)
picked true q found (some r) h = elim (Bool-cases (ltb q.revision r.revision)) [
  | inl e ↦ inr (rw e at h)
  | inr e ↦ inl (refl, some-injective _ _ (rw e at h))
]

same_id : (q r : Quote) → q ≡ r → q.id === r.id ≡ true
same_id q r e = (string_eq.beq_iff q.id r.id).1 (ap (λ x. x.id) e)

-- The row that is found is there, and satisfies the test.
pub find_latest-found :
    (test : Quote → Bool) (quotes : List Quote) (found : Quote)
    → find_latest test quotes ≡ some found
    → (test found ≡ true) × (any (λ r. r.id === found.id && test r) quotes ≡ true)
find_latest-found test [] found h = cc
find_latest-found test (q ∷ rest) found h = elim (picked (test q) q found _ h) [
  | inl (on, same) ↦ (rw (← same) on, rw (same_id q found same, on) refl)
  | inr later ↦
      let (on, there) = find_latest-found test rest found later in (on, or_right _ _ there)
]
