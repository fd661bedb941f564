-- ===== src/Quotes/Rows.antt =====
-- The rows of quotes that `submit` and `decide` of apps/api/src/modules/quotes/quotes.service.ts leave,
-- each described by the row that it was, and the row that a search by revision finds.
use mathlib.Core.Option.{some-injective}
use tamam.Prelude.{
  ℕ, ◌≤◌, ◌≡◌, refl, Bool, true, false, not, ◌&&◌, ◌||◌, ltb, leb, Option, none, some, List, [],
  ◌∷◌, map, inl, inr, Bool-cases, if◌then◌else◌, arith, and_intro, and_split, ◌+◌,
}
use tamam.Prelude.Data.{◌===◌}
use tamam.Prelude.Lists.{all}
use tamam.Quotes.Decide.{quotes_after_decide}
use tamam.Quotes.Store.{
  Quote, find_latest, later_of, set_status, with_status, quote_kind_eq, max_revision,
}
use tamam.Quotes.Submit.{supersede}
use tamam.Shared.Enums.{QuoteStatus, QuoteKind, quote_status_eq}
use tamam.Shared.Text.{string_eq}

-- A row after the answer to `quote`: the rows of its id are answered; the approval of a change order
-- takes the place of every other approved quote.
abbrev pub answer : Bool → Quote → Quote → Quote
answer approve quote q =
    if q.id === quote.id
    then with_status (if approve then QuoteStatus.approved else QuoteStatus.rejected) q
    else if approve && (quote.kind === QuoteKind.change_order && q.status === QuoteStatus.approved)
    then with_status QuoteStatus.superseded q
    else q

-- A row when a new quote follows `previous`: if that one waits for an answer, it gives way.
abbrev pub give_way : Option Quote → Quote → Quote
give_way none q = q
give_way (some previous) q =
    if q.id === previous.id && previous.status === QuoteStatus.submitted
    then with_status QuoteStatus.superseded q
    else q

answered_once :
    (status : QuoteStatus) (resumes : Bool) (quote : Quote) (quotes : List Quote)
    → (if resumes
        then map
            (λ q.
              if q.status === QuoteStatus.approved && not (q.id === quote.id)
              then with_status QuoteStatus.superseded q
              else q)
            (set_status quote.id status quotes)
        else set_status quote.id status quotes)
      ≡ map
          (λ q.
            if q.id === quote.id
            then with_status status q
            else if resumes && q.status === QuoteStatus.approved
            then with_status QuoteStatus.superseded q
            else q)
          quotes
answered_once status true quote [] = refl
answered_once status false quote [] = refl
answered_once status true quote (q ∷ rest) = elim (Bool-cases (q.id === quote.id)) [
  | inl e ↦ elim (Bool-cases (status === QuoteStatus.approved)) [
    | inl a ↦ rw (e, e, a, answered_once status true quote rest) refl
    | inr a ↦ rw (e, e, a, answered_once status true quote rest) refl
  ]
  | inr e ↦ elim (Bool-cases (q.status === QuoteStatus.approved)) [
    | inl a ↦ rw (e, e, a, answered_once status true quote rest) refl
    | inr a ↦ rw (e, e, a, answered_once status true quote rest) refl
  ]
]
answered_once status false quote (q ∷ rest) = elim (Bool-cases (q.id === quote.id)) [
  | inl e ↦ rw (e, answered_once status false quote rest) refl
  | inr e ↦ rw (e, answered_once status false quote rest) refl
]

pub quotes_after_decide-answer :
    (approve : Bool) (quote : Quote) (quotes : List Quote)
    → quotes_after_decide approve quote quotes ≡ map (answer approve quote) quotes
unfolding quotes_after_decide
quotes_after_decide-answer true quote quotes =
    answered_once QuoteStatus.approved (quote.kind === QuoteKind.change_order) quote quotes
quotes_after_decide-answer false quote quotes =
    answered_once QuoteStatus.rejected false quote quotes

unchanged : (quotes : List Quote) → map (λ q. q) quotes ≡ quotes
unchanged [] = refl
unchanged (q ∷ rest) = rw (unchanged rest) refl

give_way_waiting :
    (previous : Quote) (waits : Bool) (quotes : List Quote)
    → (if waits then set_status previous.id QuoteStatus.superseded quotes else quotes)
      ≡ map
          (λ q. if q.id === previous.id && waits then with_status QuoteStatus.superseded q else q)
          quotes
give_way_waiting previous true [] = refl
give_way_waiting previous false [] = refl
give_way_waiting previous true (q ∷ rest) = elim (Bool-cases (q.id === previous.id)) [
  | inl e ↦ rw (e, give_way_waiting previous true rest) refl
  | inr e ↦ rw (e, give_way_waiting previous true rest) refl
]
give_way_waiting previous false (q ∷ rest) = elim (Bool-cases (q.id === previous.id)) [
  | inl e ↦ rw (e, ← give_way_waiting previous false rest) refl
  | inr e ↦ rw (e, ← give_way_waiting previous false rest) refl
]

pub supersede-give_way :
    (previous : Option Quote) (quotes : List Quote)
    → supersede previous quotes ≡ map (give_way previous) quotes
supersede-give_way none [] = refl
supersede-give_way none (q ∷ rest) = rw (← supersede-give_way none rest) refl
supersede-give_way (some previous) quotes =
    give_way_waiting previous (previous.status === QuoteStatus.submitted) quotes

-- Every row that passes the test has at most this revision.
abbrev pub is_latest : (Quote → Bool) → Quote → List Quote → Bool
is_latest test found quotes = all (λ q. not (test q) || leb q.revision found.revision) quotes

later_of-some : (q : Quote) (later : Option Quote) → later_of q later ≡ none → ⊥
later_of-some q none h = cc
later_of-some q (some r) h = elim (Bool-cases (ltb q.revision r.revision)) [
  | inl e ↦ cc (rw e at h)
  | inr e ↦ cc (rw e at h)
]

none-is_latest :
    (test : Quote → Bool) (found : Quote) (quotes : List Quote)
    → find_latest test quotes ≡ none
    → is_latest test found quotes ≡ true
none-is_latest test found [] h = refl
none-is_latest test found (q ∷ rest) h = elim (Bool-cases (test q)) [
  | inl e ↦ absurd (later_of-some q (find_latest test rest) (rw e at h))
  | inr e ↦ rw e (none-is_latest test found rest (rw e at h))
]

is_latest_mono :
    (test : Quote → Bool) (lower found : Quote) (quotes : List Quote)
    → lower.revision ≤ found.revision
    → is_latest test lower quotes ≡ true
    → is_latest test found quotes ≡ true
is_latest_mono test lower found [] le h = refl
is_latest_mono test lower found (q ∷ rest) le h =
    let (first, others) = and_split (not (test q) || leb q.revision lower.revision) _ h in
    and_intro _ _ (ground arith) (is_latest_mono test lower found rest le others)

later-is_latest :
    (test : Quote → Bool) (q found : Quote) (rest : List Quote) (later : Option Quote)
    → find_latest test rest ≡ later
    → ((r : Quote) → find_latest test rest ≡ some r → is_latest test r rest ≡ true)
    → later_of q later ≡ some found
    → (leb q.revision found.revision ≡ true) × (is_latest test found rest ≡ true)
later-is_latest test q found rest none e ih h =
    let same : q ≡ found = some-injective _ _ h in
    (rw (← same) (ground arith), none-is_latest test found rest e)
later-is_latest test q found rest (some r) e ih h =
    let x = ih r e in
    elim (Bool-cases (ltb q.revision r.revision)) [
      | inl lower ↦
          let same : r ≡ found = some-injective _ _ (rw lower at h) in
          (rw (← same) (ground arith), rw (← same) x)
      | inr higher ↦
          let same : q ≡ found = some-injective _ _ (rw higher at h) in
          (rw (← same) (ground arith), rw (← same) (is_latest_mono test r q rest (ground arith) x))
    ]

pub find_latest-is_latest :
    (test : Quote → Bool) (quotes : List Quote) (found : Quote)
    → find_latest test quotes ≡ some found
    → is_latest test found quotes ≡ true
find_latest-is_latest test [] found h = refl
find_latest-is_latest test (q ∷ rest) found h = elim (Bool-cases (test q)) [
  | inr e ↦ rw e (find_latest-is_latest test rest found (rw e at h))
  | inl e ↦
      let (first, others) =
        later-is_latest test q found rest (find_latest test rest) refl
          (λ r. find_latest-is_latest test rest r) (rw e at h) in
      rw (e, first) others
]

below_bound :
    (bound : ℕ) (quotes : List Quote)
    → max_revision quotes ≤ bound
    → all (λ q. ltb q.revision (bound + 1)) quotes ≡ true
below_bound bound [] h = refl
below_bound bound (q ∷ rest) h =
    and_intro _ _ (ground arith) (below_bound bound rest (ground arith))

-- Every row has a lower revision than the next one.
pub max_revision-below :
    (quotes : List Quote) → all (λ q. ltb q.revision (max_revision quotes + 1)) quotes ≡ true
max_revision-below quotes = below_bound (max_revision quotes) quotes (omega arith)
