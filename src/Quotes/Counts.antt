-- ===== src/Quotes/Counts.antt =====
-- What each operation does to the number of quotes that wait for an answer.
use Prim.Native.String.{String}
use tamam.Prelude.{
  ℕ, suc, ◌≤◌, ◌≡◌, refl, sym, Bool, true, false, not, ◌&&◌, Option, none, some, List, [], ◌∷◌, map,
  inl, inr, Bool-cases, if◌then◌else◌, arith,
}
use tamam.Prelude.Data.{◌===◌}
use tamam.Prelude.Lists.{find?}
use tamam.Quotes.Decide.{quotes_after_decide, on_response_timeout, time_out_found}
use tamam.Quotes.Pending.{
  count_submitted, settles, find_latest-found, count-set_status_lt, count-set_status_le,
}
use tamam.Quotes.Store.{
  Quote, Store, find_latest, is_submitted, set_status, with_status, quote_kind_eq,
}
use tamam.Quotes.Submit.{supersede}
use tamam.Quotes.Rows.{give_way, supersede-give_way}
use tamam.Quotes.Timeout.{time_out-throws}
use tamam.Shared.Enums.{JobStatus, QuoteKind, QuoteStatus, job_status_eq, quote_status_eq}
use tamam.Shared.Text.{string_eq}

supersede-count :
    (previous : Option Quote) (quotes : List Quote)
    → count_submitted (supersede previous quotes) ≤ count_submitted quotes
supersede-count none quotes = omega arith
supersede-count (some q) quotes = elim (Bool-cases (is_submitted q)) [
  | inl e ↦ rw e (count-set_status_le q.id QuoteStatus.superseded quotes refl)
  | inr e ↦ rw e (omega arith)
]

-- One row more, which the others may give way to.
pub added-count :
    (quote : Quote) (previous : Option Quote) (quotes : List Quote)
    → count_submitted (quote ∷ map (give_way previous) quotes) ≤ suc (count_submitted quotes)
added-count quote previous quotes =
    let fewer = supersede-count previous quotes in
    rw (← supersede-give_way previous quotes) (elim (Bool-cases (is_submitted quote)) [
      | inl e ↦ rw e (omega arith)
      | inr e ↦ rw e (omega arith)
    ])

superseded_one :
    (q : Quote)
    → (test : Bool) → test && is_submitted q ≡ false
    → is_submitted (if test then with_status QuoteStatus.superseded q else q) ≡ is_submitted q
superseded_one q true h = sym h
superseded_one q false h = refl

approved_waits :
    (q : Quote) (id : String)
    → (q.status === QuoteStatus.approved && not (q.id === id)) && is_submitted q ≡ false
approved_waits q id = ground arith

supersede_approved-count :
    (id : String) (quotes : List Quote)
    → count_submitted (
        map
          (λ q.
            if q.status === QuoteStatus.approved && not (q.id === id)
            then with_status QuoteStatus.superseded q
            else q)
          quotes)
      ≡ count_submitted quotes
supersede_approved-count id [] = refl
supersede_approved-count id (q ∷ rest) =
    rw
      (
        superseded_one q (q.status === QuoteStatus.approved && not (q.id === id))
            (approved_waits q id),
        supersede_approved-count id rest,
      )
      refl

answer_settles :
    (approve : Bool)
    → settles (if approve then QuoteStatus.approved else QuoteStatus.rejected) ≡ true
answer_settles true = refl
answer_settles false = refl

pub decided-count :
    (approve : Bool) (quote : Quote) (quotes : List Quote)
    → find_latest is_submitted quotes ≡ some quote
    → count_submitted quotes ≤ 1
    → count_submitted (quotes_after_decide approve quote quotes) ≡ 0
unfolding quotes_after_decide
decided-count approve quote quotes found one =
    let (_, there) = find_latest-found is_submitted quotes quote found in
    let settled = if approve then QuoteStatus.approved else QuoteStatus.rejected in
    let fewer = count-set_status_lt quote.id settled quotes (answer_settles approve) there in
    elim (Bool-cases (approve && quote.kind === QuoteKind.change_order)) [
      | inl e ↦
          rw (e, supersede_approved-count quote.id (set_status quote.id settled quotes))
            (omega arith)
      | inr e ↦ rw e (omega arith)
    ]

time_out_found-count :
    (now : ℕ) (store : Store) (found : Option Quote)
    → count_submitted (time_out_found now store found).0.quotes ≤ count_submitted store.quotes
unfolding time_out_found
time_out_found-count now store none = omega arith
time_out_found-count now store (some quote) = elim (Bool-cases (is_submitted quote)) [
  | inr e ↦ rw e (omega arith)
  | inl e ↦ elim (Bool-cases (store.job.status === JobStatus.quote_submitted)) [
    | inr w ↦ rw (e, w) (omega arith)
    | inl w ↦
        let waits : store.job.status ≡ JobStatus.quote_submitted =
          (job_status_eq.beq_iff _ _).0 w in
        rw (e, w, time_out-throws now store quote waits)
          (count-set_status_le quote.id QuoteStatus.rejected store.quotes refl)
  ]
]

pub on_response_timeout-count :
    (now : ℕ) (store : Store) (id : String)
    → count_submitted (on_response_timeout now store id).0.quotes ≤ count_submitted store.quotes
unfolding on_response_timeout
on_response_timeout-count now store id =
    time_out_found-count now store (find? (λ q. q.id === id) store.quotes)
