-- ===== src/Quotes/Store.antt =====
-- The state of apps/api/src/modules/quotes/quotes.service.ts: one job with its quotes, and the
-- queries and updates of the quotes. A transaction is one step, which leaves the store as it was when
-- it throws; the read of the job and the transaction that follows it are one step too. The
-- description, the duration and the note of a quote, the queue and the messages are not modelled.
use Prim.Native.String.{String}
use tamam.Jobs.Service.{JobRow}
use tamam.Prelude.{ℕ, Bool, ◌||◌, ltb, Option, none, some, List, [], ◌∷◌, map, if◌then◌else◌}
use tamam.Prelude.Data.{Eq, discrete_eq, ◌===◌}
use tamam.Prelude.Int.{ℤ}
use tamam.Quotes.Amounts.{QuoteAmounts}
use tamam.Shared.Enums.{QuoteStatus, QuoteKind, job_type_eq, job_status_eq, quote_status_eq}
use tamam.Shared.Text.{string_eq}

instance abbrev pub quote_kind_eq : Eq QuoteKind
quote_kind_eq = discrete_eq (hlevel)

-- A row of `service_quotes`.
pub record Quote : Type 0 where
  pub id : String
  pub kind : QuoteKind
  pub revision : ℕ
  pub status : QuoteStatus
  pub supersedes_quote_id : Option String
  pub amounts : QuoteAmounts

-- A job with its quotes.
pub record Store : Type 0 where
  pub job : JobRow
  pub estimated_total_minor : ℤ
  pub quotes : List Quote

abbrev pub with_status : QuoteStatus → Quote → Quote
with_status status q = record {
  id = q.id;
  kind = q.kind;
  revision = q.revision;
  status = status;
  supersedes_quote_id = q.supersedes_quote_id;
  amounts = q.amounts;
}

-- `serviceQuote.update({ where: { id }, data: { status } })`
abbrev pub set_status : String → QuoteStatus → List Quote → List Quote
set_status id status quotes = map (λ q. if q.id === id then with_status status q else q) quotes

abbrev pub later_of : Quote → Option Quote → Option Quote
later_of q none = some q
later_of q (some r) = if ltb q.revision r.revision then some r else some q

-- `findFirst({ where, orderBy: { revision: 'desc' } })`
abbrev pub find_latest : (Quote → Bool) → List Quote → Option Quote
find_latest test [] = none
find_latest test (q ∷ rest) =
    let later = find_latest test rest in if test q then later_of q later else later

-- `aggregate({ _max: { revision: true } })`, and 0 without a row.
abbrev pub max_revision : List Quote → ℕ
max_revision [] = 0
max_revision (q ∷ rest) =
    let most = max_revision rest in if ltb most q.revision then q.revision else most

abbrev pub is_submitted : Quote → Bool
is_submitted q = q.status === QuoteStatus.submitted

abbrev pub submitted_or_rejected : Quote → Bool
submitted_or_rejected q = is_submitted q || q.status === QuoteStatus.rejected
