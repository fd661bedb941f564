-- ===== src/Ledger/Posting.antt =====
-- `post` of apps/api/src/modules/ledger/ledger.service.ts, and `tamam_ledger_balance` of
-- apps/api/prisma/sql/001_postgis_triggers_and_integrity.sql. A transaction is one step; an account
-- is named by its code, which is unique; the links, the texts and the actor of a transaction are not
-- modelled. The cache of `resolveEntries` saves a second look at the same account.
mod Tests
pub mod Codes
pub mod Resolved
pub mod Cached
pub mod Sound
use Prim.Native.String.{String}
use tamam.Ledger.{LedgerLine, assert_balanced, wallet_account_code}
use tamam.Ledger.Posting.Codes.{
  Account, Wallet, WalletOwnerType, account_for_code, assert_supported_currency,
  wallet_id_from_code, add_account,
}
use tamam.Prelude.{
  Bool, true, false, not, ◌&&◌, Option, none, some, List, [], ◌∷◌, map, if◌then◌else◌,
}
use tamam.Prelude.Data.{◌===◌}
use tamam.Prelude.Int.{ℤ, pos, ◌+ℤ◌, ◌-ℤ◌}
use tamam.Prelude.Lists.{find?}
use tamam.Shared.Enums.{LedgerEntryDirection, LedgerTransactionType, debit, credit}
use tamam.Shared.Errors.{Result, ok, err, validation, throw_if, or_throw, ◌>>=◌, ◌>>◌}
use tamam.Shared.Text.{string_eq, has_text}

-- `ResolvedEntry`
pub record ResolvedEntry : Type 0 where
  pub account_code : String
  pub wallet_id : Option String
  pub direction : LedgerEntryDirection
  pub amount_minor : ℤ

-- A row of `ledger_entries`.
pub record LedgerEntry : Type 0 where
  pub account_code : String
  pub direction : LedgerEntryDirection
  pub amount_minor : ℤ
  pub balance_after_minor : ℤ

-- A row of `ledger_transactions` with its entries.
pub record LedgerTransaction : Type 0 where
  pub type : LedgerTransactionType
  pub currency : String
  pub idempotency_key : String
  pub entries : List LedgerEntry

-- The tables, the latest transaction first.
pub record Book : Type 0 where
  pub wallets : List Wallet
  pub accounts : List Account
  pub transactions : List LedgerTransaction

-- `LedgerPostInput`
pub record LedgerPostInput : Type 0 where
  pub type : LedgerTransactionType
  pub currency : String
  pub entries : List LedgerLine
  pub idempotency_key : String

-- What an entry adds to the balance of its account.
abbrev pub signed : LedgerEntryDirection → ℤ → ℤ → ℤ
signed credit amount before = before +ℤ amount
signed debit amount before = before -ℤ amount

-- `tamam_ledger_balance` on the entries of one transaction, from a sum.
abbrev pub add_entries : String → List LedgerEntry → ℤ → ℤ
add_entries code [] sum = sum
add_entries code (e ∷ rest) sum =
    let more = add_entries code rest sum in
    if e.account_code === code then signed e.direction e.amount_minor more else more

-- `tamam_ledger_balance`
unfoldable pub ledger_balance : String → List LedgerTransaction → ℤ
ledger_balance code [] = pos 0
ledger_balance code (t ∷ rest) = add_entries code t.entries (ledger_balance code rest)

-- `entry.walletId ? walletAccountCode(entry.walletId) : entry.accountCode`
abbrev pub line_code : LedgerLine → Option String
line_code line = elim line.wallet_id [
  | none ↦ line.account_code
  | some id ↦ if has_text (some id) then some (wallet_account_code id) else line.account_code
]

-- `if (!code) throw`
abbrev pub nonempty : Option String → Option String
nonempty none = none
nonempty (some code) = if has_text (some code) then some code else none

-- `resolveEntries`: the entries, and the accounts with those that it created.
unfoldable pub resolve_entries :
    List Wallet
    → String
    → List LedgerLine
    → List Account
    → Result (List ResolvedEntry × List Account)
resolve_entries wallets currency [] accounts = ok ([], accounts)
resolve_entries wallets currency (line ∷ rest) accounts = do
  code ← or_throw (nonempty (line_code line)) validation
  account ← account_for_code wallets code currency
  others ← resolve_entries wallets currency rest (add_account account accounts)
  ok (
    record {
      account_code = account.code;
      wallet_id = wallet_id_from_code code;
      direction = line.direction;
      amount_minor = line.amount_minor;
    }
        ∷ others.0,
    others.1,
  )

-- `balances.set(code, value)`
abbrev pub with_balance : (String → ℤ) → String → ℤ → String → ℤ
with_balance balances code value other = if code === other then value else balances other

-- The rows of `ledger_entries`, and the balances after them.
unfoldable pub entry_rows : List ResolvedEntry → (String → ℤ) → List LedgerEntry × (String → ℤ)
entry_rows [] balances = ([], balances)
entry_rows (entry ∷ rest) balances =
    let after = signed entry.direction entry.amount_minor (balances entry.account_code) in
    let others = entry_rows rest (with_balance balances entry.account_code after) in
    (
      record {
        account_code = entry.account_code;
        direction = entry.direction;
        amount_minor = entry.amount_minor;
        balance_after_minor = after;
      }
          ∷ others.0,
      others.1,
    )

-- `entry.walletId`, when it names this wallet.
abbrev pub updates : ResolvedEntry → Wallet → Bool
updates entry wallet = elim entry.wallet_id [
  | none ↦ false
  | some id ↦ has_text (some id) && id === wallet.id
]

abbrev pub with_cache : Wallet → ℤ → Wallet
with_cache wallet balance = record {
  id = wallet.id;
  owner_type = wallet.owner_type;
  currency = wallet.currency;
  balance_minor = balance;
}

-- The loop of `wallet.update`.
unfoldable pub update_wallets : List ResolvedEntry → (String → ℤ) → List Wallet → List Wallet
update_wallets [] balances wallets = wallets
update_wallets (entry ∷ rest) balances wallets =
    update_wallets rest balances
      (map (λ w. if updates entry w then with_cache w (balances entry.account_code) else w) wallets)

-- The writes of `postInTx`, past its checks.
unfoldable pub write :
    LedgerPostInput → Book → List ResolvedEntry → List Account → Book × LedgerTransaction
write input book resolved accounts =
    let rows = entry_rows resolved (λ code. ledger_balance code book.transactions) in
    let written : LedgerTransaction = record {
      type = input.type;
      currency = input.currency;
      idempotency_key = input.idempotency_key;
      entries = rows.0;
    } in
    (
      record {
        wallets = update_wallets resolved rows.1 book.wallets;
        accounts = accounts;
        transactions = written ∷ book.transactions;
      },
      written,
    )

-- `postInTx` when no transaction has the key.
unfoldable pub post_new : LedgerPostInput → Book → Result (Book × LedgerTransaction)
post_new input book = do
  assert_supported_currency input.currency
  assert_balanced input.entries
  resolved ← resolve_entries book.wallets input.currency input.entries book.accounts
  ok (write input book resolved.0 resolved.1)

abbrev pub replay :
    Option LedgerTransaction
    → Book
    → Result (Book × LedgerTransaction)
    → Result (Book × LedgerTransaction)
replay none book new = new
replay (some stored) book new = ok (book, stored)

-- `post`
unfoldable pub post : LedgerPostInput → Book → Result (Book × LedgerTransaction)
post input book =
    replay (find? (λ t. t.idempotency_key === input.idempotency_key) book.transactions) book
      (post_new input book)
