-- ===== src/Ledger/Posting/Sound.antt =====
-- What `post` keeps true of the ledger, and what it does when it is called twice.
use Prim.Native.String.{String}
use tamam.Ledger.{LedgerLine, assert_balanced}
use tamam.Ledger.Balance.{IsBalanced, assert_balanced_iff, debits, credits, debit_of, credit_of}
use tamam.Ledger.Posting.{
  ResolvedEntry, LedgerEntry, LedgerTransaction, Book, LedgerPostInput, signed, resolve_entries,
  entry_rows, write, post_new, post, nonempty, line_code,
}
use tamam.Ledger.Posting.Cached.{IsCached, write-IsCached}
use tamam.Ledger.Posting.Codes.{
  Account, Wallet, account_for_code, add_account, assert_supported_currency,
}
use tamam.Ledger.Posting.Resolved.{resolve_entries-IsResolved}
use tamam.Prelude.{◌≡◌, refl, ap, ◌∙◌, Option, some, List, [], ◌∷◌, inl, inr, Option-cases}
use tamam.Prelude.Data.{◌===◌}
use tamam.Prelude.Int.{ℤ, pos, ◌+ℤ◌, int_laws, parts_of_eq}
use tamam.Prelude.Lists.{All, find?}
use tamam.Shared.Enums.{LedgerEntryDirection, debit, credit}
use tamam.Shared.Errors.{ok, bind_ok, then_ok, ok-injective, or_throw, validation}
use tamam.Shared.Text.{string_eq}

-- The credits of a transaction less its debits.
abbrev pub net : List LedgerEntry → ℤ
net [] = pos 0
net (e ∷ rest) = signed e.direction e.amount_minor (net rest)

abbrev resolved_net : List ResolvedEntry → ℤ
resolved_net [] = pos 0
resolved_net (e ∷ rest) = signed e.direction e.amount_minor (resolved_net rest)

entry_rows-net :
    (entries : List ResolvedEntry) (balances : String → ℤ)
    → net (entry_rows entries balances).0 ≡ resolved_net entries
unfolding entry_rows
entry_rows-net [] balances = refl
entry_rows-net (e ∷ rest) balances = ap (signed e.direction e.amount_minor) (entry_rows-net rest _)

add_line :
    (d : LedgerEntryDirection) (account wallet : Option String) (a n ds cs : ℤ)
    → n +ℤ ds ≡ cs
    → signed d a n
        +ℤ (debit_of (record {
          account_code = account;
          wallet_id = wallet;
          direction = d;
          amount_minor = a;
        })
            +ℤ ds)
      ≡ credit_of
          (record { account_code = account; wallet_id = wallet; direction = d; amount_minor = a })
        +ℤ cs
add_line credit account wallet a n ds cs h = rw (← h) (omega int_laws)
add_line debit account wallet a n ds cs h = rw (← h) (omega int_laws)

resolve_entries-net :
    (wallets : List Wallet) (currency : String) (lines : List LedgerLine) (accounts : List Account)
    (found : List ResolvedEntry × List Account)
    → resolve_entries wallets currency lines accounts ≡ ok found
    → resolved_net found.0 +ℤ debits lines ≡ credits lines
unfolding resolve_entries debits credits
resolve_entries-net wallets currency [] accounts found returned =
    rw (← ok-injective _ _ returned) (omega int_laws)
resolve_entries-net wallets currency (line ∷ rest) accounts found returned =
    let (code, _, h₀) = bind_ok (or_throw (nonempty (line_code line)) validation) _ returned in
    let (account, _, h₁) = bind_ok (account_for_code wallets code currency) _ h₀ in
    let (others, more, h₂) =
      bind_ok (resolve_entries wallets currency rest (add_account account accounts)) _ h₁ in
    rw (← ok-injective _ _ h₂) (
      add_line line.direction line.account_code line.wallet_id line.amount_minor _ _ _
        (resolve_entries-net wallets currency rest (add_account account accounts) others more))

-- The ledger is sound: every transaction balances, and every wallet shows the balance of its account.
pub record IsSound (book : Book) : Type 0 where
  pub balanced : All (λ t. net t.entries ≡ pos 0) book.transactions
  pub cached : All (IsCached book.transactions) book.wallets

no_net : (n d c : ℤ) → n +ℤ d ≡ c → d ≡ c → n ≡ pos 0
no_net n d c h k =
    let sums = parts_of_eq (n +ℤ d) c h in let sides = parts_of_eq d c k in omega int_laws

-- What a new transaction writes.
post_new-writes :
    (input : LedgerPostInput) (book : Book) (done : Book × LedgerTransaction)
    → post_new input book ≡ ok done
    → (found : List ResolvedEntry × List Account) × (resolve_entries book.wallets input.currency
          input.entries book.accounts
        ≡ ok found)
      × IsBalanced input.entries
      × (write input book found.0 found.1 ≡ done)
unfolding post_new
post_new-writes input book done returned =
    let (_, h₀) = then_ok (assert_supported_currency input.currency) _ returned in
    let (balanced, h₁) = then_ok (assert_balanced input.entries) _ h₀ in
    let (found, resolved, h₂) =
      bind_ok (resolve_entries book.wallets input.currency input.entries book.accounts) _ h₁ in
    (found, resolved, (assert_balanced_iff input.entries).0 balanced, ok-injective _ _ h₂)

write-balanced :
    (input : LedgerPostInput) (book : Book) (found : List ResolvedEntry × List Account)
    → resolve_entries book.wallets input.currency input.entries book.accounts ≡ ok found
    → IsBalanced input.entries
    → All (λ t. net t.entries ≡ pos 0) book.transactions
    → All (λ t. net t.entries ≡ pos 0) (write input book found.0 found.1).0.transactions
unfolding write
write-balanced input book found resolved balanced before = (
  entry_rows-net found.0 _
      ∙ no_net _ _ _
          (resolve_entries-net book.wallets input.currency input.entries book.accounts found
            resolved)
          balanced.sums,
  before,
)

post_new-IsSound :
    (input : LedgerPostInput) (book : Book) (done : Book × LedgerTransaction)
    → IsSound book
    → post_new input book ≡ ok done
    → IsSound done.0
post_new-IsSound input book done sound returned =
    let (found, resolved, balanced, made) = post_new-writes input book done returned in
    rw (← made) (record {
      balanced = write-balanced input book found resolved balanced sound.balanced;
      cached =
          write-IsCached input book found.0 found.1
            (resolve_entries-IsResolved book.wallets input.currency input.entries book.accounts
              found resolved)
            sound.cached;
    })

-- When `post` returns, the ledger is as sound as before: the credits of every transaction are its debits, and the
-- cached balance of every wallet is what the entries on its account add up to.
pub post-IsSound :
    (input : LedgerPostInput) (book : Book) (done : Book × LedgerTransaction)
    → IsSound book
    → post input book ≡ ok done
    → IsSound done.0
unfolding post
post-IsSound input book done sound returned =
    elim (Option-cases
      (find? (λ t. t.idempotency_key === input.idempotency_key) book.transactions)) [
        | inl e ↦ post_new-IsSound input book done sound (rw e at returned)
        | inr (stored, e) ↦
            let same : (book, stored) ≡ done = ok-injective _ _ (rw e at returned) in
            rw (← same) sound
      ]

write-found :
    (input : LedgerPostInput) (book : Book) (entries : List ResolvedEntry) (accounts : List Account)
    → find?
        (λ t. t.idempotency_key === input.idempotency_key)
        (write input book entries accounts).0.transactions
      ≡ some (write input book entries accounts).1
unfolding write
write-found input book entries accounts =
    rw ((string_eq.beq_iff input.idempotency_key input.idempotency_key).1 refl) refl

-- After a call that returned, its transaction is the one with its key.
post-found :
    (input : LedgerPostInput) (book : Book) (done : Book × LedgerTransaction)
    → post input book ≡ ok done
    → find? (λ t. t.idempotency_key === input.idempotency_key) done.0.transactions ≡ some done.1
unfolding post
post-found input book done returned =
    elim (Option-cases
      (find? (λ t. t.idempotency_key === input.idempotency_key) book.transactions)) [
        | inl e ↦
            let (found, _, _, made) = post_new-writes input book done (rw e at returned) in
            rw (← made) (write-found input book found.0 found.1)
        | inr (stored, e) ↦
            let same : (book, stored) ≡ done = ok-injective _ _ (rw e at returned) in rw (← same) e
      ]

-- A call of `post` that returned can be repeated: another call with its key, whatever else it asks for, leaves the
-- ledger as it is and returns the transaction of the first call.
pub post-replay :
    (input again : LedgerPostInput) (book : Book) (done : Book × LedgerTransaction)
    → again.idempotency_key ≡ input.idempotency_key
    → post input book ≡ ok done
    → post again done.0 ≡ ok done
unfolding post
post-replay input again book done same returned =
    rw (same, post-found input book done returned) refl
