-- ===== src/Ledger/Posting/Cached.antt =====
-- The cached balances of the wallets against the balances that the entries add up to.
use Prim.Native.String.{String}
use tamam.Ledger.{wallet_account_code}
use tamam.Ledger.Posting.{
  ResolvedEntry, LedgerEntry, LedgerTransaction, Book, LedgerPostInput, signed, add_entries,
  ledger_balance, entry_rows, with_balance, updates, with_cache, update_wallets, write,
}
use tamam.Ledger.Posting.Codes.{Account, Wallet}
use tamam.Ledger.Posting.Resolved.{IsResolved}
use tamam.Prelude.{
  ◌≡◌, refl, sym, ap, ◌∙◌, Bool, true, false, ◌||◌, List, [], ◌∷◌, map, inl, inr, ◌⊎◌, Bool-cases,
  if◌then◌else◌,
}
use tamam.Prelude.Data.{◌===◌}
use tamam.Prelude.Int.{ℤ, int_laws}
use tamam.Prelude.Lists.{All, any}
use tamam.Shared.Enums.{LedgerEntryDirection, debit, credit}
use tamam.Shared.Text.{string_eq}

signed_swap :
    (d d' : LedgerEntryDirection) (a a' sum : ℤ)
    → signed d a (signed d' a' sum) ≡ signed d' a' (signed d a sum)
signed_swap credit credit a a' sum = omega int_laws
signed_swap credit debit a a' sum = omega int_laws
signed_swap debit credit a a' sum = omega int_laws
signed_swap debit debit a a' sum = omega int_laws

-- An entry before the others, or after them.
add_entries-signed :
    (code : String) (d : LedgerEntryDirection) (a : ℤ) (entries : List LedgerEntry) (sum : ℤ)
    → add_entries code entries (signed d a sum) ≡ signed d a (add_entries code entries sum)
add_entries-signed code d a [] sum = refl
add_entries-signed code d a (e ∷ rest) sum = elim (Bool-cases (e.account_code === code)) [
  | inl on ↦ rw (on, add_entries-signed code d a rest sum) (signed_swap _ _ _ _ _)
  | inr off ↦ rw (off, add_entries-signed code d a rest sum) refl
]

-- The balance of every account after the rows are written.
entry_rows-balance :
    (entries : List ResolvedEntry) (balances : String → ℤ) (code : String)
    → (entry_rows entries balances).1 code
      ≡ add_entries code (entry_rows entries balances).0 (balances code)
unfolding entry_rows
entry_rows-balance [] balances code = refl
entry_rows-balance (e ∷ rest) balances code =
    let after = signed e.direction e.amount_minor (balances e.account_code) in
    let next = with_balance balances e.account_code after in
    let rows = (entry_rows rest next).0 in
    let others = entry_rows-balance rest next code in
    elim (Bool-cases (e.account_code === code)) [
      | inr off ↦
          let kept : next code ≡ balances code = rw off refl in
          rw off (others ∙ ap (add_entries code rows) kept)
      | inl on ↦
          let same : e.account_code ≡ code = (string_eq.beq_iff _ _).0 on in
          let set : next code ≡ signed e.direction e.amount_minor (balances code) =
            rw on (ap (λ c. signed e.direction e.amount_minor (balances c)) same) in
          rw on (
            others
            ∙ (ap (add_entries code rows) set
                ∙ add_entries-signed code e.direction e.amount_minor rows (balances code)))
    ]

neither : (a b : Bool) → a || b ≡ false → (a ≡ false) × (b ≡ false)
neither false false h = (refl, refl)
neither false true h = cc
neither true b h = cc

-- No entry is on the account.
entry_rows-untouched :
    (entries : List ResolvedEntry) (balances : String → ℤ) (code : String)
    → any (λ e. e.account_code === code) entries ≡ false
    → (entry_rows entries balances).1 code ≡ balances code
unfolding entry_rows
entry_rows-untouched [] balances code h = refl
entry_rows-untouched (e ∷ rest) balances code h =
    let (off, others) =
      neither (e.account_code === code) (any (λ e. e.account_code === code) rest) h in
    let after = signed e.direction e.amount_minor (balances e.account_code) in
    let kept : with_balance balances e.account_code after code ≡ balances code = rw off refl in
    entry_rows-untouched rest (with_balance balances e.account_code after) code others ∙ kept

-- The wallets that the rest of the loop has still to update, or that have their balance.
abbrev Settles : List ResolvedEntry → (String → ℤ) → Wallet → Type 0
Settles entries balances w =
    (any (λ e. updates e w) entries ≡ true)
    ⊎ (w.balance_minor ≡ balances (wallet_account_code w.id))

refresh-Settles :
    (e : ResolvedEntry) (rest : List ResolvedEntry) (balances : String → ℤ) (w : Wallet)
    → IsResolved e
    → Settles (e ∷ rest) balances w
    → Settles rest balances (if updates e w then with_cache w (balances e.account_code) else w)
refresh-Settles e rest balances w resolved h = elim (Bool-cases (updates e w)) [
  | inl on ↦
      let same : e.account_code ≡ wallet_account_code w.id =
        (string_eq.beq_iff _ _).0 (sym (resolved w) ∙ on) in
      rw on (inr (ap balances same))
  | inr off ↦ rw off (elim h [ inl later ↦ inl (rw off at later) | inr done ↦ inr done ])
]

refresh-All-Settles :
    (e : ResolvedEntry) (rest : List ResolvedEntry) (balances : String → ℤ) (ws : List Wallet)
    → IsResolved e
    → All (Settles (e ∷ rest) balances) ws
    → All
        (Settles rest balances)
        (map (λ w. if updates e w then with_cache w (balances e.account_code) else w) ws)
refresh-All-Settles e rest balances [] resolved h = tt
refresh-All-Settles e rest balances (w ∷ ws) resolved h = (
  refresh-Settles e rest balances w resolved h.0,
  refresh-All-Settles e rest balances ws resolved h.1,
)

abbrev HasBalance : (String → ℤ) → Wallet → Type 0
HasBalance balances w = w.balance_minor ≡ balances (wallet_account_code w.id)

settled :
    (balances : String → ℤ) (ws : List Wallet)
    → All (Settles [] balances) ws
    → All (HasBalance balances) ws
settled balances [] h = tt
settled balances (w ∷ ws) h =
    (elim h.0 [ inl e ↦ absurd (cc) | inr done ↦ done ], settled balances ws h.1)

update_wallets-HasBalance :
    (entries : List ResolvedEntry) (balances : String → ℤ) (ws : List Wallet)
    → All IsResolved entries
    → All (Settles entries balances) ws
    → All (HasBalance balances) (update_wallets entries balances ws)
unfolding update_wallets
update_wallets-HasBalance [] balances ws resolved h = settled balances ws h
update_wallets-HasBalance (e ∷ rest) balances ws resolved h =
    update_wallets-HasBalance rest balances _ resolved.1
      (refresh-All-Settles e rest balances ws resolved.0 h)

touched :
    (entries : List ResolvedEntry) (w : Wallet)
    → All IsResolved entries
    → any (λ e. updates e w) entries
      ≡ any (λ e. e.account_code === wallet_account_code w.id) entries
touched [] w resolved = refl
touched (e ∷ rest) w resolved = rw (resolved.0 w, touched rest w resolved.1) refl

-- The cached balance of a wallet is the one that the entries add up to.
abbrev pub IsCached : List LedgerTransaction → Wallet → Type 0
IsCached transactions w = w.balance_minor ≡ ledger_balance (wallet_account_code w.id) transactions

IsCached-Settles :
    (entries : List ResolvedEntry) (transactions : List LedgerTransaction) (w : Wallet)
    → All IsResolved entries
    → IsCached transactions w
    → Settles entries (entry_rows entries (λ code. ledger_balance code transactions)).1 w
IsCached-Settles entries transactions w resolved cached =
    elim (Bool-cases (any (λ e. updates e w) entries)) [
      | inl on ↦ inl on
      | inr off ↦ inr (
          cached
          ∙ sym (
              entry_rows-untouched entries (λ code. ledger_balance code transactions)
                (wallet_account_code w.id) (sym (touched entries w resolved) ∙ off)))
    ]

resolved-All-Settles :
    (entries : List ResolvedEntry) (transactions : List LedgerTransaction) (ws : List Wallet)
    → All IsResolved entries
    → All (IsCached transactions) ws
    → All (Settles entries (entry_rows entries (λ code. ledger_balance code transactions)).1) ws
resolved-All-Settles entries transactions [] resolved cached = tt
resolved-All-Settles entries transactions (w ∷ ws) resolved cached = (
  IsCached-Settles entries transactions w resolved cached.0,
  resolved-All-Settles entries transactions ws resolved cached.1,
)

written-IsCached :
    (entries : List ResolvedEntry) (t : LedgerTransaction) (transactions : List LedgerTransaction)
    (ws : List Wallet)
    → t.entries ≡ (entry_rows entries (λ code. ledger_balance code transactions)).0
    → All (HasBalance (entry_rows entries (λ code. ledger_balance code transactions)).1) ws
    → All (IsCached (t ∷ transactions)) ws
unfolding ledger_balance
written-IsCached entries t transactions [] rows h = tt
written-IsCached entries t transactions (w ∷ ws) rows h = (
  h.0
      ∙ (entry_rows-balance entries (λ code. ledger_balance code transactions)
            (wallet_account_code w.id)
          ∙ ap
              (λ es.
                add_entries (wallet_account_code w.id) es
                  (ledger_balance (wallet_account_code w.id) transactions))
              (sym rows)),
  written-IsCached entries t transactions ws rows h.1,
)

-- The writes of `post` keep the caches right.
pub write-IsCached :
    (input : LedgerPostInput) (book : Book) (entries : List ResolvedEntry) (accounts : List Account)
    → All IsResolved entries
    → All (IsCached book.transactions) book.wallets
    → All
        (IsCached (write input book entries accounts).0.transactions)
        (write input book entries accounts).0.wallets
unfolding write
write-IsCached input book entries accounts resolved cached =
    let balances = (entry_rows entries (λ code. ledger_balance code book.transactions)).1 in
    written-IsCached entries _ book.transactions (update_wallets entries balances book.wallets) refl
      (update_wallets-HasBalance entries balances book.wallets resolved
        (resolved-All-Settles entries book.transactions book.wallets resolved cached))
