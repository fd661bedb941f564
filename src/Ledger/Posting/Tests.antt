-- ===== src/Ledger/Posting/Tests.antt =====
-- The theorems on posting at a book with one wallet.
use tamam.Ledger.{assert_balanced, tally, check_line, wallet_account_code, platform_account_code}
use tamam.Ledger.Posting.{
  Book, LedgerPostInput, LedgerTransaction, post, post_new, resolve_entries, entry_rows,
  update_wallets, write, ledger_balance,
}
use tamam.Ledger.Posting.Codes.{
  Wallet, WalletOwnerType, account_for_code, wallet_account, platform_account,
  assert_supported_currency, wallet_id_from_code,
}
use tamam.Ledger.Posting.Sound.{IsSound, post-IsSound, post-replay}
use tamam.Prelude.{◌≡◌, refl, none, some, [], ◌∷◌}
use tamam.Prelude.Int.{pos, ◌+ℤ◌, ◌-ℤ◌}
use tamam.Shared.Enums.{debit, credit, bonus, wallet_topup}
use tamam.Shared.Errors.{Result, ok, err}

abbrev purse : Wallet
purse = record {
  id = "a1";
  owner_type = WalletOwnerType.customer;
  currency = "ILS";
  balance_minor = pos 0;
}

abbrev opened : Book
opened = record { wallets = purse ∷ []; accounts = []; transactions = [] }

opened-IsSound : IsSound opened
unfolding ledger_balance
opened-IsSound = record { balanced = tt; cached = (refl, tt) }

abbrev topup : LedgerPostInput
topup = record {
  type = wallet_topup;
  currency = "ILS";
  entries =
      record {
        account_code = some "PLATFORM_CASH_CLEARING:ILS";
        wallet_id = none;
        direction = debit;
        amount_minor = pos 500;
      }
      ∷ record {
        account_code = none;
        wallet_id = some "a1";
        direction = credit;
        amount_minor = pos 500;
      }
      ∷ [];
  idempotency_key = "topup-1";
}

abbrev no_transaction : LedgerTransaction
no_transaction = record { type = bonus; currency = "ILS"; idempotency_key = ""; entries = [] }

abbrev done_or : Result (Book × LedgerTransaction) → Book × LedgerTransaction
done_or (ok done) = done
done_or (err e) = (opened, no_transaction)

abbrev filled : Book × LedgerTransaction
unfolding post
filled = done_or (post topup opened)

filled_once : post topup opened ≡ ok filled
unfolding filled post post_new resolve_entries entry_rows update_wallets write ledger_balance
    account_for_code wallet_account platform_account assert_supported_currency wallet_id_from_code
    assert_balanced tally check_line wallet_account_code platform_account_code ◌+ℤ◌ ◌-ℤ◌
filled_once = refl

post-IsSound_example : IsSound filled.0
post-IsSound_example = post-IsSound topup opened filled opened-IsSound filled_once

post-replay_example : post topup filled.0 ≡ ok filled
post-replay_example = post-replay topup topup opened filled refl filled_once
