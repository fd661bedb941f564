-- ===== src/Ledger/Posting/Resolved.antt =====
-- The codes of the accounts of wallets and of the platform, and the wallets that a resolved entry
-- updates.
use Prim.Native.String.{String, len, slice, ◌++◌ as ◌+++◌}
use tamam.Ledger.{LedgerLine, wallet_account_code, platform_account_code, account_type_name}
use tamam.Ledger.Posting.{ResolvedEntry, resolve_entries, updates, nonempty, line_code}
use tamam.Ledger.Posting.Codes.{
  Account, Wallet, account_for_code, wallet_account, platform_account, wallet_id_from_code, if_text,
  add_account, assert_supported_currency, first_part, second_part, account_types, wallet_owner_eq,
}
use tamam.Prelude.{
  ◌≡◌, refl, sym, ap, ◌∙◌, true, false, not, ◌&&◌, Option, none, some, List, [], ◌∷◌, inl, inr,
  Bool-cases,
}
use tamam.Prelude.Data.{◌===◌}
use tamam.Prelude.Lists.{All, find?}
use tamam.Shared.Enums.{
  LedgerAccountType, customer_wallet, partner_wallet, platform_revenue, platform_cash_clearing,
  platform_gateway_clearing, platform_promo_expense, platform_refund_expense, platform_payables,
}
use tamam.Shared.Errors.{
  ok, bind_ok, then_ok, ok-injective, or_throw, throw_if, not_found_error, validation,
}
use tamam.Shared.Text.{string_eq, has_text}
use text.Mathlib.TextLemmas.{append_cancel_left, append_assoc}
use text.Mathlib.TextPositions.{slice-append_left}

unequal : (a b : String) → (a ≡ b → ⊥) → a === b ≡ false
unequal a b apart = elim (Bool-cases (a === b)) [
  | inl e ↦ absurd (apart ((string_eq.beq_iff a b).0 e))
  | inr n ↦ n
]

-- A text that begins with seven other characters is no code of a wallet's account.
other_prefix :
    (p q rest id : String)
    → p === "WALLET:" ≡ false
    → len p ≡ 7
    → (p +++ q) +++ rest ≡ wallet_account_code id
    → ⊥
unfolding wallet_account_code
other_prefix p q rest id differs size same =
    let begins : p ≡ "WALLET:" =
      sym (slice-append_left p (q +++ rest))
      ∙ (ap (λ n. slice (p +++ (q +++ rest)) 0 n) size
          ∙ (ap (λ s. slice s 0 7) (sym (append_assoc p q rest) ∙ same)
              ∙ slice-append_left "WALLET:" id)) in
    cc (differs, (string_eq.beq_iff p "WALLET:").1 begins)

platform-wallet_codes :
    (t : LedgerAccountType) (currency id : String)
    → platform_account_code t currency === wallet_account_code id ≡ false
unfolding platform_account_code
platform-wallet_codes customer_wallet currency id =
    unequal _ _ (other_prefix "CUSTOME" "R_WALLET" _ id refl refl)
platform-wallet_codes partner_wallet currency id =
    unequal _ _ (other_prefix "PARTNER" "_WALLET" _ id refl refl)
platform-wallet_codes platform_revenue currency id =
    unequal _ _ (other_prefix "PLATFOR" "M_REVENUE" _ id refl refl)
platform-wallet_codes platform_cash_clearing currency id =
    unequal _ _ (other_prefix "PLATFOR" "M_CASH_CLEARING" _ id refl refl)
platform-wallet_codes platform_gateway_clearing currency id =
    unequal _ _ (other_prefix "PLATFOR" "M_GATEWAY_CLEARING" _ id refl refl)
platform-wallet_codes platform_promo_expense currency id =
    unequal _ _ (other_prefix "PLATFOR" "M_PROMO_EXPENSE" _ id refl refl)
platform-wallet_codes platform_refund_expense currency id =
    unequal _ _ (other_prefix "PLATFOR" "M_REFUND_EXPENSE" _ id refl refl)
platform-wallet_codes platform_payables currency id =
    unequal _ _ (other_prefix "PLATFOR" "M_PAYABLES" _ id refl refl)

same_wallet_code : (a b : String) → wallet_account_code a === wallet_account_code b ≡ a === b
unfolding wallet_account_code
same_wallet_code a b = elim (Bool-cases (a === b)) [
  | inl e ↦ rw e ((string_eq.beq_iff _ _).1 (ap wallet_account_code ((string_eq.beq_iff a b).0 e)))
  | inr n ↦ rw n (unequal _ _ (λ same. apart n (append_cancel_left "WALLET:" a b same)))
]
  where
    apart : a === b ≡ false → a ≡ b → ⊥
    apart n e = cc (n, (string_eq.beq_iff a b).1 e)

-- The entry updates a wallet if it is on the wallet's account, and only then.
abbrev pub IsResolved : ResolvedEntry → Type 0
IsResolved entry =
    (wallet : Wallet) → updates entry wallet ≡ entry.account_code === wallet_account_code wallet.id

-- The code of the account that was found, and the wallet that the code names.
abbrev Leads : Option String → Account → Type 0
Leads id account =
    (wallet : Wallet)
    → (elim id [ none ↦ false | some i ↦ has_text (some i) && i === wallet.id ])
      ≡ account.code === wallet_account_code wallet.id

wallet_account-Leads :
    (wallets : List Wallet) (id currency : String) (account : Account)
    → has_text (some id) ≡ true
    → wallet_account wallets id currency ≡ ok account
    → Leads (some id) account
unfolding wallet_account
wallet_account-Leads wallets id currency account text found wallet =
    let (w, _, more) =
      bind_ok (or_throw (find? (λ w. w.id === id) wallets) not_found_error) _ found in
    let (_, more') = then_ok (throw_if (not (w.currency === currency)) validation) _ more in
    let (_, made) = then_ok (assert_supported_currency currency) _ more' in
    let code : wallet_account_code id ≡ account.code = ap (λ a. a.code) (ok-injective _ _ made) in
    rw (text, ← code) (sym (same_wallet_code id wallet.id))

platform_account-code :
    (code currency id : String) (account : Account)
    → platform_account code currency ≡ ok account
    → account.code === wallet_account_code id ≡ false
unfolding platform_account
platform_account-code code currency id account found =
    let (t, _, more) =
      bind_ok
        (or_throw (find? (λ t. account_type_name t === first_part code) account_types) validation) _
        found in
    let (_, more') =
      then_ok (throw_if (not (has_text (some (second_part code)))) validation) _ more in
    let (_, more'') = then_ok (throw_if (not (second_part code === currency)) validation) _ more' in
    let (_, made) = then_ok (assert_supported_currency (second_part code)) _ more'' in
    let code' : platform_account_code t (second_part code) ≡ account.code =
      ap (λ a. a.code) (ok-injective _ _ made) in
    rw (← code') (platform-wallet_codes t (second_part code) id)

account-Leads :
    (wallets : List Wallet) (code currency : String) (account : Account) (id : Option String)
    → if_text id (λ i. wallet_account wallets i currency) (platform_account code currency)
      ≡ ok account
    → Leads id account
account-Leads wallets code currency account none found wallet =
    sym (platform_account-code code currency wallet.id account found)
account-Leads wallets code currency account (some i) found wallet =
    elim (Bool-cases (has_text (some i))) [
      | inl e ↦ wallet_account-Leads wallets i currency account e (rw e at found) wallet
      | inr n ↦ rw n (sym (platform_account-code code currency wallet.id account (rw n at found)))
    ]

-- Every entry that is resolved updates the wallets whose account it is on, and no other.
pub resolve_entries-IsResolved :
    (wallets : List Wallet) (currency : String) (lines : List LedgerLine) (accounts : List Account)
    (found : List ResolvedEntry × List Account)
    → resolve_entries wallets currency lines accounts ≡ ok found
    → All IsResolved found.0
unfolding resolve_entries account_for_code
resolve_entries-IsResolved wallets currency [] accounts found returned =
    rw (← ok-injective _ _ returned) tt
resolve_entries-IsResolved wallets currency (line ∷ rest) accounts found returned =
    let (code, _, h₀) = bind_ok (or_throw (nonempty (line_code line)) validation) _ returned in
    let (account, leads, h₁) = bind_ok (account_for_code wallets code currency) _ h₀ in
    let (others, more, h₂) =
      bind_ok (resolve_entries wallets currency rest (add_account account accounts)) _ h₁ in
    rw (← ok-injective _ _ h₂) (
      account-Leads wallets code currency account (wallet_id_from_code code) leads,
      resolve_entries-IsResolved wallets currency rest (add_account account accounts) others more,
    )
