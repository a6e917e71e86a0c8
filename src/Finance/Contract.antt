-- ===== src/Finance/Contract.antt =====
-- finance.py: what a source event says must be booked, `_payload`, `_expected_postings` and
-- `_expected_header`.
pub mod Asked
use baen_economy_engine.Prelude.{
  ℕ, ◌≡◌, Bool, ◌&&◌, not, Option, none, some, String, List, [], ◌∷◌, if◌then◌else◌, str_eq, all,
  Result, ok, err, ◌>>=◌, ◌>>◌, raise_if,
}
use baen_economy_engine.Prelude.Text.{codes}
use baen_economy_engine.Prelude.Dict.{contains, string_eq}
use baen_economy_engine.Json.{Value, obj, text, raw, Fields, end, field}
use baen_economy_engine.Decimal.Number.{Decimal, zero_dec, le_dec}
use baen_economy_engine.Decimal.Context.{DecimalError, add, negate}
use baen_economy_engine.Events.Types.{Primitives, EventEnvelope, EventError}
use baen_economy_engine.Events.Envelope.{validate_integrity}
use baen_economy_engine.Finance.Patterns.{
  Journal, bad_payload, bad_slug, unsupported_type, wrong_type, zero_repayment, from_event,
  arithmetic, is_slug, validate_account, validate_currency, bad_currency,
}
use baen_economy_engine.Finance.Amount.{positive_amount, nonnegative_amount}

abbrev pub from_store {ℓ} : {A : Type ℓ} → Result EventError A → Journal A
from_store (ok a) = ok a
from_store (err e) = err (from_event e)

abbrev pub in_context {ℓ} : {A : Type ℓ} → Result DecimalError A → Journal A
in_context (ok a) = ok a
in_context (err e) = err (arithmetic e)

pub in_context-ok {ℓ} :
    {A : Type ℓ} (r : Result DecimalError A) {a : A} → in_context r ≡ ok a → r ≡ ok a
in_context-ok (ok a) h = cc
in_context-ok (err e) h = cc

pub record Posting : Type 0 where
  pub account : String
  pub amount : Decimal
  pub currency : List ℕ

-- `Posting.__post_init__`
unfoldable pub posting_post_init : Posting → Journal Posting
posting_post_init p = do validate_account p.account; validate_currency p.currency; ok p

-- The types of the events that are booked, in the journal's words.
pub data BookType : Type 0 where
  bank_deposit loan_credit loan_repayment_from_deposit treasury_borrowing : BookType

-- `SOURCE_EVENT_TYPES.get(event_type)`
unfoldable pub source_event_type : String → Option BookType
source_event_type t =
    if str_eq t "finance.bank_deposit"
    then some bank_deposit
    else if str_eq t "finance.loan_credit"
    then some loan_credit
    else if str_eq t "finance.loan_repayment"
    then some loan_repayment_from_deposit
    else if str_eq t "finance.treasury_borrowing"
    then some treasury_borrowing
    else none

abbrev pub expected_entity : BookType → String
expected_entity bank_deposit = "entity:northern-crown-financial"
expected_entity loan_credit = "entity:northern-crown-financial"
expected_entity loan_repayment_from_deposit = "entity:northern-crown-financial"
expected_entity treasury_borrowing = "entity:central-treasury"

abbrev pub expected_narration : BookType → String
expected_narration bank_deposit = "Deposit received"
expected_narration loan_credit = "Loan credited to borrower deposit"
expected_narration loan_repayment_from_deposit = "Loan principal and interest paid from deposit"
expected_narration treasury_borrowing = "Borrowing proceeds cleared"

-- `PAYLOAD_KEYS`
abbrev payload_keys : BookType → List String
payload_keys bank_deposit = "amount" ∷ "currency" ∷ "customer_slug" ∷ []
payload_keys loan_credit = "amount" ∷ "currency" ∷ "borrower_slug" ∷ []
payload_keys loan_repayment_from_deposit =
    "principal" ∷ "interest" ∷ "currency" ∷ "borrower_slug" ∷ []
payload_keys treasury_borrowing = "amount" ∷ "currency" ∷ "lender_slug" ∷ []

-- `payload.get(key)` and the keys of an object.
pub get : String → Fields → Option Value
get key end = none
get key (field k v fs) = if str_eq k key then some v else get key fs

keys_of : Fields → List String
keys_of end = []
keys_of (field k v fs) = k ∷ keys_of fs

-- Two lists of keys as sets.
same_keys : List String → List String → Bool
same_keys xs ys = all (λ x. contains x ys) xs && all (λ y. contains y xs) ys

check_keys : Option BookType → Fields → Journal Fields
unfolding keys_of same_keys
check_keys none fs = err unsupported_type
check_keys (some t) fs = do
  raise_if (not (same_keys (keys_of fs) (payload_keys t))) bad_payload
  ok fs

payload_of : Option BookType → Option Value → Journal Fields
unfolding check_keys
payload_of t (some (obj fs)) = check_keys t fs
payload_of t _ = err bad_payload

currency_from : Option Value → Journal (List ℕ)
currency_from (some (text s)) = do validate_currency (codes s); ok (codes s)
currency_from (some (raw cs)) = do validate_currency cs; ok cs
currency_from _ = err bad_currency

slug_from : Option Value → Journal (List ℕ)
slug_from (some (text s)) = do raise_if (not (is_slug (codes s))) bad_slug; ok (codes s)
slug_from (some (raw cs)) = do raise_if (not (is_slug cs)) bad_slug; ok cs
slug_from _ = err bad_slug

-- `_payload_currency` and `_payload_slug`
unfoldable pub payload_currency : Fields → Journal (List ℕ)
unfolding currency_from get
payload_currency fs = currency_from (get "currency" fs)

unfoldable pub payload_slug : String → Fields → Journal (List ℕ)
unfolding slug_from get
payload_slug key fs = slug_from (get key fs)

-- An amount on one account, and the same taken from the other.
transfer : String → String → Decimal → List ℕ → Journal (List Posting)
transfer debit credit amount currency = do
  first ← posting_post_init (record { account = debit; amount = amount; currency = currency })
  taken ← in_context (negate amount)
  second ← posting_post_init (record { account = credit; amount = taken; currency = currency })
  ok (first ∷ second ∷ [])

repayment : Decimal → Decimal → Decimal → List ℕ → Journal (List Posting)
repayment total principal interest currency = do
  first ←
      posting_post_init
        (record { account = "Liabilities:NCF:Deposits"; amount = total; currency = currency })
  repaid ← in_context (negate principal)
  second ←
      posting_post_init
        (record { account = "Assets:NCF:Loans-Receivable"; amount = repaid; currency = currency })
  earned ← in_context (negate interest)
  third ←
      posting_post_init
        (record { account = "Income:NCF:Interest"; amount = earned; currency = currency })
  ok (first ∷ second ∷ third ∷ [])

-- Where a payload names the other party.
abbrev pub payee_key : BookType → String
payee_key bank_deposit = "customer_slug"
payee_key loan_credit = "borrower_slug"
payee_key loan_repayment_from_deposit = "borrower_slug"
payee_key treasury_borrowing = "lender_slug"

module _ (prims : Primitives) (decimal_digit : ℕ → Option ℕ) where
  -- `_payload`, with the type that is expected
  unfoldable pub payload : EventEnvelope → String → Journal Fields
  unfolding payload_of
  payload e expected_type = do
    from_store (validate_integrity prims e)
    raise_if (not (str_eq e.event_type expected_type)) wrong_type
    payload_of (source_event_type expected_type) (prims.loads e.payload_json)

  -- One amount that goes from one account to another, with the slug of the other party.
  transfer_for : String → String → String → Fields → List ℕ → Journal (List Posting)
  unfolding transfer get
  transfer_for debit credit key fs currency = do
    amount ← positive_amount decimal_digit (get "amount" fs)
    _ ← payload_slug key fs
    transfer debit credit amount currency

  repayment_for : Fields → List ℕ → Journal (List Posting)
  unfolding repayment get
  repayment_for fs currency = do
    principal ← nonnegative_amount decimal_digit (get "principal" fs)
    interest ← nonnegative_amount decimal_digit (get "interest" fs)
    total ← in_context (add principal interest)
    raise_if (le_dec total zero_dec) zero_repayment
    _ ← payload_slug "borrower_slug" fs
    repayment total principal interest currency

  postings_for : Option BookType → Fields → List ℕ → Journal (List Posting)
  unfolding transfer_for repayment_for
  postings_for none fs currency = err unsupported_type
  postings_for (some bank_deposit) fs currency =
      transfer_for "Assets:NCF:Reserves" "Liabilities:NCF:Deposits" "customer_slug" fs currency
  postings_for (some loan_credit) fs currency =
      transfer_for "Assets:NCF:Loans-Receivable" "Liabilities:NCF:Deposits" "borrower_slug" fs
        currency
  postings_for (some loan_repayment_from_deposit) fs currency = repayment_for fs currency
  postings_for (some treasury_borrowing) fs currency =
      transfer_for "Assets:Treasury:Cash" "Liabilities:Debt:External" "lender_slug" fs currency

  -- `_expected_postings`
  unfoldable pub expected_postings : EventEnvelope → Journal (List Posting)
  unfolding postings_for
  expected_postings e = do
    fs ← payload e e.event_type
    currency ← payload_currency fs
    postings_for (source_event_type e.event_type) fs currency

  -- `_expected_header`, for an event of this type: the payee and the narration
  unfoldable pub expected_header : BookType → EventEnvelope → Journal (List ℕ × String)
  expected_header t e = do
    fs ← payload e e.event_type
    payee ← payload_slug (payee_key t) fs
    ok (payee, expected_narration t)
