-- ===== src/Finance/Contract/Asked.antt =====
-- finance.py: the postings that each type of event asks for, as a table of accounts.
use baen_economy_engine.Prelude.{
  ℕ, ◌≡◌, refl, sym, ap, ◌∙◌, true, Option, none, some, String, List, [], ◌∷◌, str_eq, eq_iff, ok,
  >>=-eq-ok, ok-inj, raise_if-ok, Bool-cases, inl, inr,
}
use baen_economy_engine.Json.{Fields}
use baen_economy_engine.Decimal.Number.{Decimal, zero_dec, le_dec}
use baen_economy_engine.Decimal.Context.{add, negate}
use baen_economy_engine.Events.Types.{Primitives, EventEnvelope}
use baen_economy_engine.Finance.Patterns.{validate_account, validate_currency, zero_repayment}
use baen_economy_engine.Finance.Amount.{positive_amount, nonnegative_amount}
use baen_economy_engine.Finance.Contract.{
  in_context, in_context-ok, Posting, posting_post_init, BookType, bank_deposit, loan_credit,
  loan_repayment_from_deposit, treasury_borrowing, source_event_type, get, payload_currency,
  payload_slug, transfer, repayment, payload, transfer_for, repayment_for, postings_for,
  expected_postings,
}

abbrev pub event_name : BookType → String
event_name bank_deposit = "finance.bank_deposit"
event_name loan_credit = "finance.loan_credit"
event_name loan_repayment_from_deposit = "finance.loan_repayment"
event_name treasury_borrowing = "finance.treasury_borrowing"

abbrev posting : String → Decimal → List ℕ → Posting
posting account amount currency = record { account = account; amount = amount; currency = currency }

module _ (decimal_digit : ℕ → Option ℕ) (fs : Fields) (currency : List ℕ) (ps : List Posting) where
  -- The payload's amount on the first account, and its negative on the second.
  abbrev pub IsTransfer : String → String → Type 0
  IsTransfer to from =
      (amount : Decimal) × (taken : Decimal) × (positive_amount decimal_digit (get "amount" fs)
        ≡ ok amount)
      × (negate amount ≡ ok taken)
      × (ps ≡ posting to amount currency ∷ posting from taken currency ∷ [])

  -- Principal and interest off the deposit, the principal off the loan, the interest earned.
  abbrev pub IsRepayment : Type 0
  IsRepayment =
      (principal : Decimal) × (interest : Decimal) × (total : Decimal) × (repaid : Decimal)
      × (earned : Decimal) × (nonnegative_amount decimal_digit (get "principal" fs) ≡ ok principal)
      × (nonnegative_amount decimal_digit (get "interest" fs) ≡ ok interest)
      × (add principal interest ≡ ok total)
      × (negate principal ≡ ok repaid)
      × (negate interest ≡ ok earned)
      × (ps
          ≡ posting "Liabilities:NCF:Deposits" total currency
            ∷ posting "Assets:NCF:Loans-Receivable" repaid currency
            ∷ posting "Income:NCF:Interest" earned currency
            ∷ [])

  abbrev pub Asks : BookType → Type 0
  Asks bank_deposit = IsTransfer "Assets:NCF:Reserves" "Liabilities:NCF:Deposits"
  Asks loan_credit = IsTransfer "Assets:NCF:Loans-Receivable" "Liabilities:NCF:Deposits"
  Asks loan_repayment_from_deposit = IsRepayment
  Asks treasury_borrowing = IsTransfer "Assets:Treasury:Cash" "Liabilities:Debt:External"

posting_post_init-eq : (p q : Posting) → posting_post_init p ≡ ok q → p ≡ q
unfolding posting_post_init
posting_post_init-eq p q h =
    let (_, _, h1) = >>=-eq-ok (validate_account p.account) _ h in
    let (_, _, h2) = >>=-eq-ok (validate_currency p.currency) _ h1 in ok-inj h2

transfer_lem :
    (to from : String) (amount : Decimal) (currency : List ℕ) (ps : List Posting)
    → transfer to from amount currency ≡ ok ps
    → (taken : Decimal) × (negate amount ≡ ok taken)
      × (ps ≡ posting to amount currency ∷ posting from taken currency ∷ [])
unfolding transfer
transfer_lem to from amount currency ps h =
    let (first, e1, h1) = >>=-eq-ok (posting_post_init (posting to amount currency)) _ h in
    let (taken, e2, h2) = >>=-eq-ok (in_context (negate amount)) _ h1 in
    let (second, e3, h3) = >>=-eq-ok (posting_post_init (posting from taken currency)) _ h2 in
    let same1 = posting_post_init-eq _ first e1 in
    let same2 = posting_post_init-eq _ second e3 in
    (taken, in_context-ok _ e2, sym (ok-inj h3) ∙ (λ i. sym same1 i ∷ sym same2 i ∷ []))

repayment_lem :
    (total principal interest : Decimal) (currency : List ℕ) (ps : List Posting)
    → repayment total principal interest currency ≡ ok ps
    → (repaid : Decimal) × (earned : Decimal) × (negate principal ≡ ok repaid)
      × (negate interest ≡ ok earned)
      × (ps
          ≡ posting "Liabilities:NCF:Deposits" total currency
            ∷ posting "Assets:NCF:Loans-Receivable" repaid currency
            ∷ posting "Income:NCF:Interest" earned currency
            ∷ [])
unfolding repayment
repayment_lem total principal interest currency ps h =
    let (first, e1, h1) =
      >>=-eq-ok (posting_post_init (posting "Liabilities:NCF:Deposits" total currency)) _ h in
    let (repaid, e2, h2) = >>=-eq-ok (in_context (negate principal)) _ h1 in
    let (second, e3, h3) =
      >>=-eq-ok (posting_post_init (posting "Assets:NCF:Loans-Receivable" repaid currency)) _ h2 in
    let (earned, e4, h4) = >>=-eq-ok (in_context (negate interest)) _ h3 in
    let (third, e5, h5) =
      >>=-eq-ok (posting_post_init (posting "Income:NCF:Interest" earned currency)) _ h4 in
    let same1 = posting_post_init-eq _ first e1 in
    let same2 = posting_post_init-eq _ second e3 in
    let same3 = posting_post_init-eq _ third e5 in
    (
      repaid,
      earned,
      in_context-ok _ e2,
      in_context-ok _ e4,
      sym (ok-inj h5) ∙ (λ i. sym same1 i ∷ sym same2 i ∷ sym same3 i ∷ []),
    )

source_event_type-eq :
    (name : String) (t : BookType) → source_event_type name ≡ some t → name ≡ event_name t
unfolding source_event_type
source_event_type-eq name t h = elim (Bool-cases (str_eq name "finance.bank_deposit")) [
  | inl e ↦ named bank_deposit e (rw e at h)
  | inr e ↦ elim (Bool-cases (str_eq name "finance.loan_credit")) [
    | inl e1 ↦ named loan_credit e1 (rw (e, e1) at h)
    | inr e1 ↦ elim (Bool-cases (str_eq name "finance.loan_repayment")) [
      | inl e2 ↦ named loan_repayment_from_deposit e2 (rw (e, e1, e2) at h)
      | inr e2 ↦ elim (Bool-cases (str_eq name "finance.treasury_borrowing")) [
        | inl e3 ↦ named treasury_borrowing e3 (rw (e, e1, e2, e3) at h)
        | inr e3 ↦ cc (rw (e, e1, e2, e3) at h)
      ]
    ]
  ]
]
  where
    named :
        (k : BookType) → str_eq name (event_name k) ≡ true → some k ≡ some t → name ≡ event_name t
    named k e same =
        let known : k ≡ t = cc same in (eq_iff name (event_name k)).0 e ∙ ap event_name known

module _ (prims : Primitives) (decimal_digit : ℕ → Option ℕ) where
  transfer_for_lem :
      (to from key : String) (fs : Fields) (currency : List ℕ) (ps : List Posting)
      → transfer_for prims decimal_digit to from key fs currency ≡ ok ps
      → IsTransfer decimal_digit fs currency ps to from
  unfolding transfer_for
  transfer_for_lem to from key fs currency ps h =
      let (amount, e, h1) = >>=-eq-ok (positive_amount decimal_digit (get "amount" fs)) _ h in
      let (_, _, h2) = >>=-eq-ok (payload_slug key fs) _ h1 in
      let (taken, negated, same) = transfer_lem to from amount currency ps h2 in
      (amount, taken, e, negated, same)

  repayment_for_lem :
      (fs : Fields) (currency : List ℕ) (ps : List Posting)
      → repayment_for prims decimal_digit fs currency ≡ ok ps
      → IsRepayment decimal_digit fs currency ps
  unfolding repayment_for
  repayment_for_lem fs currency ps h =
      let (principal, e1, h1) =
        >>=-eq-ok (nonnegative_amount decimal_digit (get "principal" fs)) _ h in
      let (interest, e2, h2) =
        >>=-eq-ok (nonnegative_amount decimal_digit (get "interest" fs)) _ h1 in
      let (total, e3, h3) = >>=-eq-ok (in_context (add principal interest)) _ h2 in
      let (_, h4) = raise_if-ok (le_dec total zero_dec) zero_repayment _ h3 in
      let (_, _, h5) = >>=-eq-ok (payload_slug "borrower_slug" fs) _ h4 in
      let (repaid, earned, e4, e5, same) = repayment_lem total principal interest currency ps h5 in
      (principal, interest, total, repaid, earned, e1, e2, in_context-ok _ e3, e4, e5, same)

  postings_for-Asks :
      (o : Option BookType) (fs : Fields) (currency : List ℕ) (ps : List Posting)
      → postings_for prims decimal_digit o fs currency ≡ ok ps
      → (t : BookType) × (o ≡ some t) × Asks decimal_digit fs currency ps t
  unfolding postings_for
  postings_for-Asks none fs currency ps h = cc
  postings_for-Asks (some bank_deposit) fs currency ps h =
      (bank_deposit, refl, transfer_for_lem _ _ "customer_slug" fs currency ps h)
  postings_for-Asks (some loan_credit) fs currency ps h =
      (loan_credit, refl, transfer_for_lem _ _ "borrower_slug" fs currency ps h)
  postings_for-Asks (some loan_repayment_from_deposit) fs currency ps h =
      (loan_repayment_from_deposit, refl, repayment_for_lem fs currency ps h)
  postings_for-Asks (some treasury_borrowing) fs currency ps h =
      (treasury_borrowing, refl, transfer_for_lem _ _ "lender_slug" fs currency ps h)

  -- The event is of a type that is booked, and asks for these postings in its payload's currency.
  abbrev pub IsAsked : EventEnvelope → List Posting → Type 0
  IsAsked e ps =
      (t : BookType) × (fs : Fields) × (currency : List ℕ) × (e.event_type ≡ event_name t)
      × (payload prims decimal_digit e e.event_type ≡ ok fs)
      × (payload_currency fs ≡ ok currency)
      × Asks decimal_digit fs currency ps t

  pub expected_postings-IsAsked :
      (e : EventEnvelope) (ps : List Posting)
      → expected_postings prims decimal_digit e ≡ ok ps
      → IsAsked e ps
  unfolding expected_postings
  expected_postings-IsAsked e ps h =
      let (fs, read, h1) = >>=-eq-ok (payload prims decimal_digit e e.event_type) _ h in
      let (currency, named, h2) = >>=-eq-ok (payload_currency fs) _ h1 in
      let (t, known, asks) = postings_for-Asks (source_event_type e.event_type) fs currency ps h2 in
      (t, fs, currency, source_event_type-eq e.event_type t known, read, named, asks)
