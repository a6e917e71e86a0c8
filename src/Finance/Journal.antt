-- ===== src/Finance/Journal.antt =====
-- finance.py: accounts, journal events with `JournalEvent.validate`, and the functions that make them.
pub mod Facts
use Prim.Native.Nat.{Ordering, compare as compare_nat}
use Prim.Native.String.{compare as compare_text}
use baen_economy_engine.Prelude.{
  ℕ, Bool, true, false, ◌&&◌, ◌||◌, not, Option, none, some, String, List, [], ◌∷◌, if◌then◌else◌,
  str_eq, any, ok, err, ◌>>=◌, ◌>>◌, raise_if,
}
use baen_economy_engine.Prelude.Text.{codes}
use baen_economy_engine.Prelude.Dict.{Eq, Dict, contains, lookup, string_eq}
use baen_economy_engine.Decimal.Number.{Decimal, zero_dec, is_zero, eq_dec}
use baen_economy_engine.Decimal.Context.{add}
use baen_economy_engine.Events.Types.{Primitives, EventEnvelope, may_mutate_actual}
use baen_economy_engine.Events.Envelope.{validate_integrity, codes_eq, codes_eq_iff}
use baen_economy_engine.Stockflow.Sorting.{sorted, ◌then_by◌, compare_dec}
use baen_economy_engine.Finance.Patterns.{
  Journal, no_currencies, close_before_open, unsupported_type, not_mutating, wrong_phase,
  wrong_model, wrong_entity, wrong_header, empty_chart, unopened_account, predates, account_closed,
  currency_not_opened, contract_mismatch, unbalanced, bad_date, validate_currency, validate_text,
  Date, date_before, from_iso, parse_book_date,
}
use baen_economy_engine.Finance.Contract.{
  from_store, in_context, Posting, BookType, source_event_type, expected_entity, expected_narration,
  payee_key, payload, payload_slug, expected_postings, expected_header,
}

instance abbrev pub codes_key : Eq (List ℕ)
codes_key = record { beq = codes_eq; beq_iff = codes_eq_iff }

pub record AccountOpen : Type 0 where
  pub currencies : List (List ℕ)
  pub opened_on : String
  pub closed_on : Option String

has_repeats : List (List ℕ) → Bool
has_repeats [] = false
has_repeats (c ∷ cs) = contains c cs || has_repeats cs

abbrev is_none_of : List (List ℕ) → Bool
is_none_of [] = true
is_none_of (_ ∷ _) = false

check_currencies : List (List ℕ) → Journal (Unit {0})
check_currencies [] = ok tt
check_currencies (c ∷ cs) = do validate_currency c; check_currencies cs

check_close : Date → Option String → Journal (Unit {0})
check_close opened none = ok tt
check_close opened (some text) = do
  closed ← parse_book_date text
  raise_if (not (date_before opened closed)) close_before_open

-- `AccountOpen.__post_init__`
unfoldable pub account_post_init : AccountOpen → Journal AccountOpen
unfolding has_repeats check_currencies check_close
account_post_init a = do
  raise_if (is_none_of a.currencies || has_repeats a.currencies) no_currencies
  check_currencies a.currencies
  opened ← parse_book_date a.opened_on
  check_close opened a.closed_on
  ok a

abbrev pub Chart : Type 0
Chart = Dict String AccountOpen

pub record JournalEvent : Type 0 where
  pub source_event : EventEnvelope
  pub book_date : String
  pub entity_id : String
  pub payee : List ℕ
  pub narration : String
  pub postings : List Posting

abbrev date_or_error : Option Date → Journal Date
date_or_error none = err bad_date
date_or_error (some d) = ok d

check_closed : Date → Option String → Journal (Unit {0})
check_closed day none = ok tt
check_closed day (some text) = do
  closed ← date_or_error (from_iso text)
  raise_if (not (date_before day closed)) account_closed

-- The checks of one posting against its account.
unfoldable pub check_account : Date → Option AccountOpen → Posting → Journal (Unit {0})
unfolding check_closed
check_account day none p = err unopened_account
check_account day (some a) p = do
  opened ← date_or_error (from_iso a.opened_on)
  raise_if (date_before day opened) predates
  check_closed day a.closed_on
  raise_if (not (contains p.currency a.currencies)) currency_not_opened

unfoldable pub check_accounts : Chart → Date → List Posting → Journal (Unit {0})
check_accounts chart day [] = ok tt
check_accounts chart day (p ∷ ps) = do
  check_account day (lookup p.account chart) p
  check_accounts chart day ps

compare_codes : List ℕ → List ℕ → Ordering
compare_codes [] [] = Ordering.eq
compare_codes [] (y ∷ ys) = Ordering.lt
compare_codes (x ∷ xs) [] = Ordering.gt
compare_codes (x ∷ xs) (y ∷ ys) = compare_nat x y then_by compare_codes xs ys

-- Postings compare as the tuples of their fields.
compare_posting : Posting → Posting → Ordering
unfolding compare_codes
compare_posting a b =
    compare_text a.account b.account
    then_by compare_dec a.amount b.amount
    then_by compare_codes a.currency b.currency

abbrev pub same_posting : Posting → Posting → Bool
same_posting a b =
    str_eq a.account b.account && (eq_dec a.amount b.amount && codes_eq a.currency b.currency)

unfoldable pub same_postings : List Posting → List Posting → Bool
same_postings [] [] = true
same_postings (p ∷ ps) (q ∷ qs) = same_posting p q && same_postings ps qs
same_postings _ _ = false

unfoldable pub sorted_postings : List Posting → List Posting
unfolding compare_posting
sorted_postings ps = sorted compare_posting ps

-- `totals.get(currency, Decimal(0))` and `totals[currency] = ...`
abbrev total_at : Option Decimal → Decimal
total_at none = zero_dec
total_at (some d) = d

put_total : List ℕ → Decimal → Dict (List ℕ) Decimal → Dict (List ℕ) Decimal
put_total c d [] = (c, d) ∷ []
put_total c d ((k, v) ∷ rest) = if codes_eq k c then (k, d) ∷ rest else (k, v) ∷ put_total c d rest

unfoldable pub totals_from : Dict (List ℕ) Decimal → List Posting → Journal (Dict (List ℕ) Decimal)
unfolding put_total
totals_from totals [] = ok totals
totals_from totals (p ∷ ps) = do
  total ← in_context (add (total_at (lookup p.currency totals)) p.amount)
  totals_from (put_total p.currency total totals) ps

abbrev pub is_unbalanced : Dict (List ℕ) Decimal → Bool
is_unbalanced totals = any (λ (t : List ℕ × Decimal). not (is_zero (t.1))) totals

-- The sum of each currency is zero.
unfoldable pub check_balance : List Posting → Journal (Unit {0})
check_balance ps = do totals ← totals_from [] ps; raise_if (is_unbalanced totals) unbalanced

abbrev is_subject : Option String → String → Bool
is_subject none id = false
is_subject (some s) id = str_eq s id

abbrev type_or_error : Option BookType → Journal BookType
type_or_error none = err unsupported_type
type_or_error (some t) = ok t

abbrev pub is_empty_chart : Chart → Bool
is_empty_chart [] = true
is_empty_chart (_ ∷ _) = false

module _ (prims : Primitives) (decimal_digit : ℕ → Option ℕ) where
  -- The checks of the source and of the header.
  unfoldable pub check_source_event : JournalEvent → Journal (Unit {0})
  check_source_event j = do
    from_store (validate_integrity prims j.source_event)
    raise_if (not (may_mutate_actual j.source_event)) not_mutating
    raise_if (not (str_eq j.source_event.phase "finance")) wrong_phase
    raise_if (not (str_eq j.source_event.model_version "economy-0.1")) wrong_model
    t ← type_or_error (source_event_type j.source_event.event_type)
    raise_if
        (not (str_eq j.entity_id (expected_entity t))
          || not (is_subject j.source_event.subject_entity_id (expected_entity t)))
        wrong_entity
    header ← expected_header prims decimal_digit t j.source_event
    raise_if (not (codes_eq j.payee (header.0)) || not (str_eq j.narration (header.1))) wrong_header

  unfoldable pub check_texts : JournalEvent → Journal (Unit {0})
  check_texts j = do
    validate_text (codes j.source_event.event_id)
    validate_text (codes j.source_event.source_ref)
    validate_text (codes j.source_event.campaign_date.label)
    validate_text j.payee
    validate_text (codes j.narration)

  -- The checks of the postings: accounts, contract, balance.
  unfoldable pub check_postings : Chart → JournalEvent → Journal (Unit {0})
  check_postings chart j = do
    day ← parse_book_date j.book_date
    raise_if (is_empty_chart chart) empty_chart
    check_accounts chart day j.postings
    expected ← expected_postings prims decimal_digit j.source_event
    raise_if (not (same_postings (sorted_postings j.postings) (sorted_postings expected)))
        contract_mismatch
    check_balance j.postings

  -- `JournalEvent.validate`
  unfoldable pub validate : Chart → JournalEvent → Journal (Unit {0})
  validate chart j = do check_source_event j; check_texts j; check_postings chart j

  -- `ncf_deposit`, `ncf_loan_credit`, `ncf_loan_repayment_from_deposit` and `treasury_borrowing`, by
  -- the type that they ask of the source and its name in the journal.
  unfoldable pub journal_event : String → BookType → EventEnvelope → String → Journal JournalEvent
  journal_event source_type t e book_date = do
    fs ← payload prims decimal_digit e source_type
    party ← payload_slug (payee_key t) fs
    postings ← expected_postings prims decimal_digit e
    ok (record {
      source_event = e;
      book_date = book_date;
      entity_id = expected_entity t;
      payee = party;
      narration = expected_narration t;
      postings = postings;
    })
