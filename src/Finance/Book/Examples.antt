-- ===== src/Finance/Book/Examples.antt =====
-- finance.py: a deposit, posted to an empty book.
use mathlib.Core.Bool.{decide}
use baen_economy_engine.Prelude.{
  ℕ, ◌+◌, ◌%◌, ◌==◌, List, String, ◌≡◌, ◌-◌, refl, ◌&&◌, Option, none, some, [], ◌∷◌, ok, err, leb,
  if◌then◌else◌, ℕ_discrete, All, Result,
}
use baen_economy_engine.Prelude.Int.{pos}
use baen_economy_engine.Prelude.Dict.{contains, lookup, insert, string_eq, pair_eq, nat_eq}
use baen_economy_engine.Prelude.Text.{codes, has_text, has_control, is_space}
use baen_economy_engine.Json.{Value, text, obj, field, end, canonical_json}
use baen_economy_engine.Decimal.Number.{le_dec, lt_dec, eq_dec, is_zero, is_negative}
use baen_economy_engine.Decimal.Context.{add, negate, fix, digits, half_even}
use baen_economy_engine.Domain.Labels.{Authority, TemporalState}
use baen_economy_engine.Events.Types.{
  Primitives, ResolutionStatus, EventEnvelope, EventInput, may_mutate_actual, may_reverse_actual,
  phase_rank,
}
use baen_economy_engine.Events.Envelope.{envelope_of, codes_eq, validate_integrity}
use baen_economy_engine.Events.Store.{
  EventStore, append, append_all, empty_store, store_with, contains_active, contains_exact,
  EventEnvelope-discrete,
}
use baen_economy_engine.Stockflow.Sorting.{sorted}
use baen_economy_engine.Stockflow.Fixture.{digest}
use baen_economy_engine.Finance.Patterns.{
  sources_inactive, is_digit, read_number, is_account, is_currency, is_slug, validate_account,
  validate_currency, validate_text, date_before, from_iso, parse_book_date,
}
use baen_economy_engine.Finance.Amount.{read_decimal, payload_decimal, positive_amount}
use baen_economy_engine.Finance.Contract.{
  bank_deposit, posting_post_init, source_event_type, payload_currency, payload_slug, payload,
  expected_postings, expected_header,
}
use baen_economy_engine.Finance.Journal.{
  Chart, JournalEvent, check_account, check_accounts, same_postings, sorted_postings, totals_from,
  check_balance, check_source_event, check_texts, check_postings, validate, journal_event,
}
use baen_economy_engine.Finance.Book.{JournalBook, assert_all_sources_active, post, exported}
use baen_economy_engine.Finance.Book.Corrected.{append-post-exported}
use baen_economy_engine.Finance.Book.Posted.{
  IsBook, IsBooked, IsActiveEntry, validate-IsBooked, post-IsBook,
}

abbrev deposit_payload : Value
deposit_payload = obj (
    field "amount" (text "12.50")
      (field "currency" (text "GP") (field "customer_slug" (text "ann-lee") end)))

-- Stand-ins of the standard library's functions.
abbrev readers : Primitives
readers = record { sha256 = λ cs. digest; uuid5 = λ cs. "u"; loads = λ cs. some deposit_payload }

abbrev ascii_digit : ℕ → Option ℕ
ascii_digit c = if leb 48 c && leb c 57 then some (c - 48) else none

abbrev deposited : EventInput
deposited = record {
  source_event_key = "k";
  event_revision = 1;
  timeline_id = "actual";
  model_version = "economy-0.1";
  campaign_date = record {
    ordinal = pos 130;
    label = "Kythorn 1372";
    year_dr = none;
    month_code = none;
    day = none;
    precision = "month";
  };
  phase = "finance";
  sequence = 0;
  authority = Authority.user_ruling;
  temporal_state = TemporalState.current;
  resolution_status = ResolutionStatus.resolved;
  source_ref = "r";
  event_type = "finance.bank_deposit";
  payload = deposit_payload;
  subject_entity_id = some "entity:northern-crown-financial";
  subject_site_id = none;
  reverses_event_id = none;
}

abbrev source : EventEnvelope
source = envelope_of readers deposited

abbrev store : EventStore
store = store_with empty_store source

abbrev chart : Chart
chart =
    (
      "Assets:NCF:Reserves",
      record { currencies = codes "GP" ∷ []; opened_on = "1999-01-01"; closed_on = none },
    )
    ∷ (
      "Liabilities:NCF:Deposits",
      record {
        currencies = codes "GP" ∷ [];
        opened_on = "2000-02-29";
        closed_on = some "2001-01-01";
      },
    )
    ∷ []

abbrev book : JournalBook
book = record { chart = chart; events = [] }

abbrev blank : JournalEvent
blank = record {
  source_event = source;
  book_date = "";
  entity_id = "";
  payee = [];
  narration = "";
  postings = [];
}

abbrev made {ℓ κ} : {E : Type ℓ} {A : Type κ} → A → Result E A → A
made other (ok a) = a
made other (err e) = other

-- `ncf_deposit`
abbrev deposit : JournalEvent
deposit =
    made blank
      (journal_event readers ascii_digit "finance.bank_deposit" bank_deposit source "2000-06-01")

abbrev posted : JournalBook
posted = made book (post readers ascii_digit store book deposit)

valid_run : validate readers ascii_digit chart deposit ≡ ok tt
unfolding validate check_source_event check_texts check_postings check_balance check_account
    check_accounts totals_from same_postings sorted_postings sorted validate_integrity envelope_of
    has_text has_control is_space contains lookup insert le_dec lt_dec eq_dec is_zero is_negative
    add negate fix digits half_even may_mutate_actual phase_rank codes_eq is_digit read_number
    is_account is_currency is_slug validate_account validate_currency validate_text date_before
    from_iso parse_book_date read_decimal payload_decimal positive_amount posting_post_init
    source_event_type payload_currency payload_slug payload expected_postings expected_header
    journal_event canonical_json
valid_run = refl

post_run : post readers ascii_digit store book deposit ≡ ok posted
unfolding post assert_all_sources_active store_with contains_active contains_exact
    EventEnvelope-discrete decide ℕ_discrete validate check_source_event check_texts check_postings
    check_balance check_account check_accounts totals_from same_postings sorted_postings sorted
    validate_integrity envelope_of has_text has_control is_space contains lookup insert le_dec
    lt_dec eq_dec is_zero is_negative add negate fix digits half_even may_mutate_actual phase_rank
    codes_eq is_digit read_number is_account is_currency is_slug validate_account validate_currency
    validate_text date_before from_iso parse_book_date read_decimal payload_decimal positive_amount
    posting_post_init source_event_type payload_currency payload_slug payload expected_postings
    expected_header journal_event canonical_json
post_run = refl

validate-IsBooked_example : IsBooked readers ascii_digit chart deposit
validate-IsBooked_example = validate-IsBooked readers ascii_digit chart deposit valid_run

post-IsBook_example :
    IsBook readers ascii_digit posted
    × All (IsActiveEntry store) posted.events
    × (lookup deposit.source_event.event_id book.events ≡ none)
    × (posted.chart ≡ book.chart)
    × (posted.events ≡ insert deposit.source_event.event_id deposit book.events)
post-IsBook_example = post-IsBook readers ascii_digit store book posted deposit tt post_run

-- A deposit that is posted and then corrected, with identities that tell the two events apart.
total : List ℕ → ℕ
total [] = 0
total (c ∷ cs) = c + total cs

abbrev tellers : Primitives
tellers = record readers { uuid5 = λ cs. if total cs % 2 == 0 then "even" else "odd" }

abbrev first : EventEnvelope
first = envelope_of tellers deposited

abbrev correction : EventEnvelope
correction =
    envelope_of tellers
      (record deposited { event_revision = 2; reverses_event_id = some first.event_id })

abbrev one : EventStore
one = store_with empty_store first

abbrev two : EventStore
two = store_with one correction

abbrev entry : JournalEvent
entry =
    made blank
      (journal_event tellers ascii_digit "finance.bank_deposit" bank_deposit first "2000-06-01")

abbrev booked : JournalBook
booked = made book (post tellers ascii_digit one book entry)

booked_lem : lookup first.event_id booked.events ≡ some entry
unfolding post assert_all_sources_active store_with contains_active contains_exact
    EventEnvelope-discrete decide ℕ_discrete validate check_source_event check_texts check_postings
    check_balance check_account check_accounts totals_from same_postings sorted_postings sorted
    validate_integrity envelope_of has_text has_control is_space contains lookup insert le_dec
    lt_dec eq_dec is_zero is_negative add negate fix digits half_even may_mutate_actual phase_rank
    codes_eq is_digit read_number is_account is_currency is_slug validate_account validate_currency
    validate_text date_before from_iso parse_book_date read_decimal payload_decimal positive_amount
    posting_post_init source_event_type payload_currency payload_slug payload expected_postings
    expected_header journal_event canonical_json total
booked_lem = refl

correction_names : correction.reverses_event_id ≡ some entry.source_event.event_id
unfolding envelope_of canonical_json total journal_event payload payload_currency payload_slug
    payload_decimal positive_amount read_decimal validate_integrity has_text has_control codes_eq
    phase_rank source_event_type contains is_slug expected_postings validate_currency is_currency
    le_dec posting_post_init validate_account is_account negate fix
correction_names = refl

corrected_lem : append tellers one correction ≡ ok two
unfolding append validate_integrity envelope_of has_text has_control is_space codes_eq
    canonical_json total lookup insert contains store_with phase_rank may_reverse_actual
corrected_lem = refl

later_lem : append_all tellers two [] ≡ ok two
unfolding append_all
later_lem = refl

append-post-exported_example :
    ((j : JournalEvent) → post tellers ascii_digit two booked j ≡ err sources_inactive)
    × ((name : String) → exported tellers ascii_digit two booked name ≡ err sources_inactive)
append-post-exported_example =
    append-post-exported tellers ascii_digit one two two booked first.event_id entry correction []
      booked_lem correction_names corrected_lem later_lem
