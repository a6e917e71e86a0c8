-- ===== src/Lib.antt =====
-- baen_economy_engine: the economy engine of a campaign, and the theorems on its core.
--
-- The program and its parts
--   A run of the engine advances one timeline by one period. Its evidence is dated by the campaign
--   calendar, its authority is a store of events, its randomness is a seeded die, and its arithmetic is
--   decimal. The parts modelled here, by the file of the repository that holds them:
--   * src/baen_economy/agriculture_calendar.py -- Calendar: dates and how they relate (Calendar/Date,
--     `compare_campaign_dates`), the gate that sorts references into layers (Calendar/Gate, `classify`,
--     `require_current_actual`, `select_planning_preview`, `require_planning_preview`).
--   * src/baen_economy/domain.py -- Domain: labels, eligibility for totals (Domain/Eligibility),
--     `validate_unique_assignments` (Domain/Assignments); Decimal/Text: `canonical_decimal`.
--   * src/baen_economy/events.py -- Events: envelopes (Events/Types, Events/Envelope: `create`,
--     `validate_integrity`, `integrity_hash`), the append-only store (Events/Store: `append`,
--     `contains_active`, `contains_active_ref`); Json: `canonical_json`.
--   * src/baen_economy/operator_dice.py and business_month.py -- Dice: `classify_3d6`, the check, the
--     seeded die `_die` (Dice/Sampling), `validate_roll_manifest` and `roll_preview_checks`
--     (Dice/Manifest), the monthly factors (Dice/Factors).
--   * src/baen_economy/stockflow.py -- Stockflow: records and their checks (Types), the local variables
--     of `_advance` (Books), its four loops (Arrivals, Production, Shipments, Needs with Price), its
--     closing checks (Closing; its totals as sums in Closing/Totals), hashes (Values, Hashing),
--     `verify` and `validate_snapshot` (Verify), `_validate_actual_plan` (Authority),
--     `initial_snapshot` (Opening), and `advance` (Advance). A run
--     calls them in this order: snapshot checks, event references, authority, loops, closing checks,
--     `_seal`, snapshot checks.
--   * src/baen_economy/finance.py -- Finance: patterns and book dates (Patterns), amounts (Amount), the
--     postings that a source event asks for (Contract, `_expected_postings`), `JournalEvent.validate`
--     (Journal), and `JournalBook` (Book: `post`, `open_book` for the constructor, `exported` for the
--     checks of `render`). The book reads the store of events at each call.
--   * src/baen_economy/regional_transport.py -- Regional: costs of routes, `expected_transport_outcome`,
--     `dispatch_for_delivery`, `route_usage_receipt` (Regional/Transport).
--   * src/baen_economy/regional_market.py -- Regional: offers, bids and receipts (Regional/Bids,
--     Regional/Trades), `_price` and `_landed_price` (Regional/Prices), `_allocate_demand_receipts`
--     (Regional/Demands), the planning of dispatches (Regional/Planning; as steps of an abstract market in
--     Regional/Planning/Steps), the trade receipts (Regional/Settlement) and `simulate_market_month`
--     (Regional/Month), which calls `advance` twice: once to see what stock the local needs leave, and
--     once with the dispatches that were planned from it.
--   Shared helpers are in Prelude (tests, lists, results, integers, text, dictionaries), and the
--   `decimal` module of the interpreter, as far as it is used, in Decimal, with the sums by key that
--   the theorems on balances speak of (Decimal/Sums). The accounts that each type of event is booked
--   on stand as a table in Finance/Contract/Asked, and what the planned trades take from an offer or a
--   route in Regional/Planning/Drawn.
--
-- How the code is modelled
--   * A function that may raise returns `Result`; an exception is an error value, one for each kind of
--     refusal. Checks stand in the order of the code, so the first that fails decides.
--   * A dictionary is an association list in insertion order; a `defaultdict(Decimal)` is one that is
--     read as zero where it has no entry. A set is a list that is only asked for membership.
--   * `sorted` is a stable insertion sort, and tuples are compared component by component.
--   * Integers that the code refuses when negative are natural numbers; others are `ℤ`.
--   * A finite `Decimal` is a sign, a coefficient and an exponent counted from the least exponent that
--     the interpreter stores, so that it is a natural number. Context arithmetic is written out: 40
--     digits, half-even rounding, overflow and division by zero raise.
--   * Text is compared and measured by code points. What is hashed is a list of code points.
--
-- Parameters
--   `Primitives` stands for `hashlib.sha256`, `uuid.uuid5` in the engine's name space and
--   `json.loads`; `KeyedHash` for `hashlib.sha256` and `hmac`; the `randbelow` of `DiceSource` for
--   that of `secrets`; `decimal_digit` for the table of decimal digits in Unicode. One theorem, on
--   `create`, takes as a hypothesis that `json.loads` reads the canonical text of a payload back.
--
-- Bounds and fuel
--   The rejection loop of the die runs on fuel (for a preview, that of its `DiceSource`);
--   `draw_first` says that fuel beyond the first accepted sample is enough. Counting and printing
--   digits runs on the number itself as fuel, which is never less than the count of its digits. The
--   loop of `dispatch_for_delivery` runs on the place of its first number among those that the
--   context stores; each `next_minus` goes down by one place, and the fuel's end, `out_of_fuel`, is
--   an error of the model only. All other loops are recursions on their lists.
--
-- What is not modelled
--   Python's type checks (the model's types give them), the texts of error messages, reading and
--   writing of files, HTTP, command lines; the text that the journal prints; the rest of the
--   regional simulation (production, finance, rolls), the summary payload of a market month, the
--   food and agriculture simulations, the operator's session files and the census of sources, which
--   stand around the kernel.
pub mod Prelude
pub mod Calendar
pub mod Json
pub mod Decimal
pub mod Domain
pub mod Events
pub mod Dice
pub mod Stockflow
pub mod Finance
pub mod Regional
