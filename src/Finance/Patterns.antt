-- ===== src/Finance/Patterns.antt =====
-- finance.py: the patterns of accounts, currencies, slugs and texts, and book dates. A text is given by
-- its code points.
use baen_economy_engine.Prelude.{
  ℕ, ◌+◌, ◌*◌, ◌-◌, ◌%◌, Bool, true, false, ◌&&◌, ◌||◌, not, Option, none, some, String, List, [],
  ◌∷◌, leb, ltb, ◌==◌, if◌then◌else◌, length, all, any, Result, ok, err, ◌>>◌, raise_if,
}
use baen_economy_engine.Prelude.Text.{codes, is_space}
use baen_economy_engine.Events.Envelope.{codes_eq}
use baen_economy_engine.Events.Types.{EventError}
use baen_economy_engine.Decimal.Context.{DecimalError}

pub data JournalError : Type 0 where
  bad_account bad_currency bad_amount bad_slug bad_payload bad_text bad_date : JournalError
  no_currencies close_before_open unsupported_type wrong_type not_mutating wrong_phase :
      JournalError
  wrong_model wrong_entity wrong_header empty_chart unopened_account predates : JournalError
  account_closed currency_not_opened contract_mismatch unbalanced : JournalError
  not_active duplicate_entry not_posted sources_inactive zero_repayment : JournalError
  from_event : EventError → JournalError
  arithmetic : DecimalError → JournalError

abbrev pub Journal {ℓ} : Type ℓ → Type ℓ
Journal A = Result JournalError A

-- The parts of a text between the separators.
abbrev push_code : ℕ → List (List ℕ) → List (List ℕ)
push_code c [] = (c ∷ []) ∷ []
push_code c (part ∷ parts) = (c ∷ part) ∷ parts

split_on : ℕ → List ℕ → List (List ℕ)
split_on sep [] = [] ∷ []
split_on sep (c ∷ cs) =
    let rest = split_on sep cs in if c == sep then [] ∷ rest else push_code c rest

is_upper : ℕ → Bool
is_upper c = leb b'A' c && leb c b'Z'

is_lower : ℕ → Bool
is_lower c = leb b'a' c && leb c b'z'

unfoldable pub is_digit : ℕ → Bool
is_digit c = leb b'0' c && leb c b'9'

-- `[A-Z0-9][A-Za-z0-9-]*`
is_account_part : List ℕ → Bool
unfolding is_upper is_lower is_digit
is_account_part [] = false
is_account_part (c ∷ cs) =
    (is_upper c || is_digit c) && all (λ x. is_upper x || is_lower x || is_digit x || x == b'-') cs

-- `Assets|Liabilities|Equity|Income|Expenses`
is_account_root : List ℕ → Bool
is_account_root cs =
    codes_eq cs (codes "Assets")
    || codes_eq cs (codes "Liabilities")
    || codes_eq cs (codes "Equity")
    || codes_eq cs (codes "Income")
    || codes_eq cs (codes "Expenses")

account_parts : List (List ℕ) → Bool
unfolding is_account_part is_account_root
account_parts [] = false
account_parts (root ∷ []) = false
account_parts (root ∷ part ∷ parts) = is_account_root root && all is_account_part (part ∷ parts)

-- `ACCOUNT_RE.fullmatch`
unfoldable pub is_account : String → Bool
unfolding split_on account_parts
is_account s = account_parts (split_on b':' (codes s))

-- What may stand before the last character of a currency, and that one.
is_currency_tail : List ℕ → Bool
unfolding is_upper is_digit
is_currency_tail [] = true
is_currency_tail (c ∷ []) = is_upper c || is_digit c
is_currency_tail (c ∷ d ∷ cs) =
    (is_upper c || is_digit c || c == b'.' || c == b'_' || c == 39 || c == b'-')
    && is_currency_tail (d ∷ cs)

-- `CURRENCY_RE.fullmatch`, and at most 24 characters
unfoldable pub is_currency : List ℕ → Bool
unfolding is_upper is_currency_tail
is_currency [] = false
is_currency (c ∷ cs) = leb (length (c ∷ cs)) 24 && is_upper c && is_currency_tail cs

is_slug_part : List ℕ → Bool
unfolding is_lower is_digit
is_slug_part [] = false
is_slug_part (c ∷ cs) = all (λ x. is_lower x || is_digit x) (c ∷ cs)

-- `SLUG_RE.fullmatch`
unfoldable pub is_slug : List ℕ → Bool
unfolding split_on is_slug_part
is_slug cs = all is_slug_part (split_on b'-' cs)

-- `_validate_account`, `_validate_currency` and `_validate_text`
unfoldable pub validate_account : String → Journal (Unit {0})
validate_account account = raise_if (not (is_account account)) bad_account

unfoldable pub validate_currency : List ℕ → Journal (Unit {0})
validate_currency currency = raise_if (not (is_currency currency)) bad_currency

unfoldable pub validate_text : List ℕ → Journal (Unit {0})
unfolding is_space
validate_text cs =
    raise_if (not (any (λ c. not (is_space c)) cs) || any (λ c. leb c 0x1f || c == 0x7f) cs)
      bad_text

-- A day as `datetime.date` holds it.
pub record Date : Type 0 where
  pub year : ℕ
  pub month : ℕ
  pub day : ℕ

-- Dates compare by year, month and day.
unfoldable pub date_before : Date → Date → Bool
date_before a b =
    ltb a.year b.year
    || (a.year == b.year && (ltb a.month b.month || (a.month == b.month && ltb a.day b.day)))

is_leap : ℕ → Bool
is_leap y = y % 4 == 0 && (not (y % 100 == 0) || y % 400 == 0)

days_in : ℕ → ℕ → ℕ
unfolding is_leap
days_in y m =
    if m == 2
    then (if is_leap y then 29 else 28)
    else if m == 4 || m == 6 || m == 9 || m == 11
    then 30
    else 31

-- The number that decimal digits write, after what was read before.
number_from : ℕ → List ℕ → ℕ
number_from n [] = n
number_from n (c ∷ cs) = number_from (10 * n + (c - 48)) cs

unfoldable pub read_number : List ℕ → ℕ
unfolding number_from
read_number cs = number_from 0 cs

date_from : ℕ → ℕ → ℕ → Option Date
unfolding days_in
date_from y m d =
    if leb 1 y && leb 1 m && leb m 12 && leb 1 d && leb d (days_in y m)
    then some (record { year = y; month = m; day = d })
    else none

-- `date.fromisoformat` of a text of the form YYYY-MM-DD; other digits than ASCII it refuses.
date_parts : List (List ℕ) → Option Date
unfolding date_from is_digit read_number
date_parts (y ∷ m ∷ d ∷ []) =
    if length y == 4
      && length m == 2
      && length d == 2
      && all is_digit y
      && all is_digit m
      && all is_digit d
    then date_from (read_number y) (read_number m) (read_number d)
    else none
date_parts _ = none

unfoldable pub from_iso : String → Option Date
unfolding date_parts split_on
from_iso s = date_parts (split_on b'-' (codes s))

in_range : Option Date → Journal Date
in_range none = err bad_date
in_range (some d) = do raise_if (not (leb 1700 d.year && leb d.year 2099)) bad_date; ok d

-- `_parse_book_date`
unfoldable pub parse_book_date : String → Journal Date
unfolding in_range from_iso
parse_book_date s = in_range (from_iso s)
