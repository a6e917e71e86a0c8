-- ===== src/Calendar/Date.antt =====
-- agriculture_calendar.py: `RealmsMonth`, `MonthPart`, `CampaignDate` with its validation and its
-- keys, and `compare_campaign_dates`. Years and days are natural numbers: the constructor
-- refuses every negative integer, as it refuses zero.
use baen_economy_engine.Prelude.{
  ℕ, Bool, true, false, ◌&&◌, ◌||◌, not, Option, none, some, ltb, leb, ◌==◌, if◌then◌else◌, Result,
  ok, err, ◌>>◌, raise_if,
}

pub data CalendarError : Type 0 where
  bad_year bad_day day_and_part : CalendarError
  unclean_text missing_date unexpected_date : CalendarError
  anchor_not_exact short_horizon : CalendarError
  ambiguous_date not_after_current not_current_actual not_planning_layer : CalendarError
  no_selection other_reference other_layer other_anchor : CalendarError

pub data RealmsMonth : Type 0 where
  hammer alturiak ches tarsakh mirtul kythorn : RealmsMonth
  flamerule eleasis eleint marpenoth uktar nightal : RealmsMonth

-- `_MONTH_INDEX`
unfoldable pub month_index : RealmsMonth → ℕ
month_index hammer = 1
month_index alturiak = 2
month_index ches = 3
month_index tarsakh = 4
month_index mirtul = 5
month_index kythorn = 6
month_index flamerule = 7
month_index eleasis = 8
month_index eleint = 9
month_index marpenoth = 10
month_index uktar = 11
month_index nightal = 12

pub data MonthPart : Type 0 where
  early mid late : MonthPart

pub record CampaignDate : Type 0 where
  pub year_dr : ℕ
  pub month : RealmsMonth
  pub day : Option ℕ
  pub part : Option MonthPart

pub data DateRelation : Type 0 where
  before exact after overlaps : DateRelation

-- `_MONTH_PART_DAY_BOUNDS`
abbrev pub part_bounds : MonthPart → ℕ × ℕ
part_bounds early = (1, 10)
part_bounds mid = (11, 20)
part_bounds late = (21, 30)

check_day : Option ℕ → Option MonthPart → Result CalendarError (Unit {0})
check_day none part = ok tt
check_day (some day) part = do
  raise_if (not (leb 1 day && leb day 30)) bad_day
  elim part [ none ↦ ok tt | some _ ↦ err day_and_part ]

-- `CampaignDate.__post_init__`
unfoldable pub post_init : CampaignDate → Result CalendarError CampaignDate
unfolding check_day
post_init date = do raise_if (date.year_dr == 0) bad_year; check_day date.day date.part; ok date

abbrev pub is_exact_day : CampaignDate → Bool
is_exact_day date = elim date.day [ none ↦ false | some _ ↦ true ]

abbrev bounds_of : Option ℕ → Option MonthPart → ℕ × ℕ
bounds_of (some day) part = (day, day)
bounds_of none (some part) = part_bounds part
bounds_of none none = (1, 30)

unfoldable pub day_bounds : CampaignDate → ℕ × ℕ
day_bounds date = bounds_of date.day date.part

-- A key (year, month, day); Python compares such tuples from the left.
abbrev pub Key : Type 0
Key = ℕ × ℕ × ℕ

unfoldable pub earliest_key : CampaignDate → Key
earliest_key date = (date.year_dr, month_index date.month, (day_bounds date).0)

unfoldable pub latest_key : CampaignDate → Key
latest_key date = (date.year_dr, month_index date.month, (day_bounds date).1)

abbrev pub key_lt : Key → Key → Bool
key_lt (y, m, d) (y', m', d') = ltb y y' || (y == y' && (ltb m m' || (m == m' && ltb d d')))

abbrev pub key_eq : Key → Key → Bool
key_eq (y, m, d) (y', m', d') = y == y' && (m == m' && d == d')

unfoldable pub compare_campaign_dates : CampaignDate → CampaignDate → DateRelation
unfolding earliest_key latest_key
compare_campaign_dates left right =
    if key_lt (latest_key left) (earliest_key right)
    then before
    else if key_lt (latest_key right) (earliest_key left)
    then after
    else if is_exact_day left
        && is_exact_day right
        && key_eq (earliest_key left) (earliest_key right)
    then exact
    else overlaps
