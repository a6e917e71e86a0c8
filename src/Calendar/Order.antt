-- ===== src/Calendar/Order.antt =====
-- `compare_campaign_dates` against the set of days that each marker covers.
use baen_economy_engine.Prelude.{
  ℕ, ◌≤◌, ◌<◌, ◌≡◌, ◌↔◌, ◌⊎◌, refl, true, false, Option, none, some, arith, ok, max, ◌&&◌,
}
use baen_economy_engine.Calendar.Date.{
  CampaignDate, RealmsMonth, MonthPart, DateRelation, before, exact, after, overlaps, month_index,
  post_init, is_exact_day, day_bounds, compare_campaign_dates, Key,
}

-- The record that the constructor lets through.
abbrev IsValidDay : Option ℕ → Option MonthPart → Type 0
IsValidDay none part = Unit
IsValidDay (some day) part = (1 ≤ day) × (day ≤ 30) × (part ≡ none)

pub record IsValid (date : CampaignDate) : Type 0 where
  pub year_positive : 0 < date.year_dr
  pub day_valid : IsValidDay date.day date.part

post_init-IsValid : (date : CampaignDate) → post_init date ≡ ok date → IsValid date
unfolding post_init
post_init-IsValid date h = ground arith

-- One day, as (year, month, day).
abbrev pub Before : Key → Key → Type 0
Before (y, m, d) (y', m', d') = (y < y') ⊎ ((y ≡ y') × ((m < m') ⊎ ((m ≡ m') × (d < d'))))

abbrev pub Covers : CampaignDate → Key → Type 0
Covers date (y, m, d) =
    (y ≡ date.year_dr)
    × (m ≡ month_index date.month)
    × ((day_bounds date).0 ≤ d)
    × (d ≤ (day_bounds date).1)

-- What each relation says of the days of two markers.
abbrev pub Relates : DateRelation → CampaignDate → CampaignDate → Type 0
Relates before l r = (d e : Key) → Covers l d → Covers r e → Before d e
Relates after l r = (d e : Key) → Covers l d → Covers r e → Before e d
Relates exact l r =
    (is_exact_day l ≡ true) × (is_exact_day r ≡ true) × ((d : Key) → Covers l d ↔ Covers r d)
Relates overlaps l r =
    ((is_exact_day l && is_exact_day r) ≡ false) × ((d : Key) × (Covers l d × Covers r d))

-- The days of a valid marker are a range inside a month.
pub day_bounds_range :
    (date : CampaignDate)
    → IsValid date
    → let (low, high) = day_bounds date in (1 ≤ low) × (low ≤ high) × (high ≤ 30)
unfolding day_bounds
day_bounds_range date v = ground arith

-- An exact marker covers one day.
pub day_bounds_exact :
    (date : CampaignDate) → is_exact_day date ≡ true → (day_bounds date).0 ≡ (day_bounds date).1
unfolding day_bounds
day_bounds_exact date h = ground arith

module _ (l r : CampaignDate) (vl : IsValid l) (vr : IsValid r) where
  compare-before : compare_campaign_dates l r ≡ before → Relates before l r
  unfolding compare_campaign_dates
  compare-before h d e cd ce = ground (arith, day_bounds_range l vl, day_bounds_range r vr)

  compare-after : compare_campaign_dates l r ≡ after → Relates after l r
  unfolding compare_campaign_dates
  compare-after h d e cd ce = ground (arith, day_bounds_range l vl, day_bounds_range r vr)

  compare-exact : compare_campaign_dates l r ≡ exact → Relates exact l r
  unfolding compare_campaign_dates
  compare-exact h = (
    ground arith,
    ground arith,
    λ d. (
      λ c. ground (arith, day_bounds_exact l, day_bounds_exact r),
      λ c. ground (arith, day_bounds_exact l, day_bounds_exact r),
    ),
  )

  compare-overlaps : compare_campaign_dates l r ≡ overlaps → Relates overlaps l r
  unfolding compare_campaign_dates
  compare-overlaps h = (
    ground (arith, day_bounds_exact l, day_bounds_exact r),
    (
      (l.year_dr, month_index l.month, max (day_bounds l).0 (day_bounds r).0),
      ground (arith, day_bounds_range l vl, day_bounds_range r vr),
    ),
  )

  Relates-by_case : (rel : DateRelation) → compare_campaign_dates l r ≡ rel → Relates rel l r
  Relates-by_case before h = compare-before h
  Relates-by_case after h = compare-after h
  Relates-by_case exact h = compare-exact h
  Relates-by_case overlaps h = compare-overlaps h

  -- Between valid markers the relation says how the sets of days that they cover lie: all days of
  -- one before all of the other, the same single exact day, or a shared day with a partial marker.
  pub compare-Relates : Relates (compare_campaign_dates l r) l r
  compare-Relates = Relates-by_case (compare_campaign_dates l r) refl

abbrev pub converse : DateRelation → DateRelation
converse before = after
converse after = before
converse exact = exact
converse overlaps = overlaps

-- Swapping the two markers turns the relation round.
pub compare-converse :
    (l r : CampaignDate)
    → IsValid l
    → IsValid r
    → compare_campaign_dates r l ≡ converse (compare_campaign_dates l r)
unfolding compare_campaign_dates
compare-converse l r vl vr = ground (arith, day_bounds_range l vl, day_bounds_range r vr)

month_index-injective : (m n : RealmsMonth) → month_index m ≡ month_index n → m ≡ n
unfolding month_index
month_index-injective m n h = ground arith

-- Two valid markers are related by `exact` only if they are the same record.
pub exact-eq :
    (l r : CampaignDate) → IsValid l → IsValid r → compare_campaign_dates l r ≡ exact → l ≡ r
unfolding compare_campaign_dates day_bounds
exact-eq l r vl vr h = ground (arith, month_index-injective l.month r.month)

-- An exact day is related to itself by `exact`.
pub compare_self : (d : CampaignDate) → is_exact_day d ≡ true → compare_campaign_dates d d ≡ exact
unfolding compare_campaign_dates
compare_self d h = ground (arith, day_bounds_exact d)
