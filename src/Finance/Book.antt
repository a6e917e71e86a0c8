-- ===== src/Finance/Book.antt =====
-- finance.py: `JournalBook`. The book holds the store of events by reference, so that its operations
-- take the store as it is when they are called.
pub mod Posted
pub mod Corrected
mod Examples
use baen_economy_engine.Prelude.{
  ℕ, Bool, true, false, not, Option, none, some, String, List, [], ◌∷◌, any, ok, err, ◌>>=◌, ◌>>◌,
  raise_if,
}
use baen_economy_engine.Prelude.Dict.{Dict, lookup, insert, string_eq}
use baen_economy_engine.Events.Types.{Primitives}
use baen_economy_engine.Events.Store.{EventStore, contains_active}
use baen_economy_engine.Finance.Patterns.{
  Journal, JournalError, empty_chart, not_active, duplicate_entry, not_posted, sources_inactive,
  validate_account,
}
use baen_economy_engine.Finance.Journal.{AccountOpen, Chart, JournalEvent, is_empty_chart, validate}

pub record JournalBook : Type 0 where
  pub chart : Chart
  pub events : Dict String JournalEvent

-- `_assert_all_sources_active`
unfoldable pub assert_all_sources_active : EventStore → JournalBook → Journal (Unit {0})
assert_all_sources_active store b =
    raise_if
      (any (λ (entry : String × JournalEvent). not (contains_active store (entry.1.source_event)))
        b.events)
      sources_inactive

abbrev pub is_posted : Option JournalEvent → Bool
is_posted none = false
is_posted (some _) = true

check_chart : Chart → Journal (Unit {0})
check_chart [] = ok tt
check_chart ((account, _) ∷ rest) = do validate_account account; check_chart rest

module _ (prims : Primitives) (decimal_digit : ℕ → Option ℕ) where
  -- `JournalBook.post`
  unfoldable pub post : EventStore → JournalBook → JournalEvent → Journal JournalBook
  post store b j = do
    assert_all_sources_active store b
    raise_if (not (contains_active store j.source_event)) not_active
    validate prims decimal_digit b.chart j
    raise_if (is_posted (lookup j.source_event.event_id b.events)) duplicate_entry
    ok (record b { events = insert j.source_event.event_id j b.events })

  unfoldable pub post_all : EventStore → JournalBook → List JournalEvent → Journal JournalBook
  post_all store b [] = ok b
  post_all store b (j ∷ js) = do b' ← post store b j; post_all store b' js

  -- `JournalBook.__init__`
  unfoldable pub open_book : EventStore → Chart → List JournalEvent → Journal JournalBook
  unfolding check_chart
  open_book store chart js = do
    check_chart chart
    raise_if (is_empty_chart chart) empty_chart
    post_all store (record { chart = chart; events = [] }) js

  export_posted : EventStore → Chart → Option JournalEvent → Journal JournalEvent
  export_posted store chart none = err not_posted
  export_posted store chart (some j) = do
    raise_if (not (contains_active store j.source_event)) not_active
    validate prims decimal_digit chart j
    ok j

  -- What `JournalBook.render` prints, after its checks.
  unfoldable pub exported : EventStore → JournalBook → String → Journal JournalEvent
  unfolding export_posted
  exported store b id = do
    assert_all_sources_active store b
    export_posted store b.chart (lookup id b.events)
