-- ===== src/Finance/Book/Corrected.antt =====
-- finance.py and events.py: what a correction in the store does to a book that holds the event.
use baen_economy_engine.Prelude.{
  ℕ, ◌≡◌, refl, arith, true, false, not, Option, some, String, List, [], ◌∷◌, any, ok, err,
  Bool-cases, inl, inr,
}
use baen_economy_engine.Prelude.Dict.{Dict, lookup, string_eq}
use baen_economy_engine.Events.Types.{Primitives, EventEnvelope}
use baen_economy_engine.Events.Store.{EventStore, contains_active, append, append_all}
use baen_economy_engine.Events.Store.Reversed.{
  IsReversed-contains_active, append-IsReversed, append_all-IsReversed,
}
use baen_economy_engine.Finance.Patterns.{sources_inactive}
use baen_economy_engine.Finance.Journal.{JournalEvent}
use baen_economy_engine.Finance.Book.{JournalBook, assert_all_sources_active, post, exported}

some_inactive :
    (store : EventStore) (d : Dict String JournalEvent) (id : String) (entry : JournalEvent)
    → lookup id d ≡ some entry
    → contains_active store entry.source_event ≡ false
    → any (λ (e : String × JournalEvent). not (contains_active store (e.1.source_event))) d ≡ true
unfolding lookup
some_inactive store [] id entry found inactive = cc
some_inactive store ((key, j) ∷ d) id entry found inactive =
    elim (Bool-cases (string_eq.beq key id)) [
      | inl here ↦
          let same : Path (Option JournalEvent) (some j) (some entry) = rw here at found in
          ground (arith, same, inactive)
      | inr later ↦
          let rest = some_inactive store d id entry (rw later at found) inactive in
          ground (arith, rest)
    ]

module _ (prims : Primitives) (decimal_digit : ℕ → Option ℕ) where
  -- Once a correction of an event that the book has posted is appended to the store, and whatever is
  -- appended after it, every post to this book and every export from it is refused, because a source of
  -- the book is no longer active.
  pub append-post-exported :
      (store corrected later : EventStore) (b : JournalBook) (id : String) (entry : JournalEvent)
      (correction : EventEnvelope) (events : List EventEnvelope)
      → lookup id b.events ≡ some entry
      → correction.reverses_event_id ≡ some entry.source_event.event_id
      → append prims store correction ≡ ok corrected
      → append_all prims corrected events ≡ ok later
      → ((j : JournalEvent) → post prims decimal_digit later b j ≡ err sources_inactive)
        × ((name : String) → exported prims decimal_digit later b name ≡ err sources_inactive)
  unfolding post exported assert_all_sources_active
  append-post-exported store corrected later b id entry correction events found names h h1 =
      let reversed =
        append_all-IsReversed prims events corrected later entry.source_event.event_id
          (append-IsReversed prims store corrected correction entry.source_event.event_id names h)
          h1 in
      let inactive =
        some_inactive later b.events id entry found
          (IsReversed-contains_active later entry.source_event reversed) in
      (λ j. rw inactive refl, λ name. rw inactive refl)
