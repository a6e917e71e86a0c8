-- ===== src/Finance/Book/Posted.antt =====
-- finance.py: what every posted event is like, and that posting keeps it so.
use mathlib.Core.List.{Perm}
use baen_economy_engine.Prelude.{
  ℕ, ◌≡◌, refl, subst, arith, true, false, not, Option, none, some, String, List, [], ◌∷◌, ok, any,
  All, >>=-eq-ok, ok-inj, raise_if-ok, Bool-cases, inl, inr,
}
use baen_economy_engine.Prelude.Dict.{Dict, lookup, insert, string_eq}
use baen_economy_engine.Events.Types.{Primitives, may_mutate_actual}
use baen_economy_engine.Events.Store.{EventStore, contains_active}
use baen_economy_engine.Events.Envelope.{validate_integrity}
use baen_economy_engine.Finance.Patterns.{
  sources_inactive, not_active, duplicate_entry, empty_chart, contract_mismatch, not_mutating, Date,
  parse_book_date,
}
use baen_economy_engine.Finance.Contract.{from_store, Posting, expected_postings}
use baen_economy_engine.Finance.Journal.{
  Chart, codes_key, JournalEvent, check_accounts, same_postings, sorted_postings, is_empty_chart,
  check_source_event, check_texts, check_postings, validate,
}
use baen_economy_engine.Finance.Contract.Asked.{IsAsked, expected_postings-IsAsked}
use baen_economy_engine.Finance.Journal.Facts.{
  IsBalanced, check_balance-IsBalanced, IsOpened, check_accounts-IsOpened, Matches,
  same_postings-Matches, sorted_postings-Perm,
}
use baen_economy_engine.Finance.Book.{JournalBook, assert_all_sources_active, is_posted, post}

pub All-insert {ℓ κ} :
    {V : Type ℓ} (P : String × V → Type κ) (k : String) (v : V) (d : Dict String V)
    → lookup k d ≡ none
    → All P d
    → P (k, v)
    → All P (insert k v d)
unfolding lookup insert
All-insert P k v [] h ps p = (p, tt)
All-insert P k v ((j, w) ∷ d) h ps p = elim (Bool-cases (string_eq.beq j k)) [
  | inl same ↦ cc
  | inr other ↦ rw other (ps.0, All-insert P k v d (rw other at h) (ps.1) p)
]

abbrev pub IsActiveEntry : EventStore → String × JournalEvent → Type 0
IsActiveEntry store entry = contains_active store (entry.1.source_event) ≡ true

active_entries :
    (store : EventStore) (d : Dict String JournalEvent)
    → any (λ (entry : String × JournalEvent). not (contains_active store (entry.1.source_event))) d
      ≡ false
    → All (IsActiveEntry store) d
active_entries store [] h = tt
active_entries store ((id, j) ∷ d) h = (ground arith, active_entries store d (ground arith))

not_posted_before : (o : Option JournalEvent) → is_posted o ≡ false → o ≡ none
not_posted_before none h = refl
not_posted_before (some j) h = cc

module _ (prims : Primitives) (decimal_digit : ℕ → Option ℕ) where
  -- The postings are what the source event says, on open accounts, and in balance.
  abbrev pub IsBooked : Chart → JournalEvent → Type 0
  IsBooked chart j =
      (may_mutate_actual j.source_event ≡ true)
      × IsBalanced j.postings
      × ((day : Date) × (parse_book_date j.book_date ≡ ok day)
          × All (IsOpened chart day) j.postings)
      × ((expected : List Posting) × IsAsked prims decimal_digit j.source_event expected
          × ((booked : List Posting) × (asked : List Posting) × Perm booked j.postings
              × Perm asked expected
              × Matches booked asked))

  abbrev pub IsEntry : Chart → String × JournalEvent → Type 0
  IsEntry chart (id, j) = (id ≡ j.source_event.event_id) × IsBooked chart j

  abbrev pub IsBook : JournalBook → Type 0
  IsBook b = All (IsEntry b.chart) b.events

  mutates :
      (j : JournalEvent)
      → check_source_event prims decimal_digit j ≡ ok tt
      → may_mutate_actual j.source_event ≡ true
  unfolding check_source_event
  mutates j h =
      let (_, _, h1) = >>=-eq-ok (from_store (validate_integrity prims j.source_event)) _ h in
      let (e, _) = raise_if-ok (not (may_mutate_actual j.source_event)) not_mutating _ h1 in
      ground (arith, e)

  -- A journal event that is valid comes from an event that may change the actual history. In every
  -- currency its amounts, added in their order, come to zero. Each posting is on an account of the chart
  -- that was opened by the book date, is not closed by it, and takes the posting's currency. And up to
  -- their order the postings are those that the table of accounts names for the type of the event, with
  -- the amounts and the currency of its payload.
  pub validate-IsBooked :
      (chart : Chart) (j : JournalEvent)
      → validate prims decimal_digit chart j ≡ ok tt
      → IsBooked chart j
  unfolding validate check_postings
  validate-IsBooked chart j h =
      let (_, source, h1) = >>=-eq-ok (check_source_event prims decimal_digit j) _ h in
      let (_, _, h2) = >>=-eq-ok (check_texts prims decimal_digit j) _ h1 in
      let (day, dated, h3) = >>=-eq-ok (parse_book_date j.book_date) _ h2 in
      let (_, h4) = raise_if-ok (is_empty_chart chart) empty_chart _ h3 in
      let (_, opened, h5) = >>=-eq-ok (check_accounts chart day j.postings) _ h4 in
      let (expected, e, h6) =
        >>=-eq-ok (expected_postings prims decimal_digit j.source_event) _ h5 in
      let (same, h7) =
        raise_if-ok (not (same_postings (sorted_postings j.postings) (sorted_postings expected)))
          contract_mismatch _ h6 in
      (
        mutates j source,
        check_balance-IsBalanced j.postings h7,
        (day, dated, check_accounts-IsOpened chart day j.postings opened),
        (
          expected,
          expected_postings-IsAsked prims decimal_digit j.source_event expected e,
          (
            sorted_postings j.postings,
            sorted_postings expected,
            sorted_postings-Perm j.postings,
            sorted_postings-Perm expected,
            same_postings-Matches _ _ (ground (arith, same)),
          ),
        ),
      )

  module _ (store : EventStore) (b b' : JournalBook) (j : JournalEvent) where
    -- A post that returns books an event that is new by its id and active in the store. All events of
    -- the book that it gives are active; each stands under its id, comes from an event that may change
    -- the actual history, and has the postings that event asks for, on open accounts and in balance.
    pub post-IsBook :
        IsBook b
        → post prims decimal_digit store b j ≡ ok b'
        → IsBook b'
          × All (IsActiveEntry store) b'.events
          × (lookup j.source_event.event_id b.events ≡ none)
          × (b'.chart ≡ b.chart)
          × (b'.events ≡ insert j.source_event.event_id j b.events)
    unfolding post assert_all_sources_active
    post-IsBook book h =
        let id : String = j.source_event.event_id in
        let (inactive, h1) =
          raise_if-ok
            (any
              (λ (entry : String × JournalEvent).
                not (contains_active store (entry.1.source_event)))
              b.events)
            sources_inactive _ h in
        let (active, h2) =
          raise_if-ok (not (contains_active store j.source_event)) not_active _ h1 in
        let (_, valid, h3) = >>=-eq-ok (validate prims decimal_digit b.chart j) _ h2 in
        let (posted, h4) = raise_if-ok (is_posted (lookup id b.events)) duplicate_entry _ h3 in
        let fresh = not_posted_before (lookup id b.events) posted in
        let same : record b { events = insert id j b.events } ≡ b' = ok-inj h4 in
        subst
          (λ (x : JournalBook).
            IsBook x
            × All (IsActiveEntry store) x.events
            × (lookup id b.events ≡ none)
            × (x.chart ≡ b.chart)
            × (x.events ≡ insert id j b.events))
          same
          (
            All-insert (IsEntry b.chart) id j b.events fresh book
                (refl, validate-IsBooked b.chart j valid),
            All-insert (IsActiveEntry store) id j b.events fresh
                (active_entries store b.events inactive) (ground (arith, active)),
            fresh,
            refl,
            refl,
          )
