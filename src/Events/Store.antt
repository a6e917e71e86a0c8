-- ===== src/Events/Store.antt =====
-- events.py: `EventStore`, the append-only gate.
mod Examples
pub mod Accepts
pub mod Invariant
pub mod Active
pub mod Reversed
use mathlib.Core.Bool.{decide}
use baen_economy_engine.Prelude.{
  ℕ, ◌+◌, ◌-◌, Bool, true, false, ◌&&◌, ◌||◌, not, Option, none, some, String, List, [], ◌∷◌, ◌++◌,
  ltb, ◌==◌, str_eq, Result, ok, err, ◌>>=◌, ◌>>◌, raise_if, ℕ_discrete, if◌then◌else◌,
}
use baen_economy_engine.Prelude.Int.{ℤ, ℤ-discrete}
use baen_economy_engine.Prelude.Dict.{
  Dict, contains, lookup, insert, string_eq, pair_eq, nat_eq, String-discrete,
}
use baen_economy_engine.Events.Types.{
  EventError, duplicate_event, id_collision, duplicate_revision, first_reverses, no_preceding,
  wrong_reversal, unauthorised_correction, Primitives, EventEnvelope, may_reverse_actual, is_some,
}
use baen_economy_engine.Events.Envelope.{validate_integrity, integrity_hash, codes-discrete}

-- (timeline, model version, source event key)
abbrev pub Stream : Type 0
Stream = String × (String × String)

abbrev pub SourceKey : Type 0
SourceKey = Stream × ℕ

abbrev pub stream_of : EventEnvelope → Stream
stream_of e = (e.timeline_id, (e.model_version, e.source_event_key))

abbrev pub source_key : EventEnvelope → SourceKey
source_key e = (stream_of e, e.event_revision)

pub record EventStore : Type 0 where
  pub events_by_id : Dict String EventEnvelope
  pub source_revisions : Dict SourceKey EventEnvelope
  pub reversed_event_ids : List String

-- `event.reverses_event_id == id`
abbrev pub reverses : EventEnvelope → String → Bool
reverses e id = elim e.reverses_event_id [ none ↦ false | some r ↦ str_eq r id ]

abbrev pub empty_store : EventStore
empty_store = record { events_by_id = []; source_revisions = []; reversed_event_ids = [] }

unfoldable pub EventEnvelope-discrete : Discrete EventEnvelope
unfolding String-discrete ℤ-discrete codes-discrete
EventEnvelope-discrete = hlevel (ℕ_discrete, String-discrete, ℤ-discrete, codes-discrete)

check_id : Option EventEnvelope → EventEnvelope → Result EventError (Unit {0})
check_id none e = ok tt
check_id (some prior) e =
    if decide (EventEnvelope-discrete prior e) then err duplicate_event else err id_collision

check_source : Option EventEnvelope → Result EventError (Unit {0})
check_source none = ok tt
check_source (some prior) = err duplicate_revision

check_preceding : Option EventEnvelope → EventEnvelope → Result EventError (Unit {0})
check_preceding none e = err no_preceding
check_preceding (some preceding) e = do
  raise_if (not (reverses e preceding.event_id)) wrong_reversal
  raise_if (str_eq e.timeline_id "actual" && not (may_reverse_actual e)) unauthorised_correction

check_correction : EventStore → EventEnvelope → Result EventError (Unit {0})
unfolding check_preceding
check_correction s e =
    if ltb 1 e.event_revision
    then check_preceding (lookup (stream_of e, e.event_revision - 1) s.source_revisions) e
    else ok tt

check_revision : EventStore → EventEnvelope → Result EventError (Unit {0})
unfolding check_correction
check_revision s e = do
  raise_if (e.event_revision == 1 && is_some e.reverses_event_id) first_reverses
  check_correction s e

-- `self._reversed_event_ids.add(...)`, if the event reverses another.
add_reversed : Option String → List String → List String
add_reversed none ids = ids
add_reversed (some id) ids = id ∷ ids

-- The store after its three assignments.
unfoldable pub store_with : EventStore → EventEnvelope → EventStore
unfolding add_reversed
store_with s e = record {
  events_by_id = insert e.event_id e s.events_by_id;
  source_revisions = insert (source_key e) e s.source_revisions;
  reversed_event_ids = add_reversed e.reverses_event_id s.reversed_event_ids;
}

-- `_events_by_id.get(event.event_id) == event`
unfoldable pub contains_exact : EventStore → EventEnvelope → Bool
contains_exact s e = elim (lookup e.event_id s.events_by_id) [
  | none ↦ false
  | some prior ↦ decide (EventEnvelope-discrete prior e)
]

unfoldable pub contains_active : EventStore → EventEnvelope → Bool
contains_active s e = contains_exact s e && not (contains e.event_id s.reversed_event_ids)

module _ (prims : Primitives) where
  unfoldable pub append : EventStore → EventEnvelope → Result EventError EventStore
  unfolding check_id check_source check_revision store_with
  append s e = do
    validate_integrity prims e
    check_id (lookup e.event_id s.events_by_id) e
    check_source (lookup (source_key e) s.source_revisions)
    check_revision s e
    ok (store_with s e)

  -- A sequence of appends; the first that raises ends it.
  unfoldable pub append_all : EventStore → List EventEnvelope → Result EventError EventStore
  append_all s [] = ok s
  append_all s (e ∷ rest) = do s' ← append s e; append_all s' rest

  active_ref : Option EventEnvelope → EventStore → String → Result EventError Bool
  active_ref none s hash = ok false
  active_ref (some e) s hash =
      if contains e.event_id s.reversed_event_ids
      then ok false
      else (do found ← integrity_hash prims e; ok (str_eq found hash))

  unfoldable pub contains_active_ref : EventStore → String → String → Result EventError Bool
  unfolding active_ref
  contains_active_ref s id hash = active_ref (lookup id s.events_by_id) s hash
