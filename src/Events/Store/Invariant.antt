-- ===== src/Events/Store/Invariant.antt =====
-- The invariant of `EventStore`: its two indexes agree, revisions form chains of corrections, and
-- the reversed ids are those that stored corrections name.
use baen_economy_engine.Prelude.{
  ◌≡◌, ◌⊎◌, inl, inr, true, Option, none, some, String, arith, ok, Bool-cases, eq_iff, List, subst,
  sym, ap, str_eq,
}
use baen_economy_engine.Prelude.Dict.{
  lookup, contains, string_eq, pair_eq, nat_eq, lookup-insert_self, lookup-insert-fresh,
  lookup-insert-some,
}
use baen_economy_engine.Events.Types.{Primitives, EventEnvelope}
use baen_economy_engine.Events.Store.{
  EventStore, source_key, store_with, append, SourceKey, empty_store, add_reversed,
}
use baen_economy_engine.Events.Store.Accepts.{Chained, Accepts, append-Accepts}

pub record IsValid (s : EventStore) : Type 0 where
  pub at_id :
      (id : String) (e : EventEnvelope)
      → lookup id s.events_by_id ≡ some e
      → (id ≡ e.event_id) × (lookup (source_key e) s.source_revisions ≡ some e)
  pub at_key :
      (k : SourceKey) (e : EventEnvelope)
      → lookup k s.source_revisions ≡ some e
      → (k ≡ source_key e) × (lookup e.event_id s.events_by_id ≡ some e)
  pub chained : (id : String) (e : EventEnvelope) → lookup id s.events_by_id ≡ some e → Chained s e
  pub reversed_by :
      (id : String)
      → contains id s.reversed_event_ids ≡ true
      → (e : EventEnvelope) × ((lookup e.event_id s.events_by_id ≡ some e)
          × (e.reverses_event_id ≡ some id))
  pub reversing :
      (e : EventEnvelope) (id : String)
      → lookup e.event_id s.events_by_id ≡ some e
      → e.reverses_event_id ≡ some id
      → contains id s.reversed_event_ids ≡ true

pub empty-IsValid : IsValid empty_store
unfolding lookup contains
empty-IsValid = record {
  at_id = λ id e h. absurd (cc);
  at_key = λ k e h. absurd (cc);
  chained = λ id e h. absurd (cc);
  reversed_by = λ id h. absurd (cc);
  reversing = λ e id h k. absurd (cc);
}

contains-add :
    (id : String) (o : Option String) (ids : List String)
    → contains id (add_reversed o ids) ≡ true
    → (o ≡ some id) ⊎ (contains id ids ≡ true)
unfolding contains add_reversed
contains-add id none ids h = inr h
contains-add id (some r) ids h = elim (Bool-cases (str_eq r id)) [
  | inl same ↦ inl (ap some ((eq_iff r id).0 same))
  | inr other ↦ inr (ground arith)
]

contains-added :
    (id : String) (o : Option String) (ids : List String)
    → (o ≡ some id) ⊎ (contains id ids ≡ true)
    → contains id (add_reversed o ids) ≡ true
unfolding contains add_reversed
contains-added id none ids h = ground arith
contains-added id (some r) ids h = ground (arith, eq_iff r id)

module _ (s : EventStore) (e : EventEnvelope) (v : IsValid s) (a : Accepts s e) where
  abbrev after : EventStore
  after = store_with s e

  -- What was stored stays where it was.
  keeps_id :
      (id : String) (p : EventEnvelope)
      → lookup id s.events_by_id ≡ some p
      → lookup id after.events_by_id ≡ some p
  unfolding store_with
  keeps_id id p h = lookup-insert-fresh e.event_id id e p s.events_by_id a.id_fresh h

  keeps_key :
      (k : SourceKey) (p : EventEnvelope)
      → lookup k s.source_revisions ≡ some p
      → lookup k after.source_revisions ≡ some p
  unfolding store_with
  keeps_key k p h = lookup-insert-fresh (source_key e) k e p s.source_revisions a.key_fresh h

  keeps_Chained : (p : EventEnvelope) → Chained s p → Chained after p
  keeps_Chained p (inl first) = inl first
  keeps_Chained p (inr (q, c)) = inr (
    q,
    record {
      stored = keeps_key (source_key q) q c.stored;
      same_stream = c.same_stream;
      next_revision = c.next_revision;
      names_it = c.names_it;
      authorised = c.authorised;
    },
  )

  new_id : lookup e.event_id after.events_by_id ≡ some e
  unfolding store_with
  new_id = lookup-insert_self e.event_id e s.events_by_id

  new_key : lookup (source_key e) after.source_revisions ≡ some e
  unfolding store_with
  new_key = lookup-insert_self (source_key e) e s.source_revisions

  -- What stands in the new indexes is the new event or stood there before.
  id-cases :
      (id : String) (p : EventEnvelope)
      → lookup id after.events_by_id ≡ some p
      → ((id ≡ e.event_id) × (p ≡ e)) ⊎ (lookup id s.events_by_id ≡ some p)
  unfolding store_with
  id-cases id p h = elim (lookup-insert-some e.event_id id e p s.events_by_id h) [
    | inl new ↦ inl new
    | inr old ↦ inr old.1
  ]

  key-cases :
      (k : SourceKey) (p : EventEnvelope)
      → lookup k after.source_revisions ≡ some p
      → ((k ≡ source_key e) × (p ≡ e)) ⊎ (lookup k s.source_revisions ≡ some p)
  unfolding store_with
  key-cases k p h = elim (lookup-insert-some (source_key e) k e p s.source_revisions h) [
    | inl new ↦ inl new
    | inr old ↦ inr old.1
  ]

  at_id-after :
      (id : String) (p : EventEnvelope)
      → lookup id after.events_by_id ≡ some p
      → (id ≡ p.event_id) × (lookup (source_key p) after.source_revisions ≡ some p)
  at_id-after id p h = elim (id-cases id p h) [
    | inl (i, same) ↦
        subst (λ q. (id ≡ q.event_id) × (lookup (source_key q) after.source_revisions ≡ some q))
          (sym same) (i, new_key)
    | inr old ↦ let found = v.at_id id p old in (found.0, keeps_key (source_key p) p found.1)
  ]

  at_key-after :
      (k : SourceKey) (p : EventEnvelope)
      → lookup k after.source_revisions ≡ some p
      → (k ≡ source_key p) × (lookup p.event_id after.events_by_id ≡ some p)
  at_key-after k p h = elim (key-cases k p h) [
    | inl (i, same) ↦
        subst (λ q. (k ≡ source_key q) × (lookup q.event_id after.events_by_id ≡ some q)) (sym same)
          (i, new_id)
    | inr old ↦ let found = v.at_key k p old in (found.0, keeps_id p.event_id p found.1)
  ]

  Chained-after :
      (id : String) (p : EventEnvelope) → lookup id after.events_by_id ≡ some p → Chained after p
  Chained-after id p h = elim (id-cases id p h) [
    | inl (i, same) ↦ subst (λ q. Chained after q) (sym same) (keeps_Chained e a.chained)
    | inr old ↦ keeps_Chained p (v.chained id p old)
  ]

  reversed_by-after :
      (id : String)
      → contains id after.reversed_event_ids ≡ true
      → (p : EventEnvelope) × ((lookup p.event_id after.events_by_id ≡ some p)
          × (p.reverses_event_id ≡ some id))
  unfolding store_with
  reversed_by-after id h = elim (contains-add id e.reverses_event_id s.reversed_event_ids h) [
    | inl new ↦ (e, (new_id, new))
    | inr old ↦
        let (p, found) = v.reversed_by id old in (p, (keeps_id p.event_id p found.0, found.1))
  ]

  reversing-after :
      (p : EventEnvelope) (id : String)
      → lookup p.event_id after.events_by_id ≡ some p
      → p.reverses_event_id ≡ some id
      → contains id after.reversed_event_ids ≡ true
  unfolding store_with
  reversing-after p id h r =
      contains-added id e.reverses_event_id s.reversed_event_ids (elim (id-cases p.event_id p h) [
        | inl (i, same) ↦ inl (subst (λ q. q.reverses_event_id ≡ some id) same r)
        | inr old ↦ inr (v.reversing p id old r)
      ])

  pub store_with-IsValid : IsValid after
  store_with-IsValid = record {
    at_id = at_id-after;
    at_key = at_key-after;
    chained = Chained-after;
    reversed_by = reversed_by-after;
    reversing = reversing-after;
  }

module _ (prims : Primitives) where
  -- An append that returns keeps the store valid, and adds an event whose id was not stored before.
  pub append-IsValid :
      (s s' : EventStore) (e : EventEnvelope)
      → IsValid s
      → append prims s e ≡ ok s'
      → IsValid s'
        × (lookup e.event_id s.events_by_id ≡ none)
        × (lookup e.event_id s'.events_by_id ≡ some e)
  append-IsValid s s' e v h =
      let (a, same) = append-Accepts prims s s' e (λ k p found. (v.at_key k p found).0) h in
      subst
        (λ t.
          IsValid t
          × (lookup e.event_id s.events_by_id ≡ none)
          × (lookup e.event_id t.events_by_id ≡ some e))
        (sym same) (store_with-IsValid s e v a, a.id_fresh, new_id s e v a)

  -- An append that returns leaves every event of a valid store where it was.
  pub append-keeps :
      (s s' : EventStore) (e p : EventEnvelope) (id : String)
      → IsValid s
      → append prims s e ≡ ok s'
      → lookup id s.events_by_id ≡ some p
      → lookup id s'.events_by_id ≡ some p
  append-keeps s s' e p id v h found =
      let (a, same) = append-Accepts prims s s' e (λ k q at. (v.at_key k q at).0) h in
      subst (λ t. lookup id t.events_by_id ≡ some p) (sym same) (keeps_id s e v a id p found)
