-- ===== src/Events/Store/Accepts.antt =====
-- What `EventStore.append` has checked when it returns.
use baen_economy_engine.Prelude.{
  ◌+◌, ◌-◌, ◌≤◌, ◌≡◌, ◌⊎◌, inl, inr, true, false, Option, none, some, String, arith, ok, ◌>>◌,
  >>=-eq-ok, Bool-cases, Option-cases, eq_iff, ltb, subst, ap, str_eq,
}
use baen_economy_engine.Prelude.Dict.{lookup, string_eq, pair_eq, nat_eq}
use baen_economy_engine.Events.Types.{Primitives, EventEnvelope, may_reverse_actual}
use baen_economy_engine.Events.Envelope.{validate_integrity}
use baen_economy_engine.Events.Store.{
  EventStore, stream_of, source_key, check_id, check_source, check_revision, store_with, append,
  SourceKey,
}

-- The event that `e` corrects: the revision before it of the same source event.
pub record Corrects (s : EventStore) (e p : EventEnvelope) : Type 0 where
  pub stored : lookup (source_key p) s.source_revisions ≡ some p
  pub same_stream : stream_of e ≡ stream_of p
  pub next_revision : e.event_revision ≡ p.event_revision + 1
  pub names_it : e.reverses_event_id ≡ some p.event_id
  pub authorised : e.timeline_id ≡ "actual" → may_reverse_actual e ≡ true

abbrev pub Chained : EventStore → EventEnvelope → Type 0
Chained s e =
    ((e.event_revision ≡ 1) × (e.reverses_event_id ≡ none)) ⊎ ((p : EventEnvelope) × Corrects s e p)

validate_integrity-revision :
    (prims : Primitives) (e : EventEnvelope)
    → validate_integrity prims e ≡ ok tt
    → 1 ≤ e.event_revision
unfolding validate_integrity
validate_integrity-revision prims e h = ground arith

check_id-none : (o : Option EventEnvelope) (e : EventEnvelope) → check_id o e ≡ ok tt → o ≡ none
unfolding check_id
check_id-none o e h = ground arith

check_source-none : (o : Option EventEnvelope) → check_source o ≡ ok tt → o ≡ none
unfolding check_source
check_source-none o h = ground arith

-- A stored event stands at its own key.
abbrev pub AtKey : EventStore → Type 0
AtKey s =
    (k : SourceKey) (p : EventEnvelope) → lookup k s.source_revisions ≡ some p → k ≡ source_key p

names_of :
    (o : Option String) (id : String)
    → (elim o [ none ↦ false | some r ↦ str_eq r id ]) ≡ true
    → o ≡ some id
names_of none id h = cc
names_of (some r) id h = ap some ((eq_iff r id).0 h)

check_revision-Chained :
    (s : EventStore) (e : EventEnvelope)
    → AtKey s
    → 1 ≤ e.event_revision
    → check_revision s e ≡ ok tt
    → Chained s e
unfolding check_revision
check_revision-Chained s e at r h = elim (Bool-cases (ltb 1 e.event_revision)) [
  | inr first ↦ inl (ground arith, ground arith)
  | inl more ↦ elim (Option-cases (lookup (stream_of e, e.event_revision - 1) s.source_revisions)) [
    | inl missing ↦ absurd (ground (arith, missing))
    | inr (p, found) ↦
        let key = at (stream_of e, e.event_revision - 1) p found in
        inr (
          p,
          record {
            stored = subst (λ k. lookup k s.source_revisions ≡ some p) key found;
            same_stream = ap (λ (k : SourceKey). k.0) key;
            next_revision = ground (arith, ap (λ (k : SourceKey). k.1) key);
            names_it = names_of e.reverses_event_id p.event_id (ground (arith, found));
            authorised = λ actual. ground (arith, found, eq_iff e.timeline_id "actual");
          },
        )
  ]
]

pub record Accepts (s : EventStore) (e : EventEnvelope) : Type 0 where
  pub revision : 1 ≤ e.event_revision
  pub id_fresh : lookup e.event_id s.events_by_id ≡ none
  pub key_fresh : lookup (source_key e) s.source_revisions ≡ none
  pub chained : Chained s e

-- For a store whose events stand at their own keys: an append that returns has found the event new by
-- its id and by its source revision, and either a first revision or a correction of the revision before
-- it, and its result is the store with the event added.
pub append-Accepts :
    (prims : Primitives) (s s' : EventStore) (e : EventEnvelope)
    → AtKey s
    → append prims s e ≡ ok s'
    → Accepts s e × (s' ≡ store_with s e)
unfolding append
append-Accepts prims s s' e at h =
    let (v, hv, h1) =
      >>=-eq-ok (validate_integrity prims e)
        (λ _.
          check_id (lookup e.event_id s.events_by_id) e
          >> (check_source (lookup (source_key e) s.source_revisions)
              >> (check_revision s e >> ok (store_with s e))))
        h in
    let (i, hi, h2) =
      >>=-eq-ok (check_id (lookup e.event_id s.events_by_id) e)
        (λ _.
          check_source (lookup (source_key e) s.source_revisions)
          >> (check_revision s e >> ok (store_with s e)))
        h1 in
    let (k, hk, h3) =
      >>=-eq-ok (check_source (lookup (source_key e) s.source_revisions))
        (λ _. check_revision s e >> ok (store_with s e)) h2 in
    let (r, hr, h4) = >>=-eq-ok (check_revision s e) (λ _. ok (store_with s e)) h3 in
    let positive = validate_integrity-revision prims e hv in
    (
      record {
        revision = positive;
        id_fresh = check_id-none _ e hi;
        key_fresh = check_source-none _ hk;
        chained = check_revision-Chained s e at positive hr;
      },
      ground (arith, h4),
    )
