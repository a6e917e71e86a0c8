-- ===== src/Events/Store/Reversed.antt =====
-- events.py: what `EventStore.append` of a correction does for good.
use baen_economy_engine.Prelude.{
  ◌≡◌, subst, arith, true, false, some, String, List, [], ◌∷◌, ok, >>=-eq-ok, ok-inj,
}
use baen_economy_engine.Prelude.Dict.{contains, lookup, string_eq, pair_eq, nat_eq}
use baen_economy_engine.Events.Types.{Primitives, EventEnvelope}
use baen_economy_engine.Events.Envelope.{validate_integrity}
use baen_economy_engine.Events.Store.{
  EventStore, source_key, check_id, check_source, check_revision, add_reversed, store_with,
  contains_active, append, append_all,
}

-- The event with this id was corrected.
abbrev pub IsReversed : String → EventStore → Type 0
IsReversed id s = contains id s.reversed_event_ids ≡ true

pub IsReversed-contains_active :
    (s : EventStore) (e : EventEnvelope) → IsReversed e.event_id s → contains_active s e ≡ false
unfolding contains_active
IsReversed-contains_active s e h = ground (arith, h)

module _ (prims : Primitives) where
  append-store_with :
      (s s' : EventStore) (e : EventEnvelope) → append prims s e ≡ ok s' → store_with s e ≡ s'
  unfolding append
  append-store_with s s' e h =
      let (_, _, h1) = >>=-eq-ok (validate_integrity prims e) _ h in
      let (_, _, h2) = >>=-eq-ok (check_id (lookup e.event_id s.events_by_id) e) _ h1 in
      let (_, _, h3) = >>=-eq-ok (check_source (lookup (source_key e) s.source_revisions)) _ h2 in
      let (_, _, h4) = >>=-eq-ok (check_revision s e) _ h3 in ok-inj h4

  pub append-IsReversed :
      (s s' : EventStore) (c : EventEnvelope) (id : String)
      → c.reverses_event_id ≡ some id
      → append prims s c ≡ ok s'
      → IsReversed id s'
  unfolding store_with add_reversed contains
  append-IsReversed s s' c id names h =
      subst (IsReversed id) (append-store_with s s' c h)
        (rw names (ground (arith, string_eq.beq_iff id id)))

  IsReversed-append :
      (s s' : EventStore) (e : EventEnvelope) (id : String)
      → IsReversed id s
      → append prims s e ≡ ok s'
      → IsReversed id s'
  unfolding store_with add_reversed contains
  IsReversed-append s s' e id before h =
      subst (IsReversed id) (append-store_with s s' e h) (ground (arith, before))

  -- A corrected event stays corrected.
  pub append_all-IsReversed :
      (es : List EventEnvelope) (s s' : EventStore) (id : String)
      → IsReversed id s
      → append_all prims s es ≡ ok s'
      → IsReversed id s'
  unfolding append_all
  append_all-IsReversed [] s s' id before h = subst (IsReversed id) (ok-inj h) before
  append_all-IsReversed (e ∷ es) s s' id before h =
      let (next, one, h1) = >>=-eq-ok (append prims s e) _ h in
      append_all-IsReversed es next s' id (IsReversed-append s next e id before one) h1
