-- ===== src/Events/Store/Active.antt =====
-- Which stored events are active, and what a correction may do.
use mathlib.Core.Bool.{decide_iff}
use baen_economy_engine.Prelude.{
  ℕ, zero, suc, ◌+◌, ◌-◌, ◌≤◌, ◌≡◌, ◌↔◌, refl, inl, inr, true, none, some, arith, Bool-cases,
  Option-cases, dec_le, subst, sym, ap, ◌∙◌,
}
use baen_economy_engine.Prelude.Dict.{lookup, contains, string_eq, pair_eq, nat_eq}
use baen_economy_engine.Events.Types.{EventEnvelope, may_mutate_actual}
use baen_economy_engine.Events.Store.{
  EventStore, stream_of, source_key, SourceKey, contains_exact, contains_active,
  EventEnvelope-discrete,
}
use baen_economy_engine.Events.Store.Invariant.{IsValid}

abbrev pub Stored : EventStore → EventEnvelope → Type 0
Stored s e = lookup e.event_id s.events_by_id ≡ some e

pub contains_exact_iff :
    (s : EventStore) (e : EventEnvelope) → (contains_exact s e ≡ true) ↔ Stored s e
unfolding contains_exact
contains_exact_iff s e = elim (Option-cases (lookup e.event_id s.events_by_id)) [
  | inl missing ↦ (λ h. ground (arith, missing), λ h. ground (arith, missing))
  | inr (p, found) ↦ (
    λ h.
        found
        ∙ ap some ((decide_iff (EventEnvelope-discrete p e)).0 (rw (found, contains_exact) at h)),
    λ h. rw (h, contains_exact) ((decide_iff (EventEnvelope-discrete e e)).1 refl),
  )
]

-- The source revision after `e`.
abbrev pub next_key : EventEnvelope → SourceKey
next_key e = (stream_of e, e.event_revision + 1)

pair_path {ℓ κ} :
    {A : Type ℓ} {B : Type κ} {a b : A} {c d : B} → a ≡ b → c ≡ d → ◌≡◌ {A = A × B} (a, c) (b, d)
pair_path p q = λ i. (p i, q i)

module _ (s : EventStore) (v : IsValid s) where
  positive : (e : EventEnvelope) → Stored s e → 1 ≤ e.event_revision
  positive e h = elim (v.chained e.event_id e h) [
    | inl (one, nothing) ↦ omega arith
    | inr (p, c) ↦ omega (arith, c.next_revision)
  ]

  -- One event per id, and one per source revision.
  same_id : (p q : EventEnvelope) → Stored s p → Stored s q → p.event_id ≡ q.event_id → p ≡ q
  same_id p q hp hq e = cc (hp, hq, ap (λ i. lookup i s.events_by_id) e)

  same_key : (p q : EventEnvelope) → Stored s p → Stored s q → source_key p ≡ source_key q → p ≡ q
  same_key p q hp hq e =
      let kp = (v.at_id p.event_id p hp).1 in
      let kq = (v.at_id q.event_id q hq).1 in cc (kp, kq, ap (λ k. lookup k s.source_revisions) e)

  -- A stored event that names `e` as reversed is the next revision of `e`.
  reverser-next :
      (e r : EventEnvelope)
      → Stored s e
      → Stored s r
      → r.reverses_event_id ≡ some e.event_id
      → source_key r ≡ next_key e
  reverser-next e r he hr names = elim (v.chained r.event_id r hr) [
    | inl (one, nothing) ↦ absurd (ground (arith, nothing, names))
    | inr (p, c) ↦
        let stored = (v.at_key (source_key p) p c.stored).1 in
        let same : p ≡ e = same_id p e stored he (cc (names, c.names_it)) in
        pair_path (c.same_stream ∙ ap stream_of same)
          (c.next_revision ∙ ap (λ (q : EventEnvelope). q.event_revision + 1) same)
  ]

  -- A next revision reverses the event before it.
  next-reverses :
      (e r : EventEnvelope)
      → Stored s e
      → Stored s r
      → source_key r ≡ next_key e
      → r.reverses_event_id ≡ some e.event_id
  next-reverses e r he hr key = elim (v.chained r.event_id r hr) [
    | inl (one, nothing) ↦ absurd (omega (arith, ap (λ (k : SourceKey). k.1) key, positive e he))
    | inr (p, c) ↦
        let stored = (v.at_key (source_key p) p c.stored).1 in
        let same : p ≡ e = same_key p e stored he (
          pair_path (sym c.same_stream ∙ ap (λ (k : SourceKey). k.0) key)
            (omega (arith, c.next_revision, ap (λ (k : SourceKey). k.1) key))) in
        c.names_it ∙ ap (λ (q : EventEnvelope). some q.event_id) same
  ]

  active-no_next :
      (e : EventEnvelope)
      → contains_active s e ≡ true
      → Stored s e × (lookup (next_key e) s.source_revisions ≡ none)
  unfolding contains_active
  active-no_next e h =
      let he = (contains_exact_iff s e).0 (ground arith) in
      (
        he,
        elim (Option-cases (lookup (next_key e) s.source_revisions)) [
          | inl nothing ↦ nothing
          | inr (r, found) ↦
              let (key, hr) = v.at_key (next_key e) r found in
              let names = next-reverses e r he hr (sym key) in
              absurd (ground (arith, v.reversing r e.event_id hr names))
        ],
      )

  no_next-active :
      (e : EventEnvelope)
      → Stored s e
      → lookup (next_key e) s.source_revisions ≡ none
      → contains_active s e ≡ true
  unfolding contains_active
  no_next-active e he nothing = elim (Bool-cases (contains e.event_id s.reversed_event_ids)) [
    | inr fresh ↦ rw (fresh, (contains_exact_iff s e).1 he)
    | inl reversed ↦
        let (r, found) = v.reversed_by e.event_id reversed in
        let key = reverser-next e r he found.0 found.1 in
        absurd (
          ground (
            arith,
            subst (λ k. lookup k s.source_revisions ≡ some r) key (v.at_id r.event_id r found.0).1,
          ))
  ]

  -- In a valid store an event is active exactly when it is stored and no later revision of its
  -- source event is.
  pub contains_active_iff :
      (e : EventEnvelope)
      → (contains_active s e ≡ true)
        ↔ (Stored s e × (lookup (next_key e) s.source_revisions ≡ none))
  contains_active_iff e = (active-no_next e, λ h. no_next-active e h.0 h.1)

  -- Down from a stored revision every earlier one of the same source event is stored.
  earlier :
      (d m : ℕ) (f : EventEnvelope)
      → Stored s f
      → f.event_revision ≡ d + m + 1
      → 1 ≤ m
      → (q : EventEnvelope) × (lookup (stream_of f, m + 1) s.source_revisions ≡ some q)
  earlier zero m f hf r pos = (
    f,
    subst (λ n. lookup (stream_of f, n) s.source_revisions ≡ some f) (omega arith)
        (v.at_id f.event_id f hf).1,
  )
  earlier (suc d) m f hf r pos = elim (v.chained f.event_id f hf) [
    | inl (one, nothing) ↦ absurd (omega arith)
    | inr (p, c) ↦
        let stored = (v.at_key (source_key p) p c.stored).1 in
        let (q, found) = earlier d m p stored (omega (arith, c.next_revision)) pos in
        (q, subst (λ t. lookup (t, m + 1) s.source_revisions ≡ some q) (sym c.same_stream) found)
  ]

  active-le :
      (e f : EventEnvelope)
      → contains_active s e ≡ true
      → contains_active s f ≡ true
      → stream_of e ≡ stream_of f
      → f.event_revision ≤ e.event_revision
  active-le e f ae af same = elim (dec_le f.event_revision e.event_revision) [
    | yes h ↦ h
    | no h ↦
        let (he, last) = active-no_next e ae in
        let hf = (active-no_next f af).0 in
        let (q, found) =
          earlier (f.event_revision - e.event_revision - 1) e.event_revision f hf (omega arith)
            (positive e he) in
        absurd (
          ground (
            arith,
            last,
            subst (λ t. lookup (t, e.event_revision + 1) s.source_revisions ≡ some q) (sym same)
                found,
          ))
  ]

  -- A source event has one active revision at most.
  pub active_unique :
      (e f : EventEnvelope)
      → contains_active s e ≡ true
      → contains_active s f ≡ true
      → stream_of e ≡ stream_of f
      → e ≡ f
  active_unique e f ae af same =
      same_key e f (active-no_next e ae).0 (active-no_next f af).0
        (pair_path same (omega (arith, active-le e f ae af same, active-le f e af ae (sym same))))

  -- A stored event that may change the actual history is a first revision.
  pub mutating-first :
      (e : EventEnvelope) → Stored s e → may_mutate_actual e ≡ true → e.event_revision ≡ 1
  unfolding may_mutate_actual
  mutating-first e he h = elim (v.chained e.event_id e he) [
    | inl (one, nothing) ↦ one
    | inr (p, c) ↦ absurd (ground (arith, c.names_it))
  ]
