-- ===== src/Domain/Assignments.antt =====
-- domain.py: `SimulationAssignment` and `validate_unique_assignments`.
use baen_economy_engine.Prelude.{
  ℕ, ◌≡◌, ◌↔◌, not, none, some, String, arith, List, [], ◌∷◌, Result, ok, err, ◌>>◌, raise_if, All,
  Option-cases, inl, inr, ◌≢◌, refl,
}
use baen_economy_engine.Prelude.Dict.{
  Dict, lookup, insert, lookup-insert-none, pair_eq, string_eq, nat_eq,
}
use baen_economy_engine.Prelude.Text.{has_text}
use baen_economy_engine.Domain.Labels.{SimulationMode}

pub data AssignmentError : Type 0 where
  missing_text duplicate_key : AssignmentError

pub record SimulationAssignment : Type 0 where
  pub entity_id : String
  pub timeline_id : String
  pub period_index : ℕ
  pub mode : SimulationMode
  pub source_ref : String

-- `SimulationAssignment.__post_init__`
unfoldable pub assignment_post_init :
    SimulationAssignment → Result AssignmentError SimulationAssignment
assignment_post_init a = do
  raise_if (not (has_text a.entity_id)) missing_text
  raise_if (not (has_text a.timeline_id)) missing_text
  raise_if (not (has_text a.source_ref)) missing_text
  ok a

abbrev pub AssignmentKey : Type 0
AssignmentKey = String × (String × ℕ)

abbrev pub assignment_key : SimulationAssignment → AssignmentKey
assignment_key a = (a.entity_id, (a.timeline_id, a.period_index))

-- The loop of `validate_unique_assignments`, over the modes seen so far.
validate_from :
    Dict AssignmentKey SimulationMode
    → List SimulationAssignment
    → Result AssignmentError (Unit {0})
validate_from seen [] = ok tt
validate_from seen (a ∷ rest) =
    let others = validate_from (insert (assignment_key a) a.mode seen) rest in
    elim (lookup (assignment_key a) seen) [ some prior ↦ err duplicate_key | none ↦ others ]

unfoldable pub validate_unique_assignments :
    List SimulationAssignment → Result AssignmentError (Unit {0})
unfolding validate_from
validate_unique_assignments assignments = validate_from [] assignments

-- No two assignments are of the same entity in the same period of the same timeline.
abbrev pub KeyDiffers : SimulationAssignment → SimulationAssignment → Type 0
KeyDiffers a b = assignment_key b ≢ assignment_key a

abbrev pub IsUnique : List SimulationAssignment → Type 0
IsUnique [] = Unit
IsUnique (a ∷ rest) = All (KeyDiffers a) rest × IsUnique rest

abbrev IsFresh : Dict AssignmentKey SimulationMode → SimulationAssignment → Type 0
IsFresh seen a = lookup (assignment_key a) seen ≡ none

module _ (a : SimulationAssignment) (seen : Dict AssignmentKey SimulationMode) where
  abbrev seen' : Dict AssignmentKey SimulationMode
  seen' = insert (assignment_key a) a.mode seen

  IsFresh-after :
      (rest : List SimulationAssignment)
      → All (IsFresh seen') rest
      → All (IsFresh seen) rest × All (KeyDiffers a) rest
  IsFresh-after [] h = (tt, tt)
  IsFresh-after (b ∷ rest) h =
      let other = (lookup-insert-none (assignment_key a) (assignment_key b) a.mode seen).0 h.0 in
      let others = IsFresh-after rest h.1 in ((other.0, others.0), (other.1, others.1))

  IsFresh-before :
      (rest : List SimulationAssignment)
      → All (IsFresh seen) rest
      → All (KeyDiffers a) rest
      → All (IsFresh seen') rest
  IsFresh-before [] h k = tt
  IsFresh-before (b ∷ rest) h k = (
    (lookup-insert-none (assignment_key a) (assignment_key b) a.mode seen).1 (h.0, k.0),
    IsFresh-before rest h.1 k.1,
  )

validate_from_sound :
    (seen : Dict AssignmentKey SimulationMode) (assignments : List SimulationAssignment)
    → validate_from seen assignments ≡ ok tt
    → All (IsFresh seen) assignments × IsUnique assignments
unfolding validate_from
validate_from_sound seen [] h = (tt, tt)
validate_from_sound seen (a ∷ rest) h = elim (Option-cases (lookup (assignment_key a) seen)) [
  | inl fresh ↦
      let later = validate_from_sound (seen' a seen) rest (rw (fresh, validate_from) at h) in
      let split = IsFresh-after a seen rest later.0 in ((fresh, split.0), (split.1, later.1))
  | inr (m, e) ↦ absurd (ground (arith, e))
]

validate_from_complete :
    (seen : Dict AssignmentKey SimulationMode) (assignments : List SimulationAssignment)
    → All (IsFresh seen) assignments
    → IsUnique assignments
    → validate_from seen assignments ≡ ok tt
unfolding validate_from
validate_from_complete seen [] h u = refl
validate_from_complete seen (a ∷ rest) h u =
    rw (h.0, validate_from)
      (validate_from_complete (seen' a seen) rest (IsFresh-before a seen rest h.1 u.0) u.1)

IsFresh-All : (assignments : List SimulationAssignment) → All (IsFresh []) assignments
unfolding lookup
IsFresh-All [] = tt
IsFresh-All (a ∷ rest) = (refl, IsFresh-All rest)

-- The assignments are accepted exactly when no two of them give the same entity, timeline and
-- period a mode, be it the same mode twice or two modes.
pub validate_unique_assignments_iff :
    (assignments : List SimulationAssignment)
    → (validate_unique_assignments assignments ≡ ok tt) ↔ IsUnique assignments
unfolding validate_unique_assignments
validate_unique_assignments_iff assignments = (
  λ h. (validate_from_sound [] assignments h).1,
  λ u. validate_from_complete [] assignments (IsFresh-All assignments) u,
)
