-- ===== src/Verbs.antt =====
-- The table of verbs (crates/portos-rm/src/verbs.rs): the character of a verb and what follows from it
-- for budgets, staging and recovery.
pub mod Class
pub mod Checks
pub mod Policy
pub mod Projection
pub mod Registration
pub mod Coherence
pub mod Narrowing
use portos.Base.{
  ℕ, ◌≡◌, Bool, true, false, not, ◌&&◌, ◌||◌, Option, none, some, List, String, ltb, ◌==◌,
  if◌then◌else◌,
}

pub data ConsumeGrade : Type 0 where
  held : ConsumeGrade
  compensable : String → ConsumeGrade
  external : ConsumeGrade

pub data EmitGrade : Type 0 where
  compensable : String → EmitGrade
  external : EmitGrade

-- An emission says whether one consent may cover several.
pub data Kind : Type 0 where
  repeatable transforming : Kind
  consuming : ConsumeGrade → Kind
  emitting : EmitGrade → Bool → Kind

pub record VerbEntry : Type 0 where
  pub kind : Kind
  pub idempotent : Bool
  pub commutes : Bool
  pub degrade : Option String

-- Why a declaration is refused: the texts of `VerbError::Incoherent`, as data.
pub data Incoherence : Type 0 where
  class_unnamed verb_unnamed repeatable_not_idempotent transforming_external : Incoherence
  degrade_unregistered degrade_widens compensation_unregistered compensation_chain : Incoherence
  protocol_unregistered law_unscoped law_unregistered law_blank law_without_source : Incoherence

pub data VerbError : Type 0 where
  incoherent : Incoherence → VerbError
  unknown class_not_declared class_already_declared duplicate_verb : VerbError

-- The constructors of entries.
unfoldable pub repeatable_entry : VerbEntry
repeatable_entry = record {
  kind = Kind.repeatable;
  idempotent = true;
  commutes = true;
  degrade = none;
}

unfoldable pub repeatable_shared : VerbEntry
repeatable_shared = record {
  kind = Kind.repeatable;
  idempotent = true;
  commutes = false;
  degrade = none;
}

abbrev pub plain : Kind → VerbEntry
plain k = record { kind = k; idempotent = false; commutes = false; degrade = none }

unfoldable pub transforming_entry : VerbEntry
transforming_entry = plain Kind.transforming

unfoldable pub consuming_entry : ConsumeGrade → VerbEntry
consuming_entry world = plain (Kind.consuming world)

unfoldable pub emitting_entry : EmitGrade → Bool → VerbEntry
emitting_entry world amortizable = plain (Kind.emitting world amortizable)

unfoldable pub with_flags : Bool → Bool → VerbEntry → VerbEntry
with_flags idempotent commutes e = record e { idempotent = idempotent; commutes = commutes }

unfoldable pub degrades_to : String → VerbEntry → VerbEntry
degrades_to verb e = record e { degrade = some verb }

abbrev pub is_repeatable : Kind → Bool
is_repeatable Kind.repeatable = true
is_repeatable Kind.transforming = false
is_repeatable (Kind.consuming _) = false
is_repeatable (Kind.emitting _ _) = false

abbrev pub is_transforming : Kind → Bool
is_transforming Kind.repeatable = false
is_transforming Kind.transforming = true
is_transforming (Kind.consuming _) = false
is_transforming (Kind.emitting _ _) = false

-- `check_coherent` passes.
unfoldable pub check_coherent : VerbEntry → Bool
check_coherent e = not (is_repeatable e.kind && not e.idempotent)

unfoldable pub bears_budget : VerbEntry → Bool
bears_budget e = not (is_repeatable e.kind)

unfoldable pub contained : VerbEntry → Bool
contained e = is_transforming e.kind

unfoldable pub staged_kind : Kind → Bool
staged_kind Kind.repeatable = false
staged_kind Kind.transforming = false
staged_kind (Kind.consuming _) = false
staged_kind (Kind.emitting (EmitGrade.compensable _) _) = false
staged_kind (Kind.emitting EmitGrade.external _) = true

unfoldable pub staged_shape : VerbEntry → Bool
unfolding staged_kind
staged_shape e = staged_kind e.kind

unfoldable pub withheld_kind : Kind → Bool
withheld_kind Kind.repeatable = false
withheld_kind Kind.transforming = false
withheld_kind (Kind.consuming _) = false
withheld_kind (Kind.emitting _ amortizable) = not amortizable

unfoldable pub withhold : VerbEntry → Bool
unfolding withheld_kind
withhold e = withheld_kind e.kind

unfoldable pub compensation_of : Kind → Option String
compensation_of Kind.repeatable = none
compensation_of Kind.transforming = none
compensation_of (Kind.consuming ConsumeGrade.held) = none
compensation_of (Kind.consuming (ConsumeGrade.compensable c)) = some c
compensation_of (Kind.consuming ConsumeGrade.external) = none
compensation_of (Kind.emitting (EmitGrade.compensable c) _) = some c
compensation_of (Kind.emitting EmitGrade.external _) = none

unfoldable pub compensation_verb : VerbEntry → Option String
unfolding compensation_of
compensation_verb e = compensation_of e.kind

abbrev pub consume_rank : ConsumeGrade → ℕ
consume_rank ConsumeGrade.held = 0
consume_rank (ConsumeGrade.compensable _) = 0
consume_rank ConsumeGrade.external = 1

abbrev pub emit_rank : EmitGrade → ℕ
emit_rank (EmitGrade.compensable _) = 0
emit_rank EmitGrade.external = 1

unfoldable pub severity_of : Kind → ℕ × ℕ × ℕ
severity_of Kind.repeatable = (0, 0, 0)
severity_of Kind.transforming = (1, 0, 0)
severity_of (Kind.consuming world) = (2, consume_rank world, 0)
severity_of (Kind.emitting world amortizable) = (3, emit_rank world, if amortizable then 0 else 1)

unfoldable pub severity : VerbEntry → ℕ × ℕ × ℕ
unfolding severity_of
severity e = severity_of e.kind

-- The order of tuples, from the first component on.
unfoldable pub more_severe : ℕ × ℕ × ℕ → ℕ × ℕ × ℕ → Bool
more_severe (a, b, c) (a', b', c') = ltb a' a || (a == a' && (ltb b' b || (b == b' && ltb c' c)))
