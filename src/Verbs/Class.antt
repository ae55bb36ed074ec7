-- ===== src/Verbs/Class.antt =====
-- The declaration of a class of verbs, as a whole (`ClassDeclarationDraft`,
-- crates/portos-rm/src/verbs.rs), and its check.
use Prim.Native.Char.{code}
use portos.Base.{ℕ, Bool, true, false, ◌&&◌, ◌||◌, Option, none, some, List, String, leb, ◌==◌}
use portos.Base.Maps.{Map}
use portos.Ledger.{RevertGrade}
use portos.Protocol.{Protocol, Result, ok, err, ◌>>=◌}
use portos.Verbs.{ConsumeGrade, Kind, held, VerbEntry, Incoherence, VerbError, incoherent}

pub data LawScope : Type 0 where
  unspecified : LawScope
  declared : String → String → String → LawScope

pub data Equation : Type 0 where
  idempotent : String → Equation
  commutes : String → String → Equation
  legacy_commutation_summary : String → Equation

pub data EvidenceSource : Type 0 where
  provider_assertion reviewed_contract : String → EvidenceSource

pub record LawDeclaration : Type 0 where
  pub equation : Equation
  pub scope : LawScope
  pub source : EvidenceSource

pub record ClassDeclarationDraft : Type 0 where
  pub class : String
  pub holding_grade : Option RevertGrade
  pub verbs : List (String × VerbEntry)
  pub protocol : Option Protocol
  pub laws : List LawDeclaration

abbrev pub Entries : Type 0
Entries = Map String VerbEntry

-- A `CheckedVerb` is an entry in a checked class.
pub record CheckedClass : Type 0 where
  pub class : String
  pub holding_grade : Option RevertGrade
  pub entries : Entries
  pub protocol : Option Protocol
  pub laws : List LawDeclaration

abbrev pub Verdict : Type 0 → Type 0
Verdict A = Result VerbError A

abbrev pub demand : Bool → VerbError → Verdict (Unit {0})
demand true e = ok tt
demand false e = err e

infixl 5 ◌>>◌
abbrev pub ◌>>◌ : {A : Type 0} → Verdict (Unit {0}) → Verdict A → Verdict A
m >> next = m >>= λ _. next

abbrev pub or_unknown : {A : Type 0} → Option A → Incoherence → Verdict A
or_unknown none why = err (incoherent why)
or_unknown (some a) why = ok a

-- Characters that `trim` removes.
abbrev pub is_space : ℕ → Bool
is_space c =
    (leb 9 c && leb c 13)
    || c == 32
    || c == 133
    || c == 160
    || c == 5760
    || (leb 8192 c && leb c 8202)
    || c == 8232
    || c == 8233
    || c == 8239
    || c == 8287
    || c == 12288

-- `trim().is_empty()`.
unfoldable pub is_trimmed_empty : String → Bool
is_trimmed_empty String.[] = true
is_trimmed_empty (String.◌∷◌ c s) = is_space (code c) && is_trimmed_empty s

-- The verb leaves something to recover, for which the class must say how.
unfoldable pub needs_grade : Kind → Bool
needs_grade Kind.repeatable = false
needs_grade Kind.transforming = true
needs_grade (Kind.consuming held) = true
needs_grade (Kind.consuming (ConsumeGrade.compensable _)) = false
needs_grade (Kind.consuming ConsumeGrade.external) = false
needs_grade (Kind.emitting _ _) = false

abbrev pub is_declared : Option RevertGrade → Bool
is_declared none = false
is_declared (some _) = true

abbrev pub is_external : Option RevertGrade → Bool
is_external none = false
is_external (some RevertGrade.inverse) = false
is_external (some RevertGrade.compensable) = false
is_external (some RevertGrade.external) = true
