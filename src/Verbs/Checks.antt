-- ===== src/Verbs/Checks.antt =====
-- `ClassDeclarationDraft::check` (crates/portos-rm/src/verbs.rs): the loop over the verbs, that over
-- the entries, the protocol, the laws, and the summaries that are added to them.
use portos.Base.{
  Bool, true, false, not, ◌&&◌, ◌||◌, Option, none, some, List, [], ◌∷◌, ◌++◌, String,
  string_discrete, if◌then◌else◌, is_blank,
}
use portos.Base.Maps.{get, put, contains_key}
use portos.Base.Sets.{of_list, is_subset}
use portos.Ledger.{RevertGrade}
use portos.Protocol.{Protocol, ok, err, ◌>>=◌}
use portos.Verbs.{
  VerbEntry, class_unnamed, verb_unnamed, repeatable_not_idempotent, transforming_external,
  degrade_unregistered, degrade_widens, compensation_unregistered, compensation_chain,
  protocol_unregistered, law_unscoped, law_unregistered, law_blank, law_without_source, incoherent,
  class_not_declared, duplicate_verb, check_coherent, contained, compensation_verb, severity,
  more_severe,
}
use portos.Verbs.Class.{
  LawScope, unspecified, declared, Equation, idempotent, commutes, legacy_commutation_summary,
  EvidenceSource, provider_assertion, reviewed_contract, LawDeclaration, ClassDeclarationDraft,
  Entries, CheckedClass, Verdict, demand, ◌>>◌, or_unknown, is_trimmed_empty, needs_grade,
  is_declared, is_external,
}

-- What is asked of one verb when it is registered.
unfoldable pub check_entry : Option RevertGrade → String → VerbEntry → Verdict (Unit {0})
check_entry grade verb e = do
  demand (not (is_blank verb)) (incoherent verb_unnamed)
  demand (check_coherent e) (incoherent repeatable_not_idempotent)
  demand (not (needs_grade e.kind && not (is_declared grade))) class_not_declared
  demand (not (contained e && is_external grade)) (incoherent transforming_external)

unfoldable pub collect : Option RevertGrade → List (String × VerbEntry) → Entries → Verdict Entries
unfolding check_entry
collect grade [] m = ok m
collect grade ((verb, e) ∷ vs) m = do
  check_entry grade verb e
  demand (not (contains_key string_discrete verb m)) duplicate_verb
  collect grade vs (put string_discrete verb e m)

unfoldable pub check_degrade : Entries → VerbEntry → Option String → Verdict (Unit {0})
check_degrade entries e none = ok tt
check_degrade entries e (some d) = do
  target ← or_unknown (get string_discrete d entries) degrade_unregistered
  demand (not (more_severe (severity target) (severity e))) (incoherent degrade_widens)

abbrev pub is_none : Option String → Bool
is_none none = true
is_none (some _) = false

unfoldable pub check_compensation : Entries → Option String → Verdict (Unit {0})
check_compensation entries none = ok tt
check_compensation entries (some c) = do
  target ← or_unknown (get string_discrete c entries) compensation_unregistered
  demand (is_none (compensation_verb target)) (incoherent compensation_chain)

unfoldable pub check_links : Entries → Entries → Verdict (Unit {0})
unfolding check_degrade check_compensation
check_links entries [] = ok tt
check_links entries ((_, e) ∷ es) = do
  check_degrade entries e e.degrade
  check_compensation entries (compensation_verb e)
  check_links entries es

abbrev pub names_of : Entries → List String
names_of [] = []
names_of ((v, _) ∷ es) = v ∷ names_of es

unfoldable pub check_protocol : Entries → Option Protocol → Verdict (Unit {0})
check_protocol entries none = ok tt
check_protocol entries (some p) =
    demand (is_subset p.scoped (of_list (names_of entries))) (incoherent protocol_unregistered)

-- Whether the operations of an equation are registered; a summary is refused.
unfoldable pub registered : Entries → Equation → Verdict Bool
registered entries (idempotent operation) = ok (contains_key string_discrete operation entries)
registered entries (commutes left right) =
    ok (contains_key string_discrete left entries && contains_key string_discrete right entries)
registered entries (legacy_commutation_summary _) = err (incoherent law_unscoped)

abbrev pub source_text : EvidenceSource → String
source_text (provider_assertion s) = s
source_text (reviewed_contract s) = s

unfoldable pub check_scoped_law :
    Entries → Equation → EvidenceSource → LawScope → Verdict (Unit {0})
unfolding registered
check_scoped_law entries equation source unspecified = err (incoherent law_unscoped)
check_scoped_law entries equation source (declared parameters observations assumptions) = do
  known ← registered entries equation
  demand known (incoherent law_unregistered)
  demand
      (not (
        is_trimmed_empty parameters
        || is_trimmed_empty observations
        || is_trimmed_empty assumptions))
      (incoherent law_blank)
  demand (not (is_trimmed_empty (source_text source))) (incoherent law_without_source)

unfoldable pub check_laws : Entries → List LawDeclaration → Verdict (Unit {0})
unfolding check_scoped_law
check_laws entries [] = ok tt
check_laws entries (l ∷ ls) = do
  check_scoped_law entries l.equation l.source l.scope
  check_laws entries ls

abbrev pub legacy : Equation → LawDeclaration
legacy equation = record {
  equation = equation;
  scope = unspecified;
  source = provider_assertion "legacy verb metadata";
}

-- The summaries that the flags of the entries give.
unfoldable pub legacy_laws : Entries → List LawDeclaration
legacy_laws [] = []
legacy_laws ((verb, e) ∷ es) =
    (if e.idempotent then legacy (idempotent verb) ∷ [] else [])
    ++ ((if e.commutes then legacy (legacy_commutation_summary verb) ∷ [] else [])
        ++ legacy_laws es)

unfoldable pub check : ClassDeclarationDraft → Verdict CheckedClass
unfolding collect check_links check_protocol check_laws legacy_laws
check d = do
  demand (not (is_blank d.class)) (incoherent class_unnamed)
  entries ← collect d.holding_grade d.verbs []
  check_links entries entries
  check_protocol entries d.protocol
  check_laws entries d.laws
  ok (record {
    class = d.class;
    holding_grade = d.holding_grade;
    entries = entries;
    protocol = d.protocol;
    laws = d.laws ++ legacy_laws entries;
  })
