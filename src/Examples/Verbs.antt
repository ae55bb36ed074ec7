-- ===== src/Examples/Verbs.antt =====
-- The check of a concrete class of verbs.
use portos.Base.{◌≡◌, ◌↔◌, refl, true, false, none, some, [], ◌∷◌, String, string_discrete}
use portos.Base.Maps.{get, put, contains_key}
use portos.Base.Sets.{contains, of_list, is_subset, all_in}
use portos.Ledger.{RevertGrade}
use portos.Protocol.{Protocol, ok, err}
use portos.Verbs.{
  Kind, held, EmitGrade, VerbEntry, incoherent, degrade_widens, check_coherent, contained,
  compensation_verb, severity, more_severe,
}
use portos.Verbs.Class.{ClassDeclarationDraft, CheckedClass, needs_grade}
use portos.Verbs.Checks.{check}
use portos.Verbs.Policy.{handler_policy}
use portos.Verbs.Coherence.{IsCoherent, check-IsCoherent, check-covers_protocol}
use portos.Verbs.Narrowing.{Degrades, stays, degrades, degraded_is_not_more_severe}
use portos.Verbs.Projection.{
  IsOneByOne, ChangesWorld, ChangesHolding, Declares, handler_policy-Declares,
}

abbrev open_file : VerbEntry
open_file = record {
  kind = Kind.consuming held;
  idempotent = false;
  commutes = false;
  degrade = none;
}

abbrev trash : VerbEntry
trash = record {
  kind = Kind.emitting (EmitGrade.compensable "restore") true;
  idempotent = false;
  commutes = false;
  degrade = none;
}

abbrev restore : VerbEntry
restore = record {
  kind = Kind.emitting EmitGrade.external true;
  idempotent = false;
  commutes = false;
  degrade = none;
}

abbrev delete : VerbEntry
delete = record {
  kind = Kind.emitting EmitGrade.external false;
  idempotent = false;
  commutes = false;
  degrade = some "trash";
}

abbrev opens_first : Protocol
opens_first = record { initial = "shut"; transitions = []; scoped = of_list ("open" ∷ []) }

abbrev files : ClassDeclarationDraft
files = record {
  class = "file";
  holding_grade = some RevertGrade.inverse;
  verbs = ("open", open_file) ∷ ("trash", trash) ∷ ("restore", restore) ∷ ("delete", delete) ∷ [];
  protocol = some opens_first;
  laws = [];
}

abbrev checked_files : CheckedClass
checked_files = record {
  class = "file";
  holding_grade = some RevertGrade.inverse;
  entries = ("open", open_file) ∷ ("trash", trash) ∷ ("restore", restore) ∷ ("delete", delete) ∷ [];
  protocol = some opens_first;
  laws = [];
}

files_pass : check files ≡ ok checked_files
unfolding check check_coherent needs_grade contained compensation_verb severity more_severe get put
    contains_key string_discrete is_subset all_in contains
files_pass = refl

-- A degradation that widens is refused.
widened_is_refused :
    check (record files {
      verbs =
          ("open", open_file)
          ∷ ("trash", record trash { degrade = some "delete" })
          ∷ ("restore", restore)
          ∷ ("delete", delete)
          ∷ [];
    })
    ≡ err (incoherent degrade_widens)
unfolding check check_coherent needs_grade contained compensation_verb severity more_severe get put
    contains_key string_discrete is_subset all_in contains
widened_is_refused = refl

delete_is_registered : get string_discrete "delete" checked_files.entries ≡ some delete
unfolding get string_discrete
delete_is_registered = refl

check-IsCoherent_example : IsCoherent checked_files "delete" delete
check-IsCoherent_example =
    check-IsCoherent files checked_files "delete" delete files_pass delete_is_registered

open_is_scoped : contains "open" opens_first.scoped ≡ true
unfolding contains string_discrete
open_is_scoped = refl

check-covers_protocol_example :
    (e : VerbEntry) × (get string_discrete "open" checked_files.entries ≡ some e)
check-covers_protocol_example =
    check-covers_protocol files checked_files opens_first "open" files_pass refl open_is_scoped

delete-Degrades : Degrades checked_files.entries delete trash
unfolding get string_discrete
delete-Degrades = degrades "trash" refl refl stays

degraded_is_not_more_severe_example :
    (w : String) × (get string_discrete w checked_files.entries ≡ some trash)
    × (more_severe (severity trash) (severity delete) ≡ false)
degraded_is_not_more_severe_example =
    degraded_is_not_more_severe files checked_files "delete" delete trash files_pass
      delete_is_registered delete-Degrades

handler_policy-Declares_example :
    ((contains "delete" (handler_policy checked_files).withhold ≡ true)
      ↔ Declares IsOneByOne files "delete")
    × ((contains "delete" (handler_policy checked_files).budget ≡ true)
        ↔ Declares ChangesWorld files "delete")
    × ((contains "delete" (handler_policy checked_files).contained ≡ true)
        ↔ Declares ChangesHolding files "delete")
handler_policy-Declares_example = handler_policy-Declares files checked_files "delete" files_pass
