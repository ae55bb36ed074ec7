-- ===== src/Verbs/Policy.antt =====
-- What a checked class hands to the runtime (`CheckedClass`, `HandlerPolicy`, `VerbTable`,
-- crates/portos-rm/src/verbs.rs).
use portos.Base.{
  ℕ, ◌+◌, ◌==◌, Bool, Option, none, some, [], ◌∷◌, String, string_discrete, length, if◌then◌else◌,
}
use portos.Base.Maps.{Map, get, put, contains_key}
use portos.Base.Sets.{StringSet, insert, empty}
use portos.Ledger.{RevertGrade}
use portos.Protocol.{Protocol, ok, err, ◌>>=◌}
use portos.Verbs.{
  VerbEntry, unknown, class_already_declared, bears_budget, contained, withhold, compensation_verb,
}
use portos.Verbs.Class.{Entries, CheckedClass, Verdict}

pub record HandlerPolicy : Type 0 where
  pub class : String
  pub withhold : StringSet
  pub budget : StringSet
  pub degrade : Map String String
  pub compensations : Map String String
  pub contained : StringSet
  pub protocol : Option Protocol

abbrev pub insert_if : Bool → String → StringSet → StringSet
insert_if b v s = if b then insert v s else s

abbrev pub put_if : Option String → String → Map String String → Map String String
put_if none v m = m
put_if (some w) v m = put string_discrete v w m

-- The loop over the entries.
unfoldable pub note_entries : Entries → HandlerPolicy → HandlerPolicy
note_entries [] p = p
note_entries ((v, e) ∷ es) p = note_entries es (record p {
  withhold = insert_if (withhold e) v p.withhold;
  budget = insert_if (bears_budget e) v p.budget;
  contained = insert_if (contained e) v p.contained;
  degrade = put_if e.degrade v p.degrade;
  compensations = put_if (compensation_verb e) v p.compensations;
})

unfoldable pub handler_policy : CheckedClass → HandlerPolicy
unfolding note_entries
handler_policy c = note_entries c.entries (record {
  class = c.class;
  withhold = empty;
  budget = empty;
  degrade = [];
  compensations = [];
  contained = empty;
  protocol = c.protocol;
})

abbrev pub or_unknown_verb : {A : Type 0} → Option A → Verdict A
or_unknown_verb none = err unknown
or_unknown_verb (some a) = ok a

unfoldable pub lookup_verb : CheckedClass → String → Verdict VerbEntry
lookup_verb c verb = or_unknown_verb (get string_discrete verb c.entries)

-- `VerbTable`.
abbrev pub VerbTable : Type 0
VerbTable = Map String CheckedClass

unfoldable pub insert_class : CheckedClass → VerbTable → Verdict VerbTable
insert_class c t =
    if contains_key string_discrete c.class t
    then err class_already_declared
    else ok (put string_discrete c.class c t)

unfoldable pub class : String → VerbTable → Verdict CheckedClass
class name t = or_unknown_verb (get string_discrete name t)

unfoldable pub lookup : String → String → VerbTable → Verdict VerbEntry
unfolding class lookup_verb
lookup name verb t = do c ← class name t; lookup_verb c verb

unfoldable pub derive_holding_grade : String → VerbTable → Option RevertGrade
derive_holding_grade name t = elim (get string_discrete name t) [
  | none ↦ none
  | some c ↦ c.holding_grade
]

unfoldable pub derive_handler_policy : String → VerbTable → Verdict HandlerPolicy
unfolding class handler_policy
derive_handler_policy name t = do c ← class name t; ok (handler_policy c)

unfoldable pub len : VerbTable → ℕ
len [] = 0
len ((_, c) ∷ t) = length c.entries + len t

unfoldable pub is_empty : VerbTable → Bool
unfolding len
is_empty t = len t == 0
