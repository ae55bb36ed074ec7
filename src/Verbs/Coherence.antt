-- ===== src/Verbs/Coherence.antt =====
-- A class that passes its check (`ClassDeclarationDraft::check`, crates/portos-rm/src/verbs.rs) is
-- coherent, and has every verb that was declared.
use portos.Base.{
  ◌≡◌, ◌≢◌, refl, sym, ◌∙◌, subst, Bool, true, false, not, ◌&&◌, Option, none, some, [], ◌∷◌,
  String, string_discrete, is_blank, All, All-In, In, arith, test, ◌||◌, if◌then◌else◌,
}
use portos.Base.Maps.{get, get-In}
use portos.Base.Sets.{contains, of_list, is_subset, has, is_subset_iff, contains-of_list}
use portos.Ledger.{RevertGrade}
use portos.Protocol.{Protocol, ok}
use portos.Verbs.{
  Kind, VerbEntry, check_coherent, is_repeatable, contained, compensation_verb, severity,
  more_severe,
}
use portos.Verbs.Class.{
  ClassDeclarationDraft, Entries, CheckedClass, needs_grade, is_declared, is_external,
}
use portos.Verbs.Checks.{
  collect, check_degrade, is_none, check_compensation, check_links, names_of, check_protocol,
  check_laws, check,
}
use portos.Verbs.Registration.{
  >>=-eq-ok, demand-ok, demand_last, or_unknown-ok, ok-injective, not-true, IsSound, collect-All,
  collect-In,
}

-- The verbs that an entry refers to are entries of its class: what it may be degraded to is not more
-- severe, and what compensates it needs no compensation.
pub record IsLinked (entries : Entries) (e : VerbEntry) : Type 0 where
  pub narrows :
      (d : String)
      → e.degrade ≡ some d
      → (t : VerbEntry) × (get string_discrete d entries ≡ some t)
        × (more_severe (severity t) (severity e) ≡ false)
  pub compensates :
      (c : String)
      → compensation_verb e ≡ some c
      → (t : VerbEntry) × (get string_discrete c entries ≡ some t) × (compensation_verb t ≡ none)

some_same {ℓ} : {A : Type ℓ} {a b : A} → some a ≡ some b → a ≡ b
some_same e = cc

degrade-narrows :
    (entries : Entries) (e : VerbEntry) (o : Option String) {u : Unit {0}}
    → check_degrade entries e o ≡ ok u
    → (d : String) → o ≡ some d
    → (t : VerbEntry) × (get string_discrete d entries ≡ some t)
      × (more_severe (severity t) (severity e) ≡ false)
unfolding check_degrade
degrade-narrows entries e none h d q = cc
degrade-narrows entries e (some x) h d q =
    let (t, p, h1) = or_unknown-ok (get string_discrete x entries) _ _ h in
    (
      t,
      subst (λ y. get string_discrete y entries ≡ some t) (some_same q) p,
      not-true _ (demand_last (not (more_severe (severity t) (severity e))) _ h1),
    )

is_none-none : (o : Option String) → is_none o ≡ true → o ≡ none
is_none-none none h = refl
is_none-none (some x) h = cc

compensation-ends :
    (entries : Entries) (o : Option String) {u : Unit {0}}
    → check_compensation entries o ≡ ok u
    → (c : String) → o ≡ some c
    → (t : VerbEntry) × (get string_discrete c entries ≡ some t) × (compensation_verb t ≡ none)
unfolding check_compensation
compensation-ends entries none h c q = cc
compensation-ends entries (some x) h c q =
    let (t, p, h1) = or_unknown-ok (get string_discrete x entries) _ _ h in
    (
      t,
      subst (λ y. get string_discrete y entries ≡ some t) (some_same q) p,
      is_none-none (compensation_verb t) (demand_last (is_none (compensation_verb t)) _ h1),
    )

check_links-All :
    (entries es : Entries) {u : Unit {0}}
    → check_links entries es ≡ ok u
    → All (λ (p : String × VerbEntry). IsLinked entries p.1) es
unfolding check_links
check_links-All entries [] h = tt
check_links-All entries ((v, e) ∷ es) h =
    let (u1, a, h1) = >>=-eq-ok (check_degrade entries e e.degrade) _ h in
    let (u2, b, h2) = >>=-eq-ok (check_compensation entries (compensation_verb e)) _ h1 in
    (
      record {
        narrows = degrade-narrows entries e e.degrade a;
        compensates = compensation-ends entries (compensation_verb e) b;
      },
      check_links-All entries es h2,
    )

names-get :
    (v : String) (es : Entries)
    → has v (names_of es) ≡ true
    → (e : VerbEntry) × (get string_discrete v es ≡ some e)
unfolding get
names-get v [] h = cc
names-get v ((w, e) ∷ es) h =
    elim (string_discrete v w)
        as (λ t.
          (test t || has v (names_of es)) ≡ true
          → (x : VerbEntry) × ((if test t then some e else get string_discrete v es) ≡ some x)) [
            | yes _ ↦ λ _. (e, refl)
            | no _ ↦ λ q. names-get v es q
          ]
      h

-- The parts of a check that passes.
pub record Passes (d : ClassDeclarationDraft) (c : CheckedClass) : Type 0 where
  pub collected : collect d.holding_grade d.verbs [] ≡ ok c.entries
  linked : check_links c.entries c.entries ≡ ok tt
  protocol : check_protocol c.entries c.protocol ≡ ok tt
  grade : d.holding_grade ≡ c.holding_grade

pub check-Passes : (d : ClassDeclarationDraft) (c : CheckedClass) → check d ≡ ok c → Passes d c
unfolding check
check-Passes d c h =
    let (a, h1) = demand-ok (not (is_blank d.class)) _ _ h in
    let (m, p, h2) = >>=-eq-ok (collect d.holding_grade d.verbs []) _ h1 in
    let (u1, q, h3) = >>=-eq-ok (check_links m m) _ h2 in
    let (u2, r, h4) = >>=-eq-ok (check_protocol m d.protocol) _ h3 in
    let (u3, s, h5) = >>=-eq-ok (check_laws m d.laws) _ h4 in
    let same = ok-injective h5 in
    subst (Passes d) same (record { collected = p; linked = q; protocol = r; grade = refl })

-- A verb that is not blank has an entry; one that may be repeated is idempotent; the class says how to
-- recover what the verb leaves, and not that this is left to the outside for what it contains; and
-- what the entry refers to is linked.
pub record IsCoherent (c : CheckedClass) (v : String) (e : VerbEntry) : Type 0 where
  pub named : is_blank v ≡ false
  pub replayable : e.kind ≡ Kind.repeatable → e.idempotent ≡ true
  pub recoverable : needs_grade e.kind ≡ true → (g : RevertGrade) × (c.holding_grade ≡ some g)
  pub enclosed : contained e ≡ true → c.holding_grade ≢ some RevertGrade.external
  pub linked : IsLinked c.entries e

repeatable_is_idempotent :
    (e : VerbEntry) → check_coherent e ≡ true → e.kind ≡ Kind.repeatable → e.idempotent ≡ true
unfolding check_coherent
repeatable_is_idempotent e h k =
    let h1 : not (not e.idempotent) ≡ true =
      subst (λ x. not (is_repeatable x && not e.idempotent) ≡ true) k h in
    ground arith

grade_is_declared :
    (b : Bool) (o : Option RevertGrade)
    → (b && not (is_declared o)) ≡ false
    → b ≡ true
    → (g : RevertGrade) × (o ≡ some g)
grade_is_declared b none h k = cc
grade_is_declared b (some g) h k = (g, refl)

not_left_outside :
    (b : Bool) (o : Option RevertGrade)
    → (b && is_external o) ≡ false
    → b ≡ true
    → o ≢ some RevertGrade.external
not_left_outside b o h k q =
    let h1 : (true && true) ≡ false =
      subst (λ x. (x && true) ≡ false) k (subst (λ x. (b && is_external x) ≡ false) q h) in
    cc

-- Every entry of a class that passes the check is coherent.
pub check-IsCoherent :
    (d : ClassDeclarationDraft) (c : CheckedClass) (v : String) (e : VerbEntry)
    → check d ≡ ok c
    → get string_discrete v c.entries ≡ some e
    → IsCoherent c v e
check-IsCoherent d c v e h g =
    let p = check-Passes d c h in
    let i = get-In string_discrete v c.entries g in
    let s =
      All-In (IsSound d.holding_grade) (v, e) i
        (collect-All d.holding_grade d.verbs [] c.entries p.collected tt) in
    let l =
      All-In (λ (x : String × VerbEntry). IsLinked c.entries x.1) (v, e) i
        (check_links-All c.entries c.entries p.linked) in
    record {
      named = s.named;
      replayable = repeatable_is_idempotent e s.replayable;
      recoverable =
          subst (λ o. needs_grade e.kind ≡ true → (g : RevertGrade) × (o ≡ some g)) p.grade
            (grade_is_declared (needs_grade e.kind) d.holding_grade s.recoverable);
      enclosed =
          subst (λ o. contained e ≡ true → o ≢ some RevertGrade.external) p.grade
            (not_left_outside (contained e) d.holding_grade s.enclosed);
      linked = l;
    }

-- A class that passes the check has every verb that was declared, with its entry.
pub check-registers :
    (d : ClassDeclarationDraft) (c : CheckedClass) (v : String) (e : VerbEntry)
    → check d ≡ ok c
    → In (v, e) d.verbs
    → get string_discrete v c.entries ≡ some e
check-registers d c v e h i =
    collect-In d.holding_grade d.verbs [] c.entries v e (check-Passes d c h).collected i

-- Every verb in the scope of the protocol of a class that passes the check is one of its verbs.
pub check-covers_protocol :
    (d : ClassDeclarationDraft) (c : CheckedClass) (p : Protocol) (v : String)
    → check d ≡ ok c
    → c.protocol ≡ some p
    → contains v p.scoped ≡ true
    → (e : VerbEntry) × (get string_discrete v c.entries ≡ some e)
unfolding check_protocol
check-covers_protocol d c p v h q m =
    let passed : check_protocol c.entries (some p) ≡ ok tt =
      subst (λ o. check_protocol c.entries o ≡ ok tt) q (check-Passes d c h).protocol in
    let below =
      (is_subset_iff p.scoped (of_list (names_of c.entries))).0
        (demand_last (is_subset p.scoped (of_list (names_of c.entries))) _ passed) in
    names-get v c.entries (sym (contains-of_list v (names_of c.entries)) ∙ below v m)
