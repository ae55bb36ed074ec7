-- ===== src/Verbs/Projection.antt =====
-- The sets of a handler's policy (`CheckedClass::handler_policy`, crates/portos-rm/src/verbs.rs)
-- against the entries of its class.
use portos.Base.{
  ◌≡◌, refl, sym, ap, ◌∙◌, subst, ◌↔◌, ◌⊎◌, inl, inr, Bool, true, false, [], ◌∷◌, String,
  string_discrete, In, arith, test, test→, ◌||◌, Bool-cases,
}
use portos.Base.Sets.{
  StringSet, contains, empty, contains-insert, contains-insert_self, not_in_empty,
}
use portos.Base.{◌≢◌, not}
use portos.Base.Maps.{get-In}
use portos.Protocol.{ok}
use portos.Verbs.Checks.{check}
use portos.Verbs.Registration.{collect-In, collect-back}
use portos.Verbs.Coherence.{check-Passes}
use portos.Verbs.{
  Kind, EmitGrade, is_repeatable, is_transforming, withheld_kind, VerbEntry, bears_budget,
  contained, withhold,
}
use portos.Verbs.Class.{ClassDeclarationDraft, Entries, CheckedClass}
use portos.Verbs.Policy.{HandlerPolicy, insert_if, note_entries, handler_policy}

-- The verbs whose entries pass a test, beside those of a set.
marked : (VerbEntry → Bool) → Entries → StringSet → StringSet
marked f [] s = s
marked f ((v, e) ∷ es) s = marked f es (insert_if (f e) v s)

-- A verb has an entry that passes the test.
abbrev pub Marks : (VerbEntry → Bool) → Entries → String → Type 0
Marks f es v = (e : VerbEntry) × In (v, e) es × (f e ≡ true)

insert_if-keeps :
    (b : Bool) (v w : String) (s : StringSet)
    → contains w s ≡ true
    → contains w (insert_if b v s) ≡ true
insert_if-keeps true v w s h = contains-insert w v s ∙ rw h (ground arith)
insert_if-keeps false v w s h = h

insert_if-cases :
    (b : Bool) (v w : String) (s : StringSet)
    → contains w (insert_if b v s) ≡ true
    → ((b ≡ true) × (w ≡ v)) ⊎ (contains w s ≡ true)
insert_if-cases false v w s h = inr h
insert_if-cases true v w s h = elim (Bool-cases (test (string_discrete w v))) [
  | inl t ↦ inl (refl, test→ (string_discrete w v) t)
  | inr f ↦ inr (
      let e : (test (string_discrete w v) || contains w s) ≡ true =
        sym (contains-insert w v s) ∙ h in
      ground arith)
]

marked-keeps :
    (f : VerbEntry → Bool) (es : Entries) (s : StringSet) (w : String)
    → contains w s ≡ true
    → contains w (marked f es s) ≡ true
unfolding marked
marked-keeps f [] s w h = h
marked-keeps f ((v, e) ∷ es) s w h =
    marked-keeps f es (insert_if (f e) v s) w (insert_if-keeps (f e) v w s h)

marked-has :
    (f : VerbEntry → Bool) (es : Entries) (s : StringSet) (w : String)
    → Marks f es w
    → contains w (marked f es s) ≡ true
unfolding marked
marked-has f [] s w (e, i, t) = elim i [ ]
marked-has f ((v, x) ∷ es) s w (e, In.here q, t) = marked-keeps f es (insert_if (f x) v s) w (
    subst (λ (p : String × VerbEntry). contains w (insert_if (f p.1) p.0 s) ≡ true) q
      (rw t (contains-insert_self w s)))
marked-has f ((v, x) ∷ es) s w (e, In.there i, t) =
    marked-has f es (insert_if (f x) v s) w (e, i, t)

marked-only :
    (f : VerbEntry → Bool) (es : Entries) (s : StringSet) (w : String)
    → contains w (marked f es s) ≡ true
    → Marks f es w ⊎ (contains w s ≡ true)
unfolding marked
marked-only f [] s w h = inr h
marked-only f ((v, x) ∷ es) s w h = elim (marked-only f es (insert_if (f x) v s) w h) [
  | inl (e, i, t) ↦ inl (e, In.there i, t)
  | inr m ↦ elim (insert_if-cases (f x) v w s m) [
    | inl (t, q) ↦ inl (x, In.here (ap (λ u. (u, x)) q), t)
    | inr m' ↦ inr m'
  ]
]

note-marked :
    (es : Entries) (p : HandlerPolicy)
    → ((note_entries es p).withhold ≡ marked withhold es p.withhold)
      × ((note_entries es p).budget ≡ marked bears_budget es p.budget)
      × ((note_entries es p).contained ≡ marked contained es p.contained)
unfolding note_entries marked
note-marked [] p = (refl, refl, refl)
note-marked ((v, e) ∷ es) p = note-marked es _

marked_iff :
    (f : VerbEntry → Bool) (es : Entries) (t : StringSet) (w : String)
    → t ≡ marked f es empty
    → (contains w t ≡ true) ↔ Marks f es w
marked_iff f es t w q = (
  λ h. elim (marked-only f es empty w (subst (λ u. contains w u ≡ true) q h)) [
    | inl m ↦ m
    | inr m ↦ absurd (not_in_empty w m)
  ],
  λ m. subst (λ u. contains w u ≡ true) (sym q) (marked-has f es empty w m),
)

-- A verb that emits under a consent that covers one emission, one that changes the world, and one that
-- changes a holding within the boundary.
abbrev pub IsOneByOne : VerbEntry → Type 0
IsOneByOne e = (world : EmitGrade) × (e.kind ≡ Kind.emitting world false)

abbrev pub ChangesWorld : VerbEntry → Type 0
ChangesWorld e = e.kind ≢ Kind.repeatable

abbrev pub ChangesHolding : VerbEntry → Type 0
ChangesHolding e = e.kind ≡ Kind.transforming

withhold_iff : (e : VerbEntry) → (withhold e ≡ true) ↔ IsOneByOne e
unfolding withhold
withhold_iff e = by_kind e.kind
  where
    by_kind :
        (k : Kind)
        → (withheld_kind k ≡ true) ↔ ((world : EmitGrade) × (k ≡ Kind.emitting world false))
    by_kind Kind.repeatable = (λ h. cc, λ (w, q). cc)
    by_kind Kind.transforming = (λ h. cc, λ (w, q). cc)
    by_kind (Kind.consuming g) = (λ h. cc, λ (w, q). cc)
    by_kind (Kind.emitting g true) = (λ h. cc, λ (w, q). cc)
    by_kind (Kind.emitting g false) = (λ h. (g, refl), λ _. refl)

bears_budget_iff : (e : VerbEntry) → (bears_budget e ≡ true) ↔ ChangesWorld e
unfolding bears_budget
bears_budget_iff e = by_kind e.kind
  where
    by_kind : (k : Kind) → (not (is_repeatable k) ≡ true) ↔ (k ≢ Kind.repeatable)
    by_kind Kind.repeatable = (λ h. cc, λ n. absurd (n refl))
    by_kind Kind.transforming = (λ h q. cc, λ _. refl)
    by_kind (Kind.consuming g) = (λ h q. cc, λ _. refl)
    by_kind (Kind.emitting g b) = (λ h q. cc, λ _. refl)

contained_iff : (e : VerbEntry) → (contained e ≡ true) ↔ ChangesHolding e
unfolding contained
contained_iff e = by_kind e.kind
  where
    by_kind : (k : Kind) → (is_transforming k ≡ true) ↔ (k ≡ Kind.transforming)
    by_kind Kind.repeatable = (λ h. cc, λ q. cc)
    by_kind Kind.transforming = (λ h. refl, λ _. refl)
    by_kind (Kind.consuming g) = (λ h. cc, λ q. cc)
    by_kind (Kind.emitting g b) = (λ h. cc, λ q. cc)

-- A declaration has the verb with an entry of a kind.
abbrev pub Declares : (VerbEntry → Type 0) → ClassDeclarationDraft → String → Type 0
Declares P d v = (e : VerbEntry) × In (v, e) d.verbs × P e

Marks-Declares :
    (f : VerbEntry → Bool) (P : VerbEntry → Type 0) (d : ClassDeclarationDraft) (c : CheckedClass)
    (v : String)
    → ((e : VerbEntry) → (f e ≡ true) ↔ P e)
    → check d ≡ ok c
    → Marks f c.entries v ↔ Declares P d v
Marks-Declares f P d c v iff h =
    let collected = (check-Passes d c h).collected in
    (
      λ (e, i, t). (e, collect-back d.holding_grade d.verbs c.entries v e collected i, (iff e).0 t),
      λ (e, i, p). (
        e,
        get-In string_discrete v c.entries
            (collect-In d.holding_grade d.verbs [] c.entries v e collected i),
        (iff e).1 p,
      ),
    )

both : {A B C : Type 0} → A ↔ B → B ↔ C → A ↔ C
both f g = (λ a. g.0 (f.0 a), λ c. f.1 (g.1 c))

-- The policy of a class that passes the check withholds exactly the verbs that are declared to emit
-- under a consent for one emission, budgets exactly those declared as anything but repeatable, and
-- contains exactly those declared to transform.
pub handler_policy-Declares :
    (d : ClassDeclarationDraft) (c : CheckedClass) (v : String)
    → check d ≡ ok c
    → ((contains v (handler_policy c).withhold ≡ true) ↔ Declares IsOneByOne d v)
      × ((contains v (handler_policy c).budget ≡ true) ↔ Declares ChangesWorld d v)
      × ((contains v (handler_policy c).contained ≡ true) ↔ Declares ChangesHolding d v)
unfolding handler_policy
handler_policy-Declares d c v h =
    let (w, b, k) = note-marked c.entries _ in
    (
      both (marked_iff withhold c.entries _ v w)
          (Marks-Declares withhold IsOneByOne d c v withhold_iff h),
      both (marked_iff bears_budget c.entries _ v b)
          (Marks-Declares bears_budget ChangesWorld d c v bears_budget_iff h),
      both (marked_iff contained c.entries _ v k)
          (Marks-Declares contained ChangesHolding d c v contained_iff h),
    )
