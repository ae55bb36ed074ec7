-- ===== src/Verbs/Registration.antt =====
-- The loop over the verbs of a declaration (`ClassDeclarationDraft::check`,
-- crates/portos-rm/src/verbs.rs) registers each of them.
use portos.Base.{
  ◌≡◌, ◌≢◌, ◌⊎◌, refl, sym, ◌∙◌, subst, Bool, true, false, not, ◌&&◌, Option, none, some, List, [],
  ◌∷◌, String, string_discrete, is_blank, All, In, test, Option-cases, inl, inr, if◌then◌else◌,
}
use portos.Base.Maps.{get, put, contains_key, get-put_self, get-put_ne}
use portos.Ledger.{RevertGrade}
use portos.Protocol.{ok, err, ◌>>=◌}
use portos.Verbs.{VerbEntry, VerbError, check_coherent, contained, Incoherence}
use portos.Verbs.Class.{
  Entries, Verdict, demand, ◌>>◌, or_unknown, needs_grade, is_declared, is_external,
}
use portos.Verbs.Checks.{check_entry, collect}

pub >>=-eq-ok :
    {A B : Type 0} (m : Verdict A) (f : A → Verdict B) {b : B}
    → (m >>= f) ≡ ok b
    → (a : A) × (m ≡ ok a) × (f a ≡ ok b)
>>=-eq-ok (err e) f h = cc
>>=-eq-ok (ok a) f h = (a, refl, h)

pub demand-ok :
    {B : Type 0} (t : Bool) (e : VerbError) (k : Verdict B) {b : B}
    → (demand t e >> k) ≡ ok b
    → (t ≡ true) × (k ≡ ok b)
demand-ok true e k h = (refl, h)
demand-ok false e k h = cc

pub demand_last : (t : Bool) (e : VerbError) {u : Unit {0}} → demand t e ≡ ok u → t ≡ true
demand_last true e h = refl
demand_last false e h = cc

pub or_unknown-ok :
    {A B : Type 0} (o : Option A) (why : Incoherence) (f : A → Verdict B) {b : B}
    → (or_unknown o why >>= f) ≡ ok b
    → (a : A) × (o ≡ some a) × (f a ≡ ok b)
or_unknown-ok none why f h = cc
or_unknown-ok (some a) why f h = (a, refl, h)

pub ok-injective : {A : Type 0} {a b : A} → ◌≡◌ {A = Verdict A} (ok a) (ok b) → a ≡ b
ok-injective e = cc

-- What the check asks of each verb by itself.
pub record IsSound (grade : Option RevertGrade) (p : String × VerbEntry) : Type 0 where
  pub named : is_blank p.0 ≡ false
  pub replayable : check_coherent p.1 ≡ true
  pub recoverable : (needs_grade p.1.kind && not (is_declared grade)) ≡ false
  pub enclosed : (contained p.1 && is_external grade) ≡ false

pub not-true : (b : Bool) → not b ≡ true → b ≡ false
not-true true h = cc
not-true false h = refl

check_entry-IsSound :
    (grade : Option RevertGrade) (v : String) (e : VerbEntry) {u : Unit {0}}
    → check_entry grade v e ≡ ok u
    → IsSound grade (v, e)
unfolding check_entry
check_entry-IsSound grade v e h =
    let (a, h1) = demand-ok (not (is_blank v)) _ _ h in
    let (b, h2) = demand-ok (check_coherent e) _ _ h1 in
    let (c, h3) = demand-ok (not (needs_grade e.kind && not (is_declared grade))) _ _ h2 in
    let d = demand_last (not (contained e && is_external grade)) _ h3 in
    record {
      named = not-true _ a;
      replayable = b;
      recoverable = not-true _ c;
      enclosed = not-true _ d;
    }

All-put :
    (P : String × VerbEntry → Type 0) (k : String) (e : VerbEntry) (m : Entries)
    → All P m
    → P (k, e)
    → All P (put string_discrete k e m)
unfolding put
All-put P k e [] h p = (p, tt)
All-put P k e ((j, w) ∷ m) h p =
    elim (string_discrete k j)
      as (λ d. All P (if test d then (k, e) ∷ m else (j, w) ∷ put string_discrete k e m)) [
        | yes _ ↦ (p, h.1)
        | no _ ↦ (h.0, All-put P k e m h.1 p)
      ]

-- One round of the loop over the verbs.
collect-cons :
    (grade : Option RevertGrade) (v : String) (e : VerbEntry) (vs : List (String × VerbEntry))
    (m m' : Entries)
    → collect grade ((v, e) ∷ vs) m ≡ ok m'
    → IsSound grade (v, e)
      × (contains_key string_discrete v m ≡ false)
      × (collect grade vs (put string_discrete v e m) ≡ ok m')
unfolding collect
collect-cons grade v e vs m m' h =
    let (u, a, h1) = >>=-eq-ok (check_entry grade v e) _ h in
    let (b, h2) = demand-ok (not (contains_key string_discrete v m)) _ _ h1 in
    (check_entry-IsSound grade v e a, not-true _ b, h2)

pub collect-All :
    (grade : Option RevertGrade) (vs : List (String × VerbEntry)) (m m' : Entries)
    → collect grade vs m ≡ ok m'
    → All (IsSound grade) m
    → All (IsSound grade) m'
unfolding collect
collect-All grade [] m m' h a = subst (All (IsSound grade)) (ok-injective h) a
collect-All grade ((v, e) ∷ vs) m m' h a =
    let (s, n, h1) = collect-cons grade v e vs m m' h in
    collect-All grade vs (put string_discrete v e m) m' h1 (All-put (IsSound grade) v e m a s)

pub none-ne-some {ℓ} : {A : Type ℓ} {o : Option A} {a : A} → o ≡ none → o ≡ some a → ⊥
none-ne-some p q = cc

absent-get :
    (v : String) (m : Entries)
    → contains_key string_discrete v m ≡ false
    → get string_discrete v m ≡ none
unfolding contains_key
absent-get v m h = elim (Option-cases (get string_discrete v m)) [
  | inl n ↦ n
  | inr (e, p) ↦ let bad : true ≡ false = rw (p, contains_key) at h in cc
]

collect-get :
    (grade : Option RevertGrade) (vs : List (String × VerbEntry)) (m m' : Entries) (w : String)
    (x : VerbEntry)
    → collect grade vs m ≡ ok m'
    → get string_discrete w m ≡ some x
    → get string_discrete w m' ≡ some x
unfolding collect
collect-get grade [] m m' w x h g = subst (λ m. get string_discrete w m ≡ some x) (ok-injective h) g
collect-get grade ((v, e) ∷ vs) m m' w x h g =
    let (s, n, h1) = collect-cons grade v e vs m m' h in
    let other : w ≢ v =
      λ q. none-ne-some (absent-get v m n) (subst (λ u. get string_discrete u m ≡ some x) q g) in
    collect-get grade vs (put string_discrete v e m) m' w x h1
      (get-put_ne string_discrete w v e m other ∙ g)

pub collect-In :
    (grade : Option RevertGrade) (vs : List (String × VerbEntry)) (m m' : Entries) (w : String)
    (x : VerbEntry)
    → collect grade vs m ≡ ok m'
    → In (w, x) vs
    → get string_discrete w m' ≡ some x
collect-In grade [] m m' w x h i = elim i [ ]
collect-In grade ((v, e) ∷ vs) m m' w x h (In.here q) =
    let (s, n, h1) = collect-cons grade v e vs m m' h in
    collect-get grade vs (put string_discrete v e m) m' w x h1 (
      subst
        (λ (p : String × VerbEntry). get string_discrete p.0 (put string_discrete v e m) ≡ some p.1)
        (sym q) (get-put_self string_discrete v e m))
collect-In grade ((v, e) ∷ vs) m m' w x h (In.there i) =
    let (s, n, h1) = collect-cons grade v e vs m m' h in
    collect-In grade vs (put string_discrete v e m) m' w x h1 i

In-put :
    (k : String) (e : VerbEntry) (p : String × VerbEntry) (m : Entries)
    → In p (put string_discrete k e m)
    → (p ≡ (k, e)) ⊎ In p m
unfolding put
In-put k e p [] (In.here q) = inl q
In-put k e p [] (In.there i) = elim i [ ]
In-put k e p ((j, w) ∷ m) i =
    elim (string_discrete k j)
        as (λ d.
          In p (if test d then (k, e) ∷ m else (j, w) ∷ put string_discrete k e m)
          → (p ≡ (k, e)) ⊎ In p ((j, w) ∷ m)) [
            | yes _ ↦ λ i. elim i [ In.here q ↦ inl q | In.there h ↦ inr (In.there h) ]
            | no _ ↦ λ i. elim i [
              | In.here q ↦ inr (In.here q)
              | In.there h ↦ elim (In-put k e p m h) [ inl q ↦ inl q | inr g ↦ inr (In.there g) ]
            ]
          ]
      i

collect-from :
    (grade : Option RevertGrade) (vs : List (String × VerbEntry)) (m m' : Entries) (w : String)
    (x : VerbEntry)
    → collect grade vs m ≡ ok m'
    → In (w, x) m'
    → In (w, x) m ⊎ In (w, x) vs
unfolding collect
collect-from grade [] m m' w x h i = inl (subst (In (w, x)) (sym (ok-injective h)) i)
collect-from grade ((v, e) ∷ vs) m m' w x h i =
    let (s, n, h1) = collect-cons grade v e vs m m' h in
    elim (collect-from grade vs (put string_discrete v e m) m' w x h1 i) [
      | inr later ↦ inr (In.there later)
      | inl old ↦ elim (In-put v e (w, x) m old) [
        | inl q ↦ inr (In.here q)
        | inr before ↦ inl before
      ]
    ]

-- What is registered was declared.
pub collect-back :
    (grade : Option RevertGrade) (vs : List (String × VerbEntry)) (m' : Entries) (w : String)
    (x : VerbEntry)
    → collect grade vs [] ≡ ok m'
    → In (w, x) m'
    → In (w, x) vs
collect-back grade vs m' w x h i = elim (collect-from grade vs [] m' w x h i) [
  | inl none_there ↦ elim none_there [ ]
  | inr declared ↦ declared
]
