-- ===== src/Base/Tests.antt =====
-- Boolean tests on native numbers and texts, the conditional, and case splits.
use Prim.Native.Nat.{ℕ, ◌≤◌, compare, Ordering}
use Prim.Native.String.{String}
use mathlib.Core.Path.{◌≡◌, refl, sym}
use mathlib.Core.Logic.{◌↔◌, ◌⊎◌, inl, inr}
use mathlib.Core.Bool.{Bool, true, false}
use mathlib.Core.Option.{Option, none, some}
use native.Mathlib.Omega.{arith}
use text.Mathlib.Text.{◌==◌ as str_eq}
use text.Mathlib.TextEquality.{eq_iff}

abbrev pub ltb : ℕ → ℕ → Bool
ltb a b = elim (compare a b) [ Ordering.lt ↦ true | _ ↦ false ]

abbrev pub leb : ℕ → ℕ → Bool
leb a b = elim (compare a b) [ Ordering.gt ↦ false | _ ↦ true ]

infix 50 ◌==◌
abbrev pub ◌==◌ : ℕ → ℕ → Bool
a == b = elim (compare a b) [ Ordering.eq ↦ true | _ ↦ false ]

infix 1 if◌then◌else◌
abbrev pub if◌then◌else◌ {ℓ} : {A : Type ℓ} → Bool → A → A → A
if true then x else y = x
if false then x else y = y

pub leb→le : (a b : ℕ) → leb a b ≡ true → a ≤ b
leb→le a b h = ground arith

pub le→leb : (a b : ℕ) → a ≤ b → leb a b ≡ true
le→leb a b h = ground arith

pub Bool-cases : (b : Bool) → (b ≡ true) ⊎ (b ≡ false)
Bool-cases true = inl refl
Bool-cases false = inr refl

pub Option-cases {ℓ} : {A : Type ℓ} (o : Option A) → (o ≡ none) ⊎ ((a : A) × (o ≡ some a))
Option-cases none = inl refl
Option-cases (some a) = inr (a, refl)

-- Two Booleans that are true together are equal.
pub Bool-ext : (a b : Bool) → (a ≡ true → b ≡ true) → (b ≡ true → a ≡ true) → a ≡ b
Bool-ext true b f g = cc (f refl)
Bool-ext false true f g = cc (g refl)
Bool-ext false false f g = refl

pub false-of_not : (b : Bool) → (b ≡ true → ⊥) → b ≡ false
false-of_not true h = absurd (h refl)
false-of_not false h = refl

-- A decision as a test, in the order of `if`.
abbrev pub test {ℓ} : {P : Type ℓ} → Dec P → Bool
test (yes _) = true
test (no _) = false

pub test→ {ℓ} : {P : Type ℓ} (d : Dec P) → test d ≡ true → P
test→ (yes p) h = p
test→ (no _) h = cc

pub →test {ℓ} : {P : Type ℓ} (d : Dec P) → P → test d ≡ true
→test (yes _) p = refl
→test (no n) p = absurd (n p)

pub test_comm {ℓ} : {A : Type ℓ} (d : Discrete A) (a b : A) → test (d a b) ≡ test (d b a)
test_comm d a b =
    Bool-ext _ _ (λ h. →test (d b a) (sym (test→ (d a b) h)))
      (λ h. →test (d a b) (sym (test→ (d b a) h)))

dec_of_Bool {ℓ} : {P : Type ℓ} (b : Bool) → ((b ≡ true) ↔ P) → Dec P
dec_of_Bool true e = yes (e.0 refl)
dec_of_Bool false e = no λ p. cc (e.1 p)

-- Equality of texts, as a decision.
unfoldable pub string_discrete : Discrete String
unfolding dec_of_Bool
string_discrete s t = dec_of_Bool (str_eq s t) (eq_iff s t)

-- `String::is_empty`.
abbrev pub is_blank : String → Bool
is_blank String.[] = true
is_blank (String.◌∷◌ _ _) = false
