-- ===== src/Proto/Cap.antt =====
-- Capabilities and their attenuation (`Capability`, crates/portos-proto/src/cap.rs).
use portos.Base.{
  Option-cases, ◌⊎◌, inl, inr, ℕ, ◌≤◌, ◌≡◌, refl, sym, subst, ap, Bool, true, false, Option, none,
  some, List, [], ◌∷◌, String, arith, string_discrete, leb, if◌then◌else◌, all, In,
}
use portos.Base.Maps.{Map, get, get-In}
use portos.Base.Sets.{StringSet, contains, is_subset, Below, is_subset_iff}

pub record Constraints : Type 0 where
  pub expires_at : Option ℕ
  pub counts : Map String ℕ

pub record Capability : Type 0 where
  pub cap_id : String
  pub subject : String
  pub resource : String
  pub verbs : StringSet
  pub constraints : Constraints
  pub parent : Option String
  pub revoked : Bool

-- One entry of the child's counts against the parent's.
unfoldable pub count_narrows : Capability → String × ℕ → Bool
count_narrows parent (v, n) = narrows (get string_discrete v parent.constraints.counts)
  where
    narrows : Option ℕ → Bool
    narrows none = contains v parent.verbs
    narrows (some pn) = leb n pn

unfoldable pub expiry_narrows : Option ℕ → Option ℕ → Bool
expiry_narrows c none = true
expiry_narrows (some c) (some p) = leb c p
expiry_narrows none (some p) = false

-- `Capability::is_valid_attenuation_of`.
unfoldable pub is_valid_attenuation_of : Capability → Capability → Bool
is_valid_attenuation_of child parent =
    if is_subset child.verbs parent.verbs
    then if all (count_narrows parent) child.constraints.counts
      then expiry_narrows child.constraints.expires_at parent.constraints.expires_at
      else false
    else false

all-In {ℓ} :
    {A : Type ℓ} (p : A → Bool) (x : A) (xs : List A) → all p xs ≡ true → In x xs → p x ≡ true
all-In p x [] h m = elim m [ ]
all-In p x (y ∷ ys) h (In.here e) = subst (λ z. p z ≡ true) (sym e) (ground arith)
all-In p x (y ∷ ys) h (In.there m) = all-In p x ys (ground arith) m

expiry_refl : (e : Option ℕ) → expiry_narrows e e ≡ true
unfolding expiry_narrows
expiry_refl none = refl
expiry_refl (some x) = ground arith

expiry-bounds :
    (c p : Option ℕ)
    → expiry_narrows c p ≡ true
    → (t : ℕ) → p ≡ some t
    → (x : ℕ) × (c ≡ some x) × (x ≤ t)
unfolding expiry_narrows
expiry-bounds c none h t e = cc
expiry-bounds (some x) (some p) h t e = (x, refl, ground arith)
expiry-bounds none (some p) h t e = cc

-- An accepted attenuation has no verb that its parent lacks.
pub attenuation-verbs :
    (child parent : Capability) (v : String)
    → is_valid_attenuation_of child parent ≡ true
    → contains v child.verbs ≡ true
    → contains v parent.verbs ≡ true
unfolding is_valid_attenuation_of
attenuation-verbs child parent v h m = (is_subset_iff child.verbs parent.verbs).0 (ground arith) v m

-- A verb that an accepted attenuation counts has at most the count of the parent, or the parent does
-- not count it and has the verb.
pub attenuation-counts :
    (child parent : Capability) (v : String) (n : ℕ)
    → is_valid_attenuation_of child parent ≡ true
    → get string_discrete v child.constraints.counts ≡ some n
    → ((pn : ℕ) × (get string_discrete v parent.constraints.counts ≡ some pn) × (n ≤ pn))
      ⊎ ((get string_discrete v parent.constraints.counts ≡ none)
          × (contains v parent.verbs ≡ true))
unfolding is_valid_attenuation_of count_narrows
attenuation-counts child parent v n h e =
    let counts : all (count_narrows parent) child.constraints.counts ≡ true = ground arith in
    let here =
      all-In (count_narrows parent) (v, n) child.constraints.counts counts
        (get-In string_discrete v _ e) in
    elim (Option-cases (get string_discrete v parent.constraints.counts)) [
      | inl f ↦ inr (f, ground (arith, here))
      | inr (pn, f) ↦ inl (pn, f, ground (arith, here))
    ]

-- Where the parent of an accepted attenuation expires, the child expires no later.
pub attenuation-expiry :
    (child parent : Capability) (t : ℕ)
    → is_valid_attenuation_of child parent ≡ true
    → parent.constraints.expires_at ≡ some t
    → (c : ℕ) × (child.constraints.expires_at ≡ some c) × (c ≤ t)
unfolding is_valid_attenuation_of
attenuation-expiry child parent t h e =
    expiry-bounds child.constraints.expires_at parent.constraints.expires_at (ground arith) t e

-- A child that keeps its parent's verbs and expiry and drops every count is accepted, whatever the
-- parent counts: an absent count stands for no bound, so such a child is not narrower.
pub uncounted_is_accepted :
    (child parent : Capability)
    → child.verbs ≡ parent.verbs
    → child.constraints ≡ record { expires_at = parent.constraints.expires_at; counts = [] }
    → is_valid_attenuation_of child parent ≡ true
unfolding is_valid_attenuation_of
uncounted_is_accepted child parent v c =
    let verbs : is_subset child.verbs parent.verbs ≡ true =
      (is_subset_iff child.verbs parent.verbs).1 (subst (λ s. Below child.verbs s) v (λ a e. e)) in
    let expiry : expiry_narrows child.constraints.expires_at parent.constraints.expires_at ≡ true =
      subst (λ e. expiry_narrows e parent.constraints.expires_at ≡ true)
        (sym (ap (λ (c : Constraints). c.expires_at) c))
        (expiry_refl parent.constraints.expires_at) in
    let counts : child.constraints.counts ≡ [] = ap (λ (c : Constraints). c.counts) c in
    rw (verbs, counts, expiry)
