-- ===== src/Examples/Labels.antt =====
-- Labels and capabilities at concrete values.
use portos.Base.{◌≤◌, ◌⊎◌, ℕ, ◌≡◌, refl, true, false, none, some, [], ◌∷◌, string_discrete}
use portos.Base.Sets.{contains, of_list, is_subset, all_in}
use portos.Base.Maps.{get}
use portos.Proto.Cap.{
  Capability, is_valid_attenuation_of, count_narrows, expiry_narrows, attenuation-counts,
  uncounted_is_accepted,
}

abbrev parent : Capability
parent = record {
  cap_id = "cap_1";
  subject = "session:cli";
  resource = "toy:echo";
  verbs = of_list ("emit" ∷ "list" ∷ []);
  constraints = record { expires_at = some 20; counts = ("emit", 4) ∷ [] };
  parent = none;
  revoked = false;
}

abbrev child : Capability
child = record {
  cap_id = "cap_2";
  subject = "session:cli";
  resource = "toy:echo";
  verbs = of_list ("emit" ∷ []);
  constraints = record { expires_at = some 10; counts = ("emit", 3) ∷ [] };
  parent = some "cap_1";
  revoked = false;
}

child_is_valid : is_valid_attenuation_of child parent ≡ true
unfolding string_discrete is_valid_attenuation_of count_narrows expiry_narrows is_subset all_in
    contains get
child_is_valid = refl

emit_is_a_verb : contains "emit" child.verbs ≡ true
unfolding contains string_discrete
emit_is_a_verb = refl

emit_is_counted : get string_discrete "emit" child.constraints.counts ≡ some 3
unfolding get string_discrete
emit_is_counted = refl

attenuation-counts_example :
    ((pn : ℕ) × (get string_discrete "emit" parent.constraints.counts ≡ some pn) × (3 ≤ pn))
    ⊎ ((get string_discrete "emit" parent.constraints.counts ≡ none)
        × (contains "emit" parent.verbs ≡ true))
attenuation-counts_example = attenuation-counts child parent "emit" 3 child_is_valid emit_is_counted

-- The child of a parent with a count of 4 that has no count at all.
abbrev uncounted : Capability
uncounted = record parent { constraints = record { expires_at = some 20; counts = [] } }

uncounted_is_accepted_example : is_valid_attenuation_of uncounted parent ≡ true
uncounted_is_accepted_example = uncounted_is_accepted uncounted parent refl refl
