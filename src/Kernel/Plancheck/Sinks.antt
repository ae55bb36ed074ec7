-- ===== src/Kernel/Plancheck/Sinks.antt =====
-- The labels that the admission derives for effects: each carries the labels of the guards and lists
-- that it stands under, and none that is confidential goes to an external effect.
use portos.Base.{
  ℕ, suc, ◌≡◌, ◌≢◌, sym, ◌∙◌, ap, subst, true, false, some, List, [], ◌∷◌, ◌++◌, All, In,
  string_discrete, leb,
}
use portos.Base.Maps.{get}
use portos.Base.Sets.{is_empty, empty}
use portos.Proto.Label.{Label, join, leq, public_trusted, leq_trans, leq-join_right}
use portos.Proto.Plan.{Guard, if_, Stmts, Plan}
use portos.Kernel.Plancheck.{
  ◌>>=◌, ◌>>◌, demand, admitted, VerbSchemas, EffectAnn, Admission, Walk, start_walk, counted_nodes,
  walk_stmt, walk_list, admit, bind-admitted, max_depth, too_deep, demand-admitted, guard_label,
}
use portos.Kernel.Plancheck.Runs.{admit-walk}
use portos.Kernel.Plancheck.Effects.{Extends, Extends-trans, from_nodes, secret_stays, list-Extends}

module _ {V : Type 0} (schemas : VerbSchemas) where
  -- The two arms of a branch, under the label of its guard.
  arms-Extends :
      (g : Guard V) (t f : Stmts V) (w : Walk) {w' : Walk} (pc gl : Label) (m d n : ℕ)
      → guard_label schemas w.env w.out.node_count g ≡ admitted (gl, n)
      → walk_stmt schemas w pc m d (if_ g t f) ≡ admitted w'
      → Extends schemas (join pc gl) w w'
  unfolding walk_stmt
  arms-Extends g t f w {w'} pc gl m d n h e =
      let e1 =
        subst
          (λ r.
            (r >>= λ (gl, n).
            demand (leb (suc d) max_depth) (too_deep (suc d))
            >> (walk_list schemas (counted_nodes n w) (join pc gl) m (suc d) t >>= λ w1.
                walk_list schemas w1 (join pc gl) m (suc d) f))
            ≡ admitted w')
          h e in
      let (_, e2) = demand-admitted _ (too_deep (suc d)) _ e1 in
      let (w1, p, e3) =
        bind-admitted (walk_list schemas (counted_nodes n w) (join pc gl) m (suc d) t) _ e2 in
      Extends-trans schemas (join pc gl)
        (from_nodes schemas (join pc gl) w n
          (list-Extends schemas t (counted_nodes n w) (join pc gl) m (suc d) p))
        (list-Extends schemas f w1 (join pc gl) m (suc d) e3)

  -- No effect in the arms of a branch whose guard has a confidential label goes to an external sink:
  -- what the walk adds there has only verbs that are not external.
  pub secret_branch-is_internal :
      (g : Guard V) (t f : Stmts V) (w w' : Walk) (pc gl : Label) (m d n : ℕ)
      → guard_label schemas w.env w.out.node_count g ≡ admitted (gl, n)
      → is_empty gl.conf ≡ false
      → walk_stmt schemas w pc m d (if_ g t f) ≡ admitted w'
      → (added : List EffectAnn) × (w'.out.effects ≡ w.out.effects ++ added)
        × All (λ a. get string_discrete a.verb schemas.external_effects ≢ some true) added
  secret_branch-is_internal g t f w w' pc gl m d n h x e =
      let a = arms-Extends g t f w pc gl m d n h e in
      (a.added, a.effects, internal a.added a.safe a.above)
    where
      internal :
          (xs : List EffectAnn)
          → All
              (λ a.
                get string_discrete a.verb schemas.external_effects ≡ some true
                → a.effective.conf ≡ empty)
              xs
          → All (λ a. leq (join pc gl) a.effective ≡ true) xs
          → All (λ a. get string_discrete a.verb schemas.external_effects ≢ some true) xs
      internal [] s b = tt
      internal (y ∷ ys) s b = (
        λ v.
            secret_stays gl y.effective x
              (leq_trans gl (join pc gl) y.effective (leq-join_right pc gl) b.0) (s.0 v),
        internal ys s.1 b.1,
      )

  -- No effect of an admitted plan that the schemas name as external has a confidential label.
  pub admit-sinks :
      (plan : Plan V) (adm : Admission) (a : EffectAnn)
      → admit schemas plan ≡ admitted adm
      → In a adm.effects
      → get string_discrete a.verb schemas.external_effects ≡ some true
      → a.effective.conf ≡ empty
  admit-sinks plan adm a e i x =
      let (w, p, r, _) = admit-walk schemas plan e in
      let ext = list-Extends schemas plan.stmts start_walk public_trusted 1 1 p in
      at ext.added ext.safe
        (subst (λ es. In a es) (sym (ap (λ (a : Admission). a.effects) r) ∙ ext.effects) i) x
    where
      at :
          (xs : List EffectAnn)
          → All
              (λ a.
                get string_discrete a.verb schemas.external_effects ≡ some true
                → a.effective.conf ≡ empty)
              xs
          → In a xs
          → get string_discrete a.verb schemas.external_effects ≡ some true
          → a.effective.conf ≡ empty
      at [] s i x = elim i [ ]
      at (y ∷ ys) s (In.here q) x =
          subst
            (λ (b : EffectAnn).
              get string_discrete b.verb schemas.external_effects ≡ some true
              → b.effective.conf ≡ empty)
            (sym q) s.0 x
      at (y ∷ ys) s (In.there i) x = at ys s.1 i x
