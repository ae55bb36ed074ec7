-- ===== src/Kernel/Plancheck/Effects.antt =====
-- The effects that the walk of the admission adds (crates/portos-kernel/src/plancheck.rs), with the
-- labels that it derives for them.
use portos.Base.{
  ℕ, suc, ◌*◌, ◌≡◌, refl, sym, ◌∙◌, ap, subst, Bool, true, false, some, List, [], ◌∷◌, ◌++◌,
  append-nil, append_assoc, All, All-append, String, string_discrete, arith,
}
use portos.Base.Maps.{get}
use portos.Base.Sets.{is_empty, is_empty_iff, empty, Below, Below-antisym, not_in_empty}
use portos.Proto.Label.{Label, join, leq, leq_refl, leq_trans, leq-join_left, leq_iff}
use portos.Proto.Plan.{Exprs, more, Stmt, let_, effect, if_, foreach, Stmts, end, ◌⨾◌}
use portos.Kernel.Plancheck.{
  saturating, admitted, VerbSchemas, EffectAnn, Walk, counted_nodes, bind_var, charge, walk_effect,
  walk_stmt, walk_list, bind-admitted, sink_allows, too_deep, sink_denied, admitted-injective,
  demand-admitted, or_refuse-admitted, expr_label, args_label, guard_label,
}
use portos.Kernel.Plancheck.Counted.{charge-admitted}

-- The arguments of an effect only add to the label that control gives it.
args-leq :
    {V : Type 0} (schemas : VerbSchemas) (m : List (String × Label)) (l : Label) (n : ℕ)
    (es : Exprs V) {r : Label × ℕ}
    → args_label schemas m l n es ≡ admitted r
    → leq l r.0 ≡ true
unfolding args_label
args-leq schemas m l n Exprs.none {r} e =
    subst (λ r. leq l r.0 ≡ true) (admitted-injective e) (leq_refl l)
args-leq schemas m l n (more x es) {r} e =
    let ((lx, n1), _, e1) = bind-admitted (expr_label schemas m n x) _ e in
    leq_trans l (join l lx) r.0 (leq-join_left l lx)
      (args-leq schemas m (join l lx) n1 es {r = r} e1)

sink_is_empty :
    (external : Bool) (eff : Label)
    → sink_allows external eff ≡ true
    → external ≡ true
    → eff.conf ≡ empty
sink_is_empty external eff h x = (is_empty_iff eff.conf).0 (ground arith)

-- The effects that a walk under `pc` adds.
pub record Extends (schemas : VerbSchemas) (pc : Label) (w w' : Walk) : Type 0 where
  pub added : List EffectAnn
  pub effects : w'.out.effects ≡ w.out.effects ++ added
  pub safe :
      All
        (λ a.
          get string_discrete a.verb schemas.external_effects ≡ some true
          → a.effective.conf ≡ empty)
        added
  pub above : All (λ a. leq pc a.effective ≡ true) added

All-map {ℓ} :
    {A : Type ℓ} {P R : A → Type 0} (xs : List A) → ((a : A) → P a → R a) → All P xs → All R xs
All-map [] f a = tt
All-map (x ∷ xs) f a = (f x a.0, All-map xs f a.1)

module _ (schemas : VerbSchemas) (pc : Label) where
  adds_nothing : {w w' : Walk} → w'.out.effects ≡ w.out.effects → Extends schemas pc w w'
  adds_nothing e = record { added = []; effects = e ∙ sym (append-nil _); safe = tt; above = tt }

  pub Extends-trans :
      {w w1 w2 : Walk}
      → Extends schemas pc w w1
      → Extends schemas pc w1 w2
      → Extends schemas pc w w2
  Extends-trans {w} a b = record {
    added = a.added ++ b.added;
    effects =
        b.effects ∙ ap (λ es. es ++ b.added) a.effects ∙ append_assoc w.out.effects a.added b.added;
    safe = All-append _ a.added b.added a.safe b.safe;
    above = All-append _ a.added b.added a.above b.above;
  }

  -- What is added under a higher label is added under a lower one.
  pub Extends-below :
      {w w' : Walk} (l : Label) → Extends schemas (join pc l) w w' → Extends schemas pc w w'
  Extends-below l a = record {
    added = a.added;
    effects = a.effects;
    safe = a.safe;
    above =
        All-map a.added (λ x h. leq_trans pc (join pc l) x.effective (leq-join_left pc l) h)
          a.above;
  }

Extends-from :
    (schemas : VerbSchemas) (pc : Label) {w w1 w' : Walk}
    → w1.out.effects ≡ w.out.effects
    → Extends schemas pc w1 w'
    → Extends schemas pc w w'
Extends-from schemas pc e a = record {
  added = a.added;
  effects = a.effects ∙ ap (λ es. es ++ a.added) e;
  safe = a.safe;
  above = a.above;
}

pub from_nodes :
    (schemas : VerbSchemas) (pc : Label) (w : Walk) (n : ℕ) {w' : Walk}
    → Extends schemas pc (counted_nodes n w) w'
    → Extends schemas pc w w'
from_nodes schemas pc w n a = Extends-from schemas pc refl a

from_var :
    (schemas : VerbSchemas) (pc : Label) (w : Walk) (x : String) (l : Label) (n : ℕ) {w' : Walk}
    → Extends schemas pc (bind_var x l n w) w'
    → Extends schemas pc w w'
from_var schemas pc w x l n a = Extends-from schemas pc refl a

-- A confidential label stays confidential in what carries it.
pub secret_stays :
    (gl eff : Label) → is_empty gl.conf ≡ false → leq gl eff ≡ true → eff.conf ≡ empty → ⊥
secret_stays gl eff x l c =
    let below = (leq_iff gl eff).0 l in
    let same : is_empty gl.conf ≡ true = (is_empty_iff gl.conf).1 (
      Below-antisym gl.conf empty (subst (Below gl.conf) c below.0)
        (λ a e. absurd (not_in_empty a e))) in
    cc (x, same)

module _ {V : Type 0} (schemas : VerbSchemas) where
  effect-Extends :
      (w : Walk) {w' : Walk} (pc : Label) (m : ℕ) (verb : String) (args : Exprs V)
      → walk_effect schemas w pc m verb args ≡ admitted w'
      → Extends schemas pc w w'
  unfolding walk_effect
  effect-Extends w pc m verb args e =
      let (external, x, e1) =
        or_refuse-admitted (get string_discrete verb schemas.external_effects) _ _ e in
      let ((eff, n), l, e2) =
        bind-admitted (args_label schemas w.env pc w.out.node_count args) _ e1 in
      let (t, e3) = demand-admitted (sink_allows external eff) (sink_denied verb eff) _ e2 in
      let r = admitted-injective e3 in
      subst (Extends schemas pc w) r (record {
        added = record { verb = verb; effective = eff; multiplier = m } ∷ [];
        effects = refl;
        safe = (λ y. sink_is_empty external eff t (cc (x, y)), tt);
        above = (args-leq schemas w.env pc w.out.node_count args l, tt);
      })

  mutual
    unfolding walk_list walk_stmt

    pub stmt-Extends :
        (s : Stmt V) (w : Walk) {w' : Walk} (pc : Label) (m d : ℕ)
        → walk_stmt schemas w pc m d s ≡ admitted w'
        → Extends schemas pc w w'
    stmt-Extends (let_ x t) w pc m d e =
        let ((l, n), _, e1) = bind-admitted (expr_label schemas w.env w.out.node_count t) _ e in
        adds_nothing schemas pc (ap (λ (w : Walk). w.out.effects) (sym (admitted-injective e1)))
    stmt-Extends (effect verb args) w pc m d e = effect-Extends w pc m verb args e
    stmt-Extends (if_ g t f) w pc m d e =
        let ((gl, n), _, e1) = bind-admitted (guard_label schemas w.env w.out.node_count g) _ e in
        let (_, e2) = demand-admitted _ (too_deep (suc d)) _ e1 in
        let (w1, p, e3) =
          bind-admitted (walk_list schemas (counted_nodes n w) (join pc gl) m (suc d) t) _ e2 in
        Extends-below schemas pc gl (
          Extends-trans schemas (join pc gl)
            (from_nodes schemas (join pc gl) w n
              (list-Extends t (counted_nodes n w) (join pc gl) m (suc d) p))
            (list-Extends f w1 (join pc gl) m (suc d) e3))
    stmt-Extends (foreach x list bound mode body) w pc m d e =
        let ((ll, n), _, e1) = bind-admitted (expr_label schemas w.env w.out.node_count list) _ e in
        let (_, e2) = demand-admitted _ (too_deep (suc d)) _ e1 in
        Extends-below schemas pc ll (
          from_var schemas (join pc ll) w x ll n (
            list-Extends body (bind_var x ll n w) (join pc ll) (saturating (m * bound)) (suc d) e2))

    pub list-Extends :
        (ss : Stmts V) (w : Walk) {w' : Walk} (pc : Label) (m d : ℕ)
        → walk_list schemas w pc m d ss ≡ admitted w'
        → Extends schemas pc w w'
    list-Extends end w pc m d e =
        adds_nothing schemas pc (ap (λ (w : Walk). w.out.effects) (sym (admitted-injective e)))
    list-Extends (s ⨾ ss) w pc m d e =
        let (w1, c, e1) = bind-admitted (charge m w) _ e in
        let (w2, p, e2) = bind-admitted (walk_stmt schemas w1 pc m d s) _ e1 in
        let (_, _, same, _, _) = charge-admitted m w c in
        Extends-from schemas pc same
          (Extends-trans schemas pc (stmt-Extends s w1 pc m d p) (list-Extends ss w2 pc m d e2))
