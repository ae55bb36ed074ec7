-- ===== src/Proto/Plan.antt =====
-- The effect plans (crates/portos-proto/src/plan.rs). `V` is the type of JSON values
-- (`serde_json::Value`), which the plan only carries. A sequence of statements or of expressions is a
-- type of its own, since a type cannot hold a list of itself.
use portos.Base.{ℕ, String}

pub data Mode : Type 0 where
  strict truncate escalate : Mode

pub data CmpOp : Type 0 where
  eq ne lt le gt ge : CmpOp

infixr 67 ◌⨾◌
module _ (V : Type 0) where
  mutual
    pub data Expr : Type 0 where
      observe : String → Exprs → Expr
      pure : String → Exprs → Expr
      const : V → Expr
      var : String → Expr
      index : Expr → ℕ → Expr

    pub data Exprs : Type 0 where
      none : Exprs
      more : Expr → Exprs → Exprs

  pub data Guard : Type 0 where
    exists : Expr → Guard
    matches : Expr → String → Guard
    cmp : Expr → CmpOp → Expr → Guard
    and : Guard → Guard → Guard
    or : Guard → Guard → Guard
    not : Guard → Guard

  mutual
    pub data Stmt : Type 0 where
      let_ : String → Expr → Stmt
      effect : String → Exprs → Stmt
      if_ : Guard → Stmts → Stmts → Stmt
      foreach : String → Expr → ℕ → Mode → Stmts → Stmt

    pub data Stmts : Type 0 where
      end : Stmts
      ◌⨾◌ : Stmt → Stmts → Stmts

  pub record Plan : Type 0 where
    pub stmts : Stmts
