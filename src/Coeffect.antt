-- ===== src/Coeffect.antt =====
-- What a plan demands before it runs (crates/portos-rm/src/coeffect.rs): the plan shapes, and in the
-- children the scalars, the budgets by class of effects, and the two evaluations of a plan.
pub mod Budgets
pub mod Demands
use portos.Base.{ℕ, String}

infixr 67 ◌⨾◌
mutual
  pub data Plan : Type 0 where
    verb : String → String → Plan
    seq : Plans → Plan
    loop : ℕ → Plan → Plan
    branch : Plan → Plan → Plan

  pub data Plans : Type 0 where
    end : Plans
    ◌⨾◌ : Plan → Plans → Plans
