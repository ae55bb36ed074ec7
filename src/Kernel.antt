-- ===== src/Kernel.antt =====
-- The kernel (crates/portos-kernel/src): the admission of plans and their runs.
pub mod Plancheck
pub mod Plans
