-- ===== src/Examples.antt =====
-- Tests of the model at concrete inputs, and the inputs at which each theorem is applied.
mod Approvals
mod Twelfths
mod Resources
mod Ledgers
mod Attempts
mod Values
mod Demands
mod Plans
mod Runs
mod Protocols
mod Labels
mod Verbs
mod Streams
