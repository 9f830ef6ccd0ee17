-- ===== src/Examples.antt =====
-- Tests at concrete inputs, and the theorems at inputs that meet their hypotheses.
mod Policies
mod Delegations
mod Approvals
mod Interceptions
mod Runtimes
mod Versions
mod Releases
mod Sources
