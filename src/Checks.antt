-- ===== src/Checks.antt =====
-- Runs of the models on concrete inputs, and the theorems at such inputs.
mod Disks
mod Reconciler
mod Histories
mod Naming
mod Texts
mod Prism
mod Answers
mod Guests
mod Pools
mod Commands
