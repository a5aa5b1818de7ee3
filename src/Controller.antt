-- ===== src/Controller.antt =====
-- controllers/: the reconciler. Every call that leaves the operator goes through `Effects`.
pub mod Effects
pub mod Ensures
pub mod Status
pub mod Conditions
pub mod Volumes
pub mod Warm
pub mod Import
pub mod FinalSync
pub mod Start
pub mod Images
pub mod GuestPrep
pub mod Machines
pub mod Testing
pub mod Reconcile
pub mod Delta
pub mod Moves
pub mod Evidence
pub mod Gates
