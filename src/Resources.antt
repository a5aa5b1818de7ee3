-- ===== src/Resources.antt =====
-- The objects that the operator creates in the cluster, as records of the fields that it sets.
pub mod Names
pub mod DataVolumes
pub mod VirtualMachines
pub mod DeltaJobs
