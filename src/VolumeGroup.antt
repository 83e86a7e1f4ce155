-- ===== src/VolumeGroup.antt =====
-- The job that makes a node's volume groups: pkg/operator/topolvm/volumegroup/preparevg.go.
pub mod Types
pub mod Create
pub mod Resize
pub mod Lvmd
pub mod Loops
pub mod Plan
pub mod Provision
mod Samples
