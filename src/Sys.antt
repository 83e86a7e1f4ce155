-- ===== src/Sys.antt =====
-- The commands of pkg/util/sys: LVM's, losetup's, and those that find the disks of a node.
pub mod Parse
pub mod Lvm
pub mod Loop
pub mod Device
pub mod LocalDisk
pub mod Disks
mod Samples
