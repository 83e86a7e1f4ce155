-- ===== src/Discover.antt =====
-- The daemon that publishes a node's disks (pkg/operator/discover/discover.go).
pub mod Publish
pub mod Classes
pub mod Udev
mod Samples
