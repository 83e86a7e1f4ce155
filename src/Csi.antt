-- ===== src/Csi.antt =====
-- The raw-device CSI controller (driver/raw_device/controller.go) and its data.
pub mod Device
pub mod Capacity
pub mod Placement
pub mod Volumes
pub mod Controller
mod Samples
