-- ===== src/Operator.antt =====
-- The operator's controllers of TopoLVM storage (pkg/operator/topolvm/monitor and
-- pkg/operator/topolvm/controller).
pub mod Types
pub mod Monitor
pub mod Finalizer
pub mod Requests
pub mod Jobs
pub mod Controller
pub mod Cleaning
pub mod Reconcile
pub mod LvmdConfig
pub mod CleanUp
mod Samples
mod Trials
